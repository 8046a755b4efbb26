-- ===== src/Samples.antt =====
-- A small netlist for the runs of several components: a source of 32 bits feeds a fork, which feeds
-- a sink through a channel with a buffer; the ports of the fork and the sink have no width yet.
use fpt2022_artifact.Common.{ℕ, suc, refl, Bool, true, false, Option, none, some}
use fpt2022_artifact.Common.{List, [], ◌∷◌, ◌++◌, length, modify, get_or}
use fpt2022_artifact.Common.Int.{ℤ, pos, minus_one}
use fpt2022_artifact.Common.Sets.{mem, insert}
use fpt2022_artifact.Common.Text.{Str, Dict, codes, str_eq, lookup, assign, emplace}
use fpt2022_artifact.Slab.{Slab, at, alloc, put}
use fpt2022_artifact.Netlist.Types.{Net, Block, Port, Channel, BlockType, source, fork, sink, init}
use fpt2022_artifact.Netlist.Types.{generic_port, block_zero, port_zero, channel_zero}
use fpt2022_artifact.Netlist.Types.{valid_block, valid_port}
use fpt2022_artifact.Netlist.Channels.{create_channel, link_ports, init_channel}
use fpt2022_artifact.Netlist.Ports.{create_port, create_named_port, add_port, is_demux, pair_demux}
use fpt2022_artifact.Netlist.Ports.{init_port}
use fpt2022_artifact.Netlist.Blocks.{create_block, get_block, add_block, init_block}
use fpt2022_artifact.Netlist.Invariant.{IsWellFormed}
use fpt2022_artifact.Netlist.Invariant.Link.{CanConnect}
use fpt2022_artifact.Netlist.Reach.{Reach, start, step, make_block, make_port, make_channel}
use fpt2022_artifact.Netlist.Reach.{Reach-IsWellFormed}

-- Opens what building a netlist computes with.
unfoldable pub building : ℕ
unfolding create_block get_block add_block lookup alloc insert assign str_eq put modify get_or
    emplace at mem create_port create_named_port add_port pair_demux is_demux valid_block valid_port
    create_channel link_ports
building = 0

abbrev count_from : {A : Type 0} → ℕ → List A → List ℕ
count_from n [] = []
count_from n (x ∷ xs) = n ∷ count_from (suc n) xs

abbrev block_names : ℕ → List Block → Dict
block_names n [] = []
block_names n (b ∷ bs) = (b.name, n) ∷ block_names (suc n) bs

abbrev port_names : ℕ → List Port → Dict
port_names n [] = []
port_names n (p ∷ ps) = (p.full_name, n) ∷ port_names (suc n) ps

abbrev full_slab : {A : Type 0} → List A → Slab A
full_slab xs = record { slots = xs; free = none; live = count_from 0 xs }

-- A netlist from which nothing was removed.
abbrev pub net : List Block → List Port → List Channel → Net
net bs ps cs = record init {
  n_blocks = length bs;
  n_channels = length cs;
  n_ports = length ps;
  blocks = full_slab bs;
  ports = full_slab ps;
  channels = full_slab cs;
  name2block = block_names 0 bs;
  name2port = port_names 0 ps;
}

abbrev pub new_block : ℕ → Str → BlockType → List ℕ → List ℕ → Block
new_block id name type ins outs = record (init_block id name type block_zero) {
  in_ports = ins;
  out_ports = outs;
  all_ports = ins ++ outs;
}

abbrev pub new_port : ℕ → ℕ → Str → Str → Bool → ℤ → Option ℕ → Port
new_port id b local full is_input width channel =
    record (init_port id b local full is_input width generic_port port_zero) { channel = channel }

abbrev pub new_channel : ℕ → ℕ → ℕ → ℤ → Bool → Channel
new_channel id src dst slots transparent = init_channel id src dst slots transparent channel_zero

abbrev s_block : List ℕ → Block
s_block outs = new_block 0 (codes "s") source [] outs

abbrev f_block : List ℕ → List ℕ → Block
f_block ins outs = new_block 1 (codes "f") fork ins outs

abbrev k_block : List ℕ → Block
k_block ins = new_block 2 (codes "k") sink ins []

abbrev s_port : Option ℕ → Port
s_port = new_port 0 0 (codes "o") (codes "s:o") false (pos 32)

abbrev f_input : Option ℕ → Port
f_input = new_port 1 1 (codes "i") (codes "f:i") true minus_one

abbrev f_output : Option ℕ → Port
f_output = new_port 2 1 (codes "o") (codes "f:o") false minus_one

abbrev k_port : Option ℕ → Port
k_port = new_port 3 2 (codes "i") (codes "k:i") true minus_one

abbrev one_block : Net
one_block = net (s_block [] ∷ []) [] []

abbrev two_blocks : Net
two_blocks = net (s_block [] ∷ f_block [] [] ∷ []) [] []

abbrev three_blocks : Net
three_blocks = net (s_block [] ∷ f_block [] [] ∷ k_block [] ∷ []) [] []

abbrev one_port : Net
one_port = net (s_block (0 ∷ []) ∷ f_block [] [] ∷ k_block [] ∷ []) (s_port none ∷ []) []

abbrev two_ports : Net
two_ports =
    net (s_block (0 ∷ []) ∷ f_block (1 ∷ []) [] ∷ k_block [] ∷ []) (s_port none ∷ f_input none ∷ [])
      []

abbrev three_ports : Net
three_ports =
    net (s_block (0 ∷ []) ∷ f_block (1 ∷ []) (2 ∷ []) ∷ k_block [] ∷ [])
      (s_port none ∷ f_input none ∷ f_output none ∷ []) []

abbrev pub wired : Option ℕ → Option ℕ → List Channel → Net
wired c d cs =
    net (s_block (0 ∷ []) ∷ f_block (1 ∷ []) (2 ∷ []) ∷ k_block (3 ∷ []) ∷ [])
      (s_port c ∷ f_input c ∷ f_output d ∷ k_port d ∷ []) cs

abbrev pub unwired : Net
unwired = wired none none []

abbrev pub half_wired : Net
half_wired = wired (some 0) none (new_channel 0 0 1 (pos 0) true ∷ [])

abbrev pub pipeline : Net
pipeline =
    wired (some 0) (some 1) (new_channel 0 0 1 (pos 0) true ∷ new_channel 1 2 3 (pos 2) false ∷ [])

Reach-three_blocks : Reach three_blocks
unfolding building
Reach-three_blocks =
    step {s = two_blocks}
      (step {s = one_block}
        (step {t = one_block} start (make_block source (codes "s") (some 0) refl))
        (make_block fork (codes "f") (some 1) refl))
      (make_block sink (codes "k") (some 2) refl)

Reach-two_ports : Reach two_ports
unfolding building
Reach-two_ports =
    step {s = one_port}
      (step Reach-three_blocks
        (make_port (some 0) false (codes "o") (pos 32) generic_port (some 0) refl))
      (make_port (some 1) true (codes "i") minus_one generic_port (some 1) refl)

pub Reach-unwired : Reach unwired
unfolding building
Reach-unwired =
    step {s = three_ports}
      (step Reach-two_ports
        (make_port (some 1) false (codes "o") minus_one generic_port (some 2) refl))
      (make_port (some 2) true (codes "i") minus_one generic_port (some 3) refl)

unwired-CanConnect : CanConnect unwired 0 1
unfolding building
unwired-CanConnect = record {
  src_exists = refl;
  dst_exists = refl;
  src_output = refl;
  dst_input = refl;
  src_free = refl;
  dst_free = refl;
}

pub Reach-half_wired : Reach half_wired
unfolding building
Reach-half_wired = step Reach-unwired (make_channel 0 1 (pos 0) true 0 unwired-CanConnect refl)

half_wired-CanConnect : CanConnect half_wired 2 3
unfolding building
half_wired-CanConnect = record {
  src_exists = refl;
  dst_exists = refl;
  src_output = refl;
  dst_input = refl;
  src_free = refl;
  dst_free = refl;
}

pub Reach-pipeline : Reach pipeline
unfolding building
Reach-pipeline = step Reach-half_wired (make_channel 2 3 (pos 2) false 1 half_wired-CanConnect refl)

pub pipeline-IsWellFormed : IsWellFormed pipeline
pipeline-IsWellFormed = Reach-IsWellFormed Reach-pipeline
