-- ===== src/Netlist/Tests.antt =====
-- Runs on a small netlist: a fork that feeds a sink.
use fpt2022_artifact.Common.{◌++◌, ℕ, ◌≡◌, refl, true, false, Option, none, some, []}
use fpt2022_artifact.Common.{modify, get_or}
use fpt2022_artifact.Common.Int.{pos}
use fpt2022_artifact.Common.Sets.{mem, insert}
use fpt2022_artifact.Common.Text.{Str, codes, str_eq, lookup, assign, emplace}
use fpt2022_artifact.Slab.{at, alloc, put, release, IsSound}
use fpt2022_artifact.Slab.Laws.{Allocates, alloc-Allocates, release-IsSound}
use fpt2022_artifact.Netlist.Types.{Net, Block, fork, sink, branch, init}
use fpt2022_artifact.Netlist.Types.{generic_port, valid_block, valid_port}
use fpt2022_artifact.Netlist.Names.{gen_fresh_port_name}
use fpt2022_artifact.Netlist.Types.{block_zero, block}
use fpt2022_artifact.Netlist.Names.{IsFresh, gen_block_name, gen_block_name-IsFresh}
use fpt2022_artifact.Netlist.Channels.{create_channel, link_ports, remove_channel}
use fpt2022_artifact.Netlist.Ports.{create_port, create_named_port, add_port, is_demux, pair_demux}
use fpt2022_artifact.Netlist.Ports.{remove_port}
use fpt2022_artifact.Netlist.Blocks.{create_block, get_block, add_block}
use fpt2022_artifact.Netlist.Invariant.{IsWellFormed}
use fpt2022_artifact.Netlist.Invariant.Link.{CanConnect, Connects}
use fpt2022_artifact.Netlist.Invariant.Cut.{Disconnects}
use fpt2022_artifact.Netlist.Invariant.NewPort.{MakesPort}
use fpt2022_artifact.Netlist.Safety.{create_channel-Connects, remove_channel-Disconnects}
use fpt2022_artifact.Netlist.Safety.{LosesPort, remove_port-LosesPort}
use fpt2022_artifact.Netlist.Safety.{create_port_generated}
use fpt2022_artifact.Netlist.Safety.{BlockOutcome, create_block-BlockOutcome}
use fpt2022_artifact.Netlist.Reach.{Reach, start, step, make_block, make_port, make_channel}
use fpt2022_artifact.Netlist.Reach.{init-IsWellFormed, Step-IsWellFormed, Reach-IsWellFormed}

-- The netlist after a call that returned.
abbrev after : {A : Type 0} → Option (A × Net) → Net
after none = init
after (some (a, s)) = s

abbrev one_block : Net
one_block = after (create_block fork (codes "f") init)

abbrev two_blocks : Net
two_blocks = after (create_block sink (codes "s") one_block)

abbrev one_port : Net
one_port = after (create_port (some 0) false (codes "o") (pos 32) generic_port two_blocks)

abbrev two_ports : Net
two_ports = after (create_port (some 1) true (codes "i") (pos 32) generic_port one_port)

abbrev linked : Net
linked = after (create_channel (some 0) (some 1) (pos 0) true two_ports)

Reach-one_block : Reach one_block
unfolding create_block get_block add_block lookup alloc insert assign
Reach-one_block = step start (make_block fork (codes "f") (some 0) refl)

Reach-two_blocks : Reach two_blocks
unfolding create_block get_block add_block lookup alloc insert assign str_eq put modify
Reach-two_blocks = step Reach-one_block (make_block sink (codes "s") (some 1) refl)

Reach-one_port : Reach one_port
unfolding create_block get_block add_block lookup alloc insert assign str_eq put modify get_or
    emplace at mem create_port create_named_port add_port pair_demux is_demux valid_block
Reach-one_port =
    step Reach-two_blocks (make_port (some 0) false (codes "o") (pos 32) generic_port (some 0) refl)

Reach-two_ports : Reach two_ports
unfolding create_block get_block add_block lookup alloc insert assign str_eq put modify get_or
    emplace at mem create_port create_named_port add_port pair_demux is_demux valid_block
Reach-two_ports =
    step Reach-one_port (make_port (some 1) true (codes "i") (pos 32) generic_port (some 1) refl)

two_ports-CanConnect : CanConnect two_ports 0 1
unfolding create_block get_block add_block lookup alloc insert assign str_eq put modify get_or
    emplace at mem create_port create_named_port add_port pair_demux is_demux valid_block
two_ports-CanConnect = record {
  src_exists = refl;
  dst_exists = refl;
  src_output = refl;
  dst_input = refl;
  src_free = refl;
  dst_free = refl;
}

Reach-linked : Reach linked
unfolding create_block get_block add_block lookup alloc insert assign str_eq put modify get_or
    emplace at mem create_port create_named_port add_port pair_demux is_demux valid_block valid_port
    create_channel link_ports
Reach-linked = step Reach-two_ports (make_channel 0 1 (pos 0) true 0 two_ports-CanConnect refl)

two_ports-IsWellFormed : IsWellFormed two_ports
two_ports-IsWellFormed = Reach-IsWellFormed Reach-two_ports

Reach-IsWellFormed_example : IsWellFormed linked
Reach-IsWellFormed_example = Reach-IsWellFormed Reach-linked

Step-IsWellFormed_example : IsWellFormed one_block
unfolding create_block get_block add_block lookup alloc insert assign
Step-IsWellFormed_example =
    Step-IsWellFormed {s = init} {t = one_block} (make_block fork (codes "f") (some 0) refl)
      init-IsWellFormed

linked-HasChannel : mem 0 linked.channels.live ≡ true
unfolding create_block get_block add_block lookup alloc insert assign str_eq put modify get_or
    emplace at mem create_port create_named_port add_port pair_demux is_demux valid_block valid_port
    create_channel link_ports
linked-HasChannel = refl

linked-HasPort : mem 1 linked.ports.live ≡ true
unfolding create_block get_block add_block lookup alloc insert assign str_eq put modify get_or
    emplace at mem create_port create_named_port add_port pair_demux is_demux valid_block valid_port
    create_channel link_ports
linked-HasPort = refl

linked-HasBlock : mem 0 linked.blocks.live ≡ true
unfolding create_block get_block add_block lookup alloc insert assign str_eq put modify get_or
    emplace at mem create_port create_named_port add_port pair_demux is_demux valid_block valid_port
    create_channel link_ports
linked-HasBlock = refl

two_blocks-HasBlock : mem 1 two_blocks.blocks.live ≡ true
unfolding create_block get_block add_block lookup alloc insert assign str_eq put modify get_or
    emplace at mem create_port create_named_port add_port pair_demux is_demux valid_block
two_blocks-HasBlock = refl

two_blocks-sink : is_demux (block two_blocks 1).type ≡ false
unfolding create_block get_block add_block lookup alloc insert assign str_eq put modify get_or
    emplace at mem create_port create_named_port add_port pair_demux is_demux valid_block
two_blocks-sink = refl

no_channel : mem 7 linked.channels.live ≡ false
unfolding create_block get_block add_block lookup alloc insert assign str_eq put modify get_or
    emplace at mem create_port create_named_port add_port pair_demux is_demux valid_block valid_port
    create_channel link_ports
no_channel = refl

create_channel-Connects_example :
    (r : ℕ × Net) × (create_channel (some 0) (some 1) (pos 2) false two_ports ≡ some r)
    × Connects two_ports 0 1 (pos 2) false r
create_channel-Connects_example =
    create_channel-Connects two_ports 0 1 (pos 2) false two_ports-IsWellFormed two_ports-CanConnect

remove_channel-Disconnects_example :
    (t : Net) × (remove_channel (some 0) linked ≡ some (tt, t)) × Disconnects linked 0 t
remove_channel-Disconnects_example =
    remove_channel-Disconnects linked 0 (Reach-IsWellFormed Reach-linked) linked-HasChannel

remove_port-LosesPort_example :
    (t : Net) × (remove_port (some 1) linked ≡ some (tt, t)) × LosesPort linked 1 t
remove_port-LosesPort_example =
    remove_port-LosesPort linked 1 (Reach-IsWellFormed Reach-linked) linked-HasPort

create_port_generated_example :
    (r : Option ℕ × Net) × (localname : Str) × (create_port
        (some 1)
        true
        []
        (pos 8)
        generic_port
        two_blocks
      ≡ some r)
    × (gen_fresh_port_name (block two_blocks 1).name true two_blocks ≡ some localname)
    × (lookup ((block two_blocks 1).name ++ codes ":" ++ localname) two_blocks.name2port ≡ none)
    × MakesPort two_blocks 1 true localname
        ((block two_blocks 1).name ++ codes ":" ++ localname)
        (pos 8)
        generic_port
        r
create_port_generated_example =
    create_port_generated two_blocks 1 true (pos 8) generic_port
      (Reach-IsWellFormed Reach-two_blocks) two_blocks-HasBlock two_blocks-sink

create_block-BlockOutcome_example :
    (r : Option ℕ × Net) × (create_block branch [] two_blocks ≡ some r)
    × BlockOutcome two_blocks branch [] r
create_block-BlockOutcome_example =
    create_block-BlockOutcome two_blocks branch [] (Reach-IsWellFormed Reach-two_blocks)

gen_block_name-IsFresh_example : IsFresh [] two_blocks.name2block (gen_block_name fork two_blocks)
gen_block_name-IsFresh_example = gen_block_name-IsFresh fork two_blocks

alloc-Allocates_example :
    Allocates block_zero Block.next_free linked.blocks
      (alloc block_zero Block.next_free linked.blocks)
alloc-Allocates_example =
    alloc-Allocates block_zero Block.next_free linked.blocks
      (Reach-IsWellFormed Reach-linked).blocks_sound

release-IsSound_example :
    IsSound block_zero Block.next_free
      (release 0 (λ link b. record b { next_free = link }) linked.blocks)
release-IsSound_example =
    release-IsSound block_zero Block.next_free 0 (λ link b. record b { next_free = link })
      linked.blocks (λ link b. refl) linked-HasBlock (Reach-IsWellFormed Reach-linked).blocks_sound
