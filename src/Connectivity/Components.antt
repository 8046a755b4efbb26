-- ===== src/Connectivity/Components.antt =====
-- `eraseNonSCC` (Buffers/src/DFnetlist_Connectivity.cpp), on a netlist whose strongly connected
-- components have been computed: `scc_number` is -1 for the blocks outside of them.
use fpt2022_artifact.Common.{ℕ, Bool, not, none, some, List, [], ◌∷◌, if◌then◌else◌}
use fpt2022_artifact.Common.Int.{ℤ, eqb_ℤ, is_neg}
use fpt2022_artifact.Netlist.Types.{Net, Op, ◌>>=◌, ◌>>◌, ret, look, block}
use fpt2022_artifact.Netlist.Channels.{get_src_block, get_dst_block, remove_channel}
use fpt2022_artifact.Netlist.Blocks.{remove_block}
use fpt2022_artifact.Netlist.Attributes.{set_basic_block}
use fpt2022_artifact.Checks.Driver.{each}

abbrev pub scc_of : Net → ℕ → ℤ
scc_of s b = (block s b).attrs.scc_number

-- `b_to_remove`
unfoldable pub outside : Net → List ℕ → List ℕ
outside s [] = []
outside s (b ∷ bs) = if is_neg (scc_of s b) then b ∷ outside s bs else outside s bs

-- Whether a channel leads from one component to another.
unfoldable pub is_crossing : ℕ → Op Bool
is_crossing c = do
  src ← look (get_src_block (some c))
  dst ← look (get_dst_block (some c))
  look (λ s. some (not (eqb_ℤ (scc_of s src) (scc_of s dst))))

-- `c_to_remove`
unfoldable pub crossing : List ℕ → Op (List ℕ)
crossing [] = ret []
crossing (c ∷ cs) =
    is_crossing c >>= λ x. crossing cs >>= λ rest. ret (if x then c ∷ rest else rest)

unfoldable pub erase_crossing : Op (Unit {0})
erase_crossing t = (crossing t.channels.live >>= each (λ c. remove_channel (some c))) t

-- `invalidateBasicBlocks`: no block has a basic block any more. The graph of basic blocks, which it also
-- clears, is no part of the netlist here.
unfoldable pub invalidate_basic_blocks : Op (Unit {0})
invalidate_basic_blocks s = each (λ b. set_basic_block (some b) none) s.blocks.live s

unfoldable pub erase_non_scc : Op (Unit {0})
erase_non_scc s =
    (each (λ b. remove_block (some b)) (outside s s.blocks.live)
        >> (erase_crossing >> invalidate_basic_blocks))
      s
