-- ===== src/Connectivity.antt =====
-- The depth-first search of Buffers/src/DFnetlist_Connectivity.cpp.
--
-- `visited` is a function in place of a vector of Booleans: the code indexes it with existing blocks
-- only. The stacks `S` and `listChildren` are lists with the top first; `none` is the separator
-- (`invalidDataflowID`) on the second one. The member `DFSorder` is the answer of `dfs`.
pub mod Children
pub mod Renumber
pub mod Rounds
pub mod Steps
pub mod Loops
pub mod Setup
pub mod Fill
pub mod Order
pub mod Components
pub mod Chosen
pub mod Pruning
pub mod Cutting
pub mod Forgetting
pub mod Erasure
mod Tests
use fpt2022_artifact.Common.{ℕ, zero, suc, ◌+◌, Bool, true, false, not, Option, none, some}
use fpt2022_artifact.Common.{List, [], ◌∷◌, ◌++◌, if◌then◌else◌, ◌==◌, ltb, length, modify}
use fpt2022_artifact.Common.Int.{ℤ, pos, negsuc, minus_one, eqb_ℤ}
use fpt2022_artifact.Netlist.Types.{Net, Block, BlockType, func_entry, Op, ◌>>=◌, ◌>>◌, ret, look}
use fpt2022_artifact.Netlist.Types.{block, input_ports, output_ports}
use fpt2022_artifact.Netlist.Channels.{
  get_connected_channel, get_connected_port, get_block_from_port, is_channel_marked,
}
use fpt2022_artifact.Netlist.Ports.{get_ports}
use fpt2022_artifact.Netlist.Attributes.{
  get_block_type, set_dfs_order, get_dfs_order, is_block_marked,
}

pub record Walk : Type 0 where
  pub visited : ℕ → Bool
  pub stack : List ℕ
  pub pending : List (Option ℕ)
  pub clock : ℤ

-- `n - 1`
abbrev pub decrement : ℤ → ℤ
decrement (pos zero) = negsuc 0
decrement (pos (suc n)) = pos n
decrement (negsuc n) = negsuc (suc n)

abbrev pub put_bit : ℕ → Bool → (ℕ → Bool) → ℕ → Bool
put_bit b value v x = if b == x then value else v x

-- `onlyMarked and not isBlockMarked(b)`
unfoldable pub is_skipped : Bool → ℕ → Net → Option Bool
is_skipped false b s = some false
is_skipped true b s = elim (is_block_marked (some b) s) [ none ↦ none | some m ↦ some (not m) ]

-- `onlyMarked and not isChannelMarked(c)`
unfoldable pub is_cut : Bool → Option ℕ → Net → Option Bool
is_cut false c s = some false
is_cut true c s = elim (is_channel_marked c s) [ none ↦ none | some m ↦ some (not m) ]

-- The body of the loop over the ports of a block.
unfoldable pub push_child : Bool → ℕ → Walk → Op Walk
push_child only p w = do
  c ← look (get_connected_channel (some p))
  cut ← look (is_cut only c)
  if cut then ret w else do
    q ← look (get_connected_port (some p))
    other_b ← look (get_block_from_port (some q))
    ret (if w.visited other_b then w else record w { pending = some other_b ∷ w.pending })

unfoldable pub push_children : Bool → List ℕ → Walk → Op Walk
push_children only [] w = ret w
push_children only (p ∷ ps) w = push_child only p w >>= push_children only ps

-- A block is visited, and its children are put to the pending list.
abbrev pub entered : ℕ → Walk → Walk
entered b w = record w {
  visited = put_bit b true w.visited;
  stack = b ∷ w.stack;
  pending = none ∷ w.pending;
}

unfoldable pub enter_block : Bool → Bool → ℕ → Walk → Op Walk
enter_block forward only b w = do
  ps ← look (get_ports (some b) (if forward then output_ports else input_ports))
  push_children only ps (entered b w)

-- The body of the `while`. Taking the top of an empty stack is undefined in C++ and fails here.
unfoldable pub leave_block : List ℕ → List (Option ℕ) → Walk → Op Walk
leave_block [] pending w = look (λ s. none)
leave_block (v ∷ vs) pending w =
    set_dfs_order (some v) (decrement w.clock)
    >> ret (record w { stack = vs; pending = pending; clock = decrement w.clock })

unfoldable pub visit : Bool → Bool → List (Option ℕ) → Walk → Op Walk
visit forward only [] w = look (λ s. none)
visit forward only (none ∷ pending) w = leave_block w.stack pending w
visit forward only (some kid ∷ pending) w =
    if w.visited kid
    then ret (record w { pending = pending })
    else enter_block forward only kid (record w { pending = pending })

-- `while (not S.empty())`
unfoldable pub walk : Bool → Bool → ℕ → Walk → Op Walk
walk forward only zero w = elim w.stack [ [] ↦ ret w | v ∷ vs ↦ look (λ s. none) ]
walk forward only (suc fuel) w = elim w.stack [
  | [] ↦ ret w
  | v ∷ vs ↦ visit forward only w.pending w >>= walk forward only fuel
]

-- `for (blockID b: lBlocks)`
unfoldable pub walk_from : Bool → Bool → ℕ → List ℕ → Walk → Op Walk
walk_from forward only fuel [] w = ret w
walk_from forward only fuel (b ∷ bs) w =
    (if w.visited b then ret w else enter_block forward only b w >>= walk forward only fuel)
    >>= walk_from forward only fuel bs

-- The first loop: the blocks that are not marked count as visited.
unfoldable pub skip_unmarked : Bool → List ℕ → (ℕ → Bool) → Op (ℕ → Bool)
skip_unmarked only [] v = ret v
skip_unmarked only (b ∷ bs) v =
    look (is_skipped only b) >>= λ skip. skip_unmarked only bs (put_bit b skip v)

abbrev pub is_func_entry : BlockType → Bool
is_func_entry func_entry = true
is_func_entry other = false

-- The second loop: `lBlocks` and the clock.
unfoldable pub list_blocks : (ℕ → Bool) → List ℕ → List ℕ → ℕ → Op (List ℕ × ℕ)
list_blocks visited [] roots clock = ret (roots, clock)
list_blocks visited (b ∷ bs) roots clock =
    set_dfs_order (some b) minus_one
    >> (if visited b
        then list_blocks visited bs roots clock
        else (look (get_block_type (some b)) >>= λ t.
            list_blocks visited bs (if is_func_entry t then b ∷ roots else roots ++ b ∷ [])
              (suc clock)))

-- The last loop. In `i < DFSorder.size()` the -1 of a block without a number is a huge unsigned
-- value; a write out of range fails here.
unfoldable pub place : ℕ → Bool → ℤ → List ℕ → Option (List ℕ)
place b skipped (pos i) order =
    if ltb i (length order) then some (modify order i (λ old. b)) else none
place b skipped (negsuc i) order = if skipped then some order else none

unfoldable pub fill_order : Bool → List ℕ → List ℕ → Op (List ℕ)
fill_order only [] order = ret order
fill_order only (b ∷ bs) order = do
  i ← look (get_dfs_order (some b))
  skipped ← look (is_skipped only b)
  next ← look (λ s. place b skipped i order)
  fill_order only bs next

abbrev pub ports_along : Bool → Block → List ℕ
ports_along true b = b.out_ports
ports_along false b = b.in_ports

-- Enough rounds for the `while`: each block is entered once, and adds itself and its ports.
unfoldable pub walk_fuel : Bool → Net → List ℕ → ℕ
walk_fuel forward s [] = 0
walk_fuel forward s (b ∷ bs) =
    suc (length (ports_along forward (block s b))) + walk_fuel forward s bs

abbrev pub zeros : ℕ → List ℕ
zeros zero = []
zeros (suc n) = 0 ∷ zeros n

-- `DFS`, with `assert(clock == 0)`.
unfoldable pub dfs : Bool → Bool → Op (List ℕ)
dfs forward only s =
    (do
      visited ← skip_unmarked only s.blocks.live (λ b. false)
      start ← list_blocks visited s.blocks.live [] 0
      w ←
          walk_from forward only (walk_fuel forward s s.blocks.live) (start.0)
            (record { visited = visited; stack = []; pending = []; clock = pos (start.1) })
      _ ← look (λ t. if eqb_ℤ w.clock (pos 0) then some tt else none)
      fill_order only s.blocks.live (zeros (start.1)))
      s
