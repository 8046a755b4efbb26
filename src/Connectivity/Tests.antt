-- ===== src/Connectivity/Tests.antt =====
-- Runs of the depth-first search on a small netlist.
use fpt2022_artifact.Common.{
  ℕ, zero, suc, ◌≡◌, refl, arith, false, true, none, some, Option, List, [], ◌∷◌,
}
use fpt2022_artifact.Netlist.Types.{Net}
use fpt2022_artifact.Common.Int.{ℤ, minus_one}
use fpt2022_artifact.Slab.{put}
use fpt2022_artifact.Netlist.Types.{Block}
use fpt2022_artifact.Netlist.Invariant.{IsWellFormed, HasBlock}
use fpt2022_artifact.Netlist.Invariant.Updates.{update-IsWellFormed}
use fpt2022_artifact.Connectivity.Components.{outside, erase_non_scc}
use fpt2022_artifact.Connectivity.Erasure.{ErasesNonScc, erase_non_scc-ErasesNonScc}
use fpt2022_artifact.Connectivity.{
  dfs, skip_unmarked, list_blocks, walk_from, walk, visit, enter_block, leave_block, push_children,
  push_child, is_skipped, is_cut, fill_order, place, walk_fuel,
}
use fpt2022_artifact.Netlist.Types.{◌>>=◌, look, valid_channel}
use fpt2022_artifact.Netlist.Blocks.{read_block, update_block}
use fpt2022_artifact.Netlist.Channels.{
  get_connected_channel, get_connected_port, get_block_from_port, get_src_port, get_dst_port,
}
use fpt2022_artifact.Netlist.Ports.{get_ports}
use fpt2022_artifact.Connectivity.Children.{IsConnected}
use fpt2022_artifact.Connectivity.Order.{Orders, dfs-Orders}
use fpt2022_artifact.Samples.{pipeline, pipeline-IsWellFormed, building}

pipeline-IsConnected : IsConnected pipeline
unfolding building
pipeline-IsConnected zero h = (0, refl)
pipeline-IsConnected (suc zero) h = (0, refl)
pipeline-IsConnected (suc (suc zero)) h = (1, refl)
pipeline-IsConnected (suc (suc (suc zero))) h = (1, refl)
pipeline-IsConnected (suc (suc (suc (suc p)))) h = absurd (ground (arith, h))

dfs-Orders_example :
    (t : Net) × (order : List ℕ) × (dfs true false pipeline ≡ some (order, t))
    × Orders pipeline false t order
dfs-Orders_example = dfs-Orders pipeline true false pipeline-IsWellFormed pipeline-IsConnected

-- The source and the fork in one component, and the sink in none: the sink and its channel go.
abbrev in_component : ℤ → Block → Block
in_component n b = record b { attrs = record b.attrs { scc_number = n } }

abbrev colored : Net
colored = record pipeline { blocks = put 2 (in_component minus_one) pipeline.blocks }

has_sink : HasBlock pipeline 2
unfolding building
has_sink = refl

colored-IsWellFormed : IsWellFormed colored
colored-IsWellFormed =
    update-IsWellFormed pipeline 2 (in_component minus_one)
      (record {
        id = λ b. refl;
        all_ports = λ b. refl;
        in_ports = λ b. refl;
        out_ports = λ b. refl;
      })
      pipeline-IsWellFormed has_sink

erase_non_scc-ErasesNonScc_example :
    (u : Net) × (erase_non_scc colored ≡ some (tt, u)) × ErasesNonScc colored u
erase_non_scc-ErasesNonScc_example = erase_non_scc-ErasesNonScc colored colored-IsWellFormed

sink_goes : outside colored colored.blocks.live ≡ (2 ∷ [])
unfolding building outside
sink_goes = refl

abbrev order_of : Option (List ℕ × Net) → List ℕ
order_of r = elim r [ none ↦ [] | some (order, t) ↦ order ]

-- The reversed search numbers the sink first.
backward-order : order_of (dfs false false pipeline) ≡ (2 ∷ 1 ∷ 0 ∷ [])
unfolding building dfs skip_unmarked list_blocks walk_from walk visit enter_block leave_block
    push_children push_child is_skipped is_cut fill_order place walk_fuel read_block update_block
    ◌>>=◌ look get_connected_channel get_connected_port get_block_from_port get_src_port
    get_dst_port get_ports valid_channel
backward-order = refl
