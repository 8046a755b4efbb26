-- ===== src/Checks/Tests.antt =====
-- Runs on the sample netlist.
use fpt2022_artifact.Common.{◌-◌, ◌^◌, ◌≡◌, refl, arith, true, some, length}
use fpt2022_artifact.Common.Int.{pos, is_positive}
use fpt2022_artifact.Netlist.Types.{Net, block}
use fpt2022_artifact.Netlist.Invariant.{HasBlock}
use fpt2022_artifact.Checks.{check_elastic_buffer, check_fork, check_merge, extend_sign, sign_bits}
use fpt2022_artifact.Checks.Decides.{Decides}
use fpt2022_artifact.Checks.Blocks.{
  AllGeneric, SameWidth, EqualWidths, check_elastic_buffer-Decides, check_fork_merge-Decides,
}
use fpt2022_artifact.Checks.Constants.{
  signed_pattern, extend_sign-signed_pattern, extend_sign-signed_pattern_again,
}
use fpt2022_artifact.Common.{◌≤◌, ◌⊎◌}
use fpt2022_artifact.Checks.{check_func}
use fpt2022_artifact.Checks.Functions.{IsSelector, check_func-Decides}
use fpt2022_artifact.Checks.Driver.{calculate_back_edges}
use fpt2022_artifact.Checks.BackEdges.{MarksBackward, calculate_back_edges-MarksBackward}
use fpt2022_artifact.Samples.{pipeline, pipeline-IsWellFormed, building}

has_fork : HasBlock pipeline 1
unfolding building
has_fork = refl

check_elastic_buffer-Decides_example :
    Decides
      (AllGeneric pipeline (block pipeline 1).all_ports
        × ((length (block pipeline 1).in_ports ≡ 1) × (length (block pipeline 1).out_ports ≡ 1))
        × (EqualWidths pipeline (block pipeline 1).in_ports (block pipeline 1).out_ports
            × (is_positive (block pipeline 1).attrs.slots ≡ true)))
      pipeline
      (check_elastic_buffer 1)
check_elastic_buffer-Decides_example =
    check_elastic_buffer-Decides pipeline pipeline-IsWellFormed 1 has_fork

check_fork_merge-Decides_example :
    Decides
      (AllGeneric pipeline (block pipeline 1).all_ports
        × (length (block pipeline 1).in_ports ≡ 1)
        × SameWidth pipeline (block pipeline 1).all_ports)
      pipeline
      (check_fork 1)
    × Decides
        (AllGeneric pipeline (block pipeline 1).all_ports
          × (length (block pipeline 1).out_ports ≡ 1)
          × SameWidth pipeline (block pipeline 1).all_ports)
        pipeline
        (check_merge 1)
check_fork_merge-Decides_example =
    check_fork_merge-Decides pipeline pipeline-IsWellFormed 1 has_fork

-- -56 in eight bits, once and twice.
extend_once : extend_sign (pos 8) 200 ≡ some 0xffffffffffffffc8
unfolding extend_sign sign_bits
extend_once = refl

extend_again : extend_sign (pos 8) 0xffffffffffffffc8 ≡ some 0xfffffffffffffec8
unfolding extend_sign sign_bits
extend_again = refl

extend_sign-signed_pattern_example : extend_sign (pos 8) 200 ≡ some (signed_pattern 8 200)
extend_sign-signed_pattern_example =
    extend_sign-signed_pattern 8 200 (omega arith) (omega arith) (omega arith)

extend_sign-signed_pattern_again_example :
    extend_sign (pos 8) (signed_pattern 8 200) ≡ some (signed_pattern 8 200 - 2 ^ 8)
extend_sign-signed_pattern_again_example =
    extend_sign-signed_pattern_again 8 200 (omega arith) (omega arith) (omega arith) (omega arith)

calculate_back_edges-MarksBackward_example :
    (t : Net) × (calculate_back_edges pipeline ≡ some (tt, t)) × MarksBackward pipeline t
calculate_back_edges-MarksBackward_example =
    calculate_back_edges-MarksBackward pipeline pipeline-IsWellFormed

check_func-Decides_example :
    Decides
      ((1 ≤ length (block pipeline 1).in_ports)
        × (IsSelector (block pipeline 1) ⊎ AllGeneric pipeline (block pipeline 1).all_ports))
      pipeline
      (check_func 1)
check_func-Decides_example = check_func-Decides pipeline 1 pipeline-IsWellFormed has_fork
