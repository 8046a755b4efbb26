-- ===== src/Widths/Tests.antt =====
-- Runs on the sample netlist.
use fpt2022_artifact.Common.{ℕ, zero, suc, ◌≡◌, refl, some, length}
use fpt2022_artifact.Common.Int.{pos, is_neg, eqb_ℤ, minus_one}
use fpt2022_artifact.Netlist.Types.{Net, block}
use fpt2022_artifact.Netlist.Invariant.{HasBlock, HasChannel}
use fpt2022_artifact.Widths.{infer_channel_width, infer_rounds}
use fpt2022_artifact.Widths.Refines.{Refines, width_of}
use fpt2022_artifact.Widths.Reads.{Shape}
use fpt2022_artifact.Widths.Inference.{Infers, infer_channel_width-Infers}
use fpt2022_artifact.Widths.Balance.{IsBalanced, infer_rounds-IsBalanced}
use fpt2022_artifact.Samples.{pipeline, pipeline-IsWellFormed, building}

pipeline-proper : (p : ℕ) → is_neg (width_of pipeline p) ≡ eqb_ℤ (width_of pipeline p) minus_one
unfolding building
pipeline-proper zero = refl
pipeline-proper (suc zero) = refl
pipeline-proper (suc (suc zero)) = refl
pipeline-proper (suc (suc (suc zero))) = refl
pipeline-proper (suc (suc (suc (suc p)))) = refl

pipeline-Shape : (b : ℕ) → HasBlock pipeline b → Shape pipeline b (block pipeline b).type
unfolding building
pipeline-Shape zero h = tt
pipeline-Shape (suc zero) h = (refl, refl)
pipeline-Shape (suc (suc zero)) h = tt
pipeline-Shape (suc (suc (suc b))) h = cc

infer_channel_width-Infers_example :
    Infers pipeline (infer_channel_width (some 1) (pos 32) pipeline)
infer_channel_width-Infers_example =
    infer_channel_width-Infers pipeline (some 1) (pos 32) pipeline-IsWellFormed pipeline-proper
      pipeline-Shape refl

infer_rounds-IsBalanced_example :
    (t : Net) × (infer_rounds (suc (length pipeline.ports.live)) pipeline ≡ some (tt, t))
    × Refines pipeline t
    × ((c : ℕ) → HasChannel pipeline c → IsBalanced t c)
infer_rounds-IsBalanced_example =
    infer_rounds-IsBalanced pipeline pipeline-IsWellFormed pipeline-proper pipeline-Shape
