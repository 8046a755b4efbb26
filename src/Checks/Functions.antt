-- ===== src/Checks/Functions.antt =====
-- What the check of operators and other functions decides (`checkFunc` in
-- Buffers/src/DFnetlist_check.cpp).
use fpt2022_artifact.Common.{ℕ, ◌≡◌, ◌≤◌, ◌⊎◌, refl, inl, inr, arith}
use fpt2022_artifact.Common.{some, Bool, true, false, not, ◌&&◌, ◌==◌, length, if◌then◌else◌}
use fpt2022_artifact.Common.Text.{codes, str_eq, str_eq→eq, str_eq_refl}
use fpt2022_artifact.Netlist.Types.{Net, Block, BlockType, block, Op, ret}
use fpt2022_artifact.Netlist.Types.{operator}
use fpt2022_artifact.Netlist.Invariant.{IsWellFormed, HasBlock}
use fpt2022_artifact.Netlist.Attributes.{get_block_type, get_operation}
use fpt2022_artifact.Netlist.PortAttributes.{num_in_ports}
use fpt2022_artifact.Checks.{check_func, is_operator}
use fpt2022_artifact.Checks.Decides.{
  Decides, require-Decides, pass-Decides, look-Decides, and_also-Decides, iff-Decides,
  read_block-reads, fail_block-Fails,
}
use fpt2022_artifact.Checks.Blocks.{AllGeneric, check_generic_ports-Decides}

-- An operator that selects one of its inputs.
pub record IsSelector (b : Block) : Type 0 where
  pub is_op : b.type ≡ operator
  pub named : b.attrs.operation ≡ codes "select_op"

is_operator→eq : (t : BlockType) → is_operator t ≡ true → t ≡ operator
is_operator→eq t h = ground (arith, h)

selects : Block → Bool
selects b = is_operator b.type && str_eq b.attrs.operation (codes "select_op")

selects→IsSelector : (b : Block) → selects b ≡ true → IsSelector b
unfolding selects
selects→IsSelector b h = record {
  is_op = is_operator→eq b.type (ground (arith, h));
  named = str_eq→eq b.attrs.operation (codes "select_op") (ground (arith, h));
}

IsSelector→selects : (b : Block) → IsSelector b → selects b ≡ true
unfolding selects
IsSelector→selects b k = rw (k.is_op, k.named) (str_eq_refl (codes "select_op"))

-- The alternative of the check.
either-Decides :
    (P Q : Type 0) (s : Net) (test : Bool) (m : Op Bool)
    → (test ≡ true → P)
    → (P → test ≡ true)
    → Decides Q s m
    → Decides (P ⊎ Q) s (if test then ret true else m)
either-Decides P Q s true m yes_if only_if d = pass-Decides (P ⊎ Q) s (inl (yes_if refl))
either-Decides P Q s false m yes_if only_if d =
    iff-Decides Q (P ⊎ Q) s m inr
      (λ k. elim k [ inl p ↦ absurd (ground (arith, only_if p)) | inr q ↦ q ]) d

-- `checkFunc` on a block of a well-formed netlist returns; it passes exactly when the block has an
-- input port, and either is an operator with the name select_op or has generic ports only. It
-- changes nothing when it passes, and only the error message when it fails.
pub check_func-Decides :
    (s : Net) (b : ℕ)
    → IsWellFormed s
    → HasBlock s b
    → Decides
        ((1 ≤ length (block s b).in_ports)
          × (IsSelector (block s b) ⊎ AllGeneric s (block s b).all_ports))
        s
        (check_func b)
unfolding check_func selects
check_func-Decides s b w h =
    let n = length (block s b).in_ports in
    look-Decides _ s (num_in_ports (some b)) _ n (read_block-reads s w (λ x. length x.in_ports) b h)
      (and_also-Decides (1 ≤ n) _ s _ _
        (require-Decides (1 ≤ n) s (not (n == 0)) _ (λ e. ground (arith, e))
          (λ e. ground (arith, e)) (fail_block-Fails s w b (codes " has no input ports.") h))
        (λ some_in.
          look-Decides _ s (get_block_type (some b)) _ (block s b).type
            (read_block-reads s w Block.type b h)
            (look-Decides _ s (get_operation (some b)) _ (block s b).attrs.operation
              (read_block-reads s w (λ x. x.attrs.operation) b h)
              (either-Decides (IsSelector (block s b)) (AllGeneric s (block s b).all_ports) s _ _
                (selects→IsSelector (block s b)) (IsSelector→selects (block s b))
                (check_generic_ports-Decides s w b h)))))
