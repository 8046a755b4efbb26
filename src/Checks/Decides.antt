-- ===== src/Checks/Decides.antt =====
-- Checks that decide a property of a netlist: they return, they pass exactly when the property
-- holds, and they change nothing but the error message.
use fpt2022_artifact.Common.{ℕ, ◌≡◌, refl, sym, ap, ◌∙◌, inl, inr, arith, Bool-cases}
use fpt2022_artifact.Common.{Bool, true, false, Option, some, ◌++◌}
use fpt2022_artifact.Common.Text.{Str, codes}
use fpt2022_artifact.Netlist.Types.{Net, Block, Port, Op, ◌>>=◌, ret, look, bind-runs, look-runs}
use fpt2022_artifact.Netlist.Types.{block, port, set_error}
use fpt2022_artifact.Netlist.Invariant.{IsWellFormed, HasBlock, HasPort}
use fpt2022_artifact.Netlist.Invariant.Frame.{HasPort-valid}
use fpt2022_artifact.Netlist.Blocks.{read_block}
use fpt2022_artifact.Netlist.PortAttributes.{read_port}
use fpt2022_artifact.Netlist.Attributes.{get_block_name}
use fpt2022_artifact.Checks.{fail, fail_block, ◌and_also◌, require}

pub record Decides (P : Type 0) (s : Net) (m : Op Bool) : Type 0 where
  pub passed : Bool
  pub after : Net
  pub runs : m s ≡ some (passed, after)
  pub sound : passed ≡ true → P
  pub complete : P → passed ≡ true
  pub quiet : passed ≡ true → after ≡ s
  pub told : passed ≡ false → (err : Str) × (after ≡ set_error err s)

-- A call that ends the check with an error message.
pub record Fails (s : Net) (m : Op Bool) : Type 0 where
  pub message : Str
  pub runs : m s ≡ some (false, set_error message s)

pub fail-Fails : (s : Net) (err : Str) → Fails s (fail err)
unfolding fail
fail-Fails s err = record { message = err; runs = refl }

pub look-Fails :
    {A : Type 0} (s : Net) (f : Net → Option A) (k : A → Op Bool) (x : A)
    → f s ≡ some x
    → Fails s (k x)
    → Fails s (look f >>= k)
look-Fails s f k x e m = record { message = m.message; runs = look-runs f k s x e ∙ m.runs }

pub require-Decides :
    (P : Type 0) (s : Net) (test : Bool) (otherwise : Op Bool)
    → (test ≡ true → P)
    → (P → test ≡ true)
    → Fails s otherwise
    → Decides P s (require test otherwise)
unfolding require
require-Decides P s true otherwise yes_if only_if f = record {
  passed = true;
  after = s;
  runs = refl;
  sound = yes_if;
  complete = only_if;
  quiet = λ e. refl;
  told = λ e. absurd (ground (arith, e));
}
require-Decides P s false otherwise yes_if only_if f = record {
  passed = false;
  after = set_error f.message s;
  runs = f.runs;
  sound = yes_if;
  complete = only_if;
  quiet = λ e. absurd (ground (arith, e));
  told = λ e. (f.message, refl);
}

pub pass-Decides : (P : Type 0) (s : Net) → P → Decides P s (ret true)
pass-Decides P s p = record {
  passed = true;
  after = s;
  runs = refl;
  sound = λ e. p;
  complete = λ q. refl;
  quiet = λ e. refl;
  told = λ e. absurd (ground (arith, e));
}

pub look-Decides :
    {A : Type 0} (P : Type 0) (s : Net) (f : Net → Option A) (k : A → Op Bool) (x : A)
    → f s ≡ some x
    → Decides P s (k x)
    → Decides P s (look f >>= k)
look-Decides P s f k x e m = record {
  passed = m.passed;
  after = m.after;
  runs = look-runs f k s x e ∙ m.runs;
  sound = m.sound;
  complete = m.complete;
  quiet = m.quiet;
  told = m.told;
}

-- The second check is made only if the first one passes, and then on the same netlist.
pub and_also-Decides :
    (P Q : Type 0) (s : Net) (m k : Op Bool)
    → Decides P s m
    → (P → Decides Q s k)
    → Decides (P × Q) s (m and_also k)
unfolding ◌and_also◌
and_also-Decides P Q s m k d f = elim (Bool-cases d.passed) [
  | inr no_pass ↦
      let (err, e) = d.told no_pass in
      record {
        passed = false;
        after = d.after;
        runs = bind-runs m _ s d.after d.passed d.runs ∙ rw no_pass refl;
        sound = λ h. absurd (ground (arith, h));
        complete = λ pq. sym no_pass ∙ d.complete pq.0;
        quiet = λ h. absurd (ground (arith, h));
        told = λ h. (err, e);
      }
  | inl pass ↦
      let p = d.sound pass in
      let r = f p in
      record {
        passed = r.passed;
        after = r.after;
        runs =
            bind-runs m _ s d.after d.passed d.runs ∙ rw pass refl ∙ ap k (d.quiet pass) ∙ r.runs;
        sound = λ h. (p, r.sound h);
        complete = λ pq. r.complete pq.1;
        quiet = r.quiet;
        told = r.told;
      }
]

-- The same check decides an equivalent property.
pub iff-Decides :
    (P Q : Type 0) (s : Net) (m : Op Bool) → (P → Q) → (Q → P) → Decides P s m → Decides Q s m
iff-Decides P Q s m to from d = record {
  passed = d.passed;
  after = d.after;
  runs = d.runs;
  sound = λ h. to (d.sound h);
  complete = λ q. d.complete (from q);
  quiet = d.quiet;
  told = d.told;
}

-- The reads that the checks make, in a well-formed netlist.
module _ (s : Net) (w : IsWellFormed s) where
  pub read_block-reads :
      {A : Type 0} (f : Block → A) (b : ℕ)
      → HasBlock s b
      → read_block f (some b) s ≡ some (f (block s b))
  unfolding read_block
  read_block-reads f b h = rw (w.ownership.block_ids b ∙ h, read_block) refl

  pub read_port-reads :
      {A : Type 0} (f : Port → A) (p : ℕ)
      → HasPort s p
      → read_port f (some p) s ≡ some (f (port s p))
  unfolding read_port
  read_port-reads f p h = rw (HasPort-valid s p w h, read_port) refl

  pub fail_block-Fails : (b : ℕ) (text : Str) → HasBlock s b → Fails s (fail_block b text)
  unfolding fail_block
  fail_block-Fails b text h =
      look-Fails s (get_block_name (some b)) _ (block s b).name (read_block-reads Block.name b h)
        (fail-Fails s (codes "Block " ++ (block s b).name ++ text))
