-- ===== src/Widths/Moves.antt =====
-- The parts of the inference of widths as moves: they pass their assertions, give a width to ports
-- that had none at a fixed netlist `a`, and answer true only if they did.
use fpt2022_artifact.Common.{ℕ, ◌≡◌, refl, sym, ap, subst, ◌∙◌, ◌⊎◌, inl, inr}
use fpt2022_artifact.Common.{Bool, true, false, ◌||◌, Option, some, List, [], ◌∷◌}
use fpt2022_artifact.Common.{if◌then◌else◌, ◌==◌, arith, Bool-cases, ==→eq}
use fpt2022_artifact.Common.{get_or-modify, length-modify}
use fpt2022_artifact.Common.Int.{ℤ, pos, is_neg}
use fpt2022_artifact.Common.Sets.{mem}
use fpt2022_artifact.Slab.{at, put}
use fpt2022_artifact.Netlist.Types.{Net, Port, port, port_zero, Op, ◌>>=◌, ret, look, valid_port}
use fpt2022_artifact.Netlist.Types.{bind-runs, look-runs}
use fpt2022_artifact.Netlist.Invariant.{HasPort}
use fpt2022_artifact.Netlist.PortAttributes.{update_port, set_port_width}
use fpt2022_artifact.Widths.{◌then_also◌, for_all, define_width}
use fpt2022_artifact.Widths.Refines.{Refines, with_width, width_of, Progress}

-- Known widths stay known.
abbrev pub Grows : Net → Net → Type 0
Grows t u = (p : ℕ) → is_neg (width_of t p) ≡ false → is_neg (width_of u p) ≡ false

pub record Moves (a t : Net) (m : Op Bool) : Type 0 where
  pub changed : Bool
  pub after : Net
  pub runs : m t ≡ some (changed, after)
  pub refines : Refines a after
  pub grows : Grows t after
  pub progress : changed ≡ true → Progress a after
  pub idle : changed ≡ false → after ≡ t

-- A move that ends in a netlist with a property.
pub record Reaches (a t : Net) (m : Op Bool) (Q : Net → Type 0) : Type 0 where
  pub moves : Moves a t m
  pub holds : Q moves.after

module _ (a t : Net) (r : Refines a t) where
  pub stays : Moves a t (ret false)
  stays = record {
    changed = false;
    after = t;
    runs = refl;
    refines = r;
    grows = λ p h. h;
    progress = λ e. absurd (ground (arith, e));
    idle = λ e. refl;
  }

  pub look-Moves :
      {A : Type 0} (f : Net → Option A) (k : A → Op Bool) (x : A)
      → f t ≡ some x
      → Moves a t (k x)
      → Moves a t (look f >>= k)
  look-Moves f k x e m = record {
    changed = m.changed;
    after = m.after;
    runs = look-runs f k t x e ∙ m.runs;
    refines = m.refines;
    grows = m.grows;
    progress = m.progress;
    idle = m.idle;
  }

  pub also-Moves :
      (m k : Op Bool)
      → Moves a t m
      → ((u : Net) → Refines a u → Moves a u k)
      → Moves a t (m then_also k)
  unfolding ◌then_also◌
  also-Moves m k x f =
      let y = f x.after x.refines in
      record {
        changed = x.changed || y.changed;
        after = y.after;
        runs =
            bind-runs m _ t x.after x.changed x.runs
            ∙ bind-runs k _ x.after y.after y.changed y.runs;
        refines = y.refines;
        grows = λ p h. y.grows p (x.grows p h);
        progress = λ e. elim (Bool-cases x.changed) [
          | inr same ↦ y.progress (ground (arith, e, same))
          | inl moved ↦
              let q = x.progress moved in
              record {
                at_port = q.at_port;
                is_live = q.is_live;
                before = q.before;
                after = y.grows q.at_port q.after;
              }
        ];
        idle = λ e. y.idle (ground (arith, e)) ∙ x.idle (ground (arith, e));
      }

  module _ (p : ℕ) (v : ℤ) (here : valid_port t (some p) ≡ true) (live : HasPort a p)
      (old : is_neg (width_of a p) ≡ true) (new : is_neg v ≡ false) where
    abbrev written : Net
    written = record t { ports = put p (with_width v) t.ports }

    written-port : (q : ℕ) → port written q ≡ (if p == q then with_width v (port t q) else port t q)
    unfolding put at valid_port
    written-port q = get_or-modify t.ports.slots p q (with_width v) port_zero ∙ ground (arith, here)

    written-Refines : Refines a written
    unfolding put
    written-Refines = record {
      frame = ap (λ (x : Net). record x { ports = written.ports }) r.frame;
      live = r.live;
      size = length-modify t.ports.slots p (with_width v) ∙ r.size;
      rest = λ q. ap (with_width (pos 0)) (written-port q) ∙ elim (Bool-cases (p == q)) [
        | inl same ↦ rw same (r.rest q)
        | inr apart ↦ rw apart (r.rest q)
      ];
      widths = λ q.
          let e = ap Port.width (written-port q) in
          elim (Bool-cases (p == q)) [
            | inl same ↦ inr (
              ap (λ x. is_neg (width_of a x)) (sym (==→eq p q same)) ∙ old,
              ap is_neg e ∙ rw same new,
            )
            | inr apart ↦
                let k = r.widths q in
                let f : width_of written q ≡ width_of t q = e ∙ rw apart refl in
                subst
                  (λ x. (x ≡ width_of a q) ⊎ ((is_neg (width_of a q) ≡ true) × (is_neg x ≡ false)))
                  (sym f) k
          ];
    }

    pub define_width-Moves : Moves a t (define_width (some p) v)
    unfolding define_width update_port
    define_width-Moves = record {
      changed = true;
      after = written;
      runs = bind-runs (set_port_width (some p) v) _ t written tt (rw (here, update_port) refl);
      refines = written-Refines;
      grows = λ q h.
          let e = ap (λ (x : Port). is_neg x.width) (written-port q) in e ∙ ground (arith, h, new);
      progress = λ e. record {
        at_port = p;
        is_live = live;
        before = old;
        after = ap (λ (x : Port). is_neg x.width) (written-port p) ∙ ground (arith, new);
      };
      idle = λ e. absurd (ground (arith, e));
    }

    pub define_width-Reaches :
        Reaches a t (define_width (some p) v) (λ u. is_neg (width_of u p) ≡ false)
    unfolding define_width-Moves
    define_width-Reaches = record {
      moves = define_width-Moves;
      holds = ap (λ (x : Port). is_neg x.width) (written-port p) ∙ ground (arith, new);
    }

pub for_all-Moves :
    (a t : Net) (f : ℕ → Op Bool) (xs : List ℕ)
    → Refines a t
    → ((x : ℕ) → mem x xs ≡ true → (u : Net) → Refines a u → Moves a u (f x))
    → Moves a t (for_all f xs)
unfolding for_all mem
for_all-Moves a t f [] r h = stays a t r
for_all-Moves a t f (x ∷ xs) r h =
    also-Moves a t r (f x) (for_all f xs) (h x (ground arith) t r)
      (λ u q. for_all-Moves a u f xs q (λ y m. h y (ground (arith, m))))

module _ (a t : Net) (r : Refines a t) (Q : Net → Type 0) where
  pub stays-Reaches : Q t → Reaches a t (ret false) Q
  unfolding stays
  stays-Reaches h = record { moves = stays a t r; holds = h }

  pub look-Reaches :
      {A : Type 0} (f : Net → Option A) (k : A → Op Bool) (x : A)
      → f t ≡ some x
      → Reaches a t (k x) Q
      → Reaches a t (look f >>= k) Q
  unfolding look-Moves
  look-Reaches f k x e m = record { moves = look-Moves a t r f k x e m.moves; holds = m.holds }

-- What each round of a loop reaches holds after the loop, if it stays when more widths are known.
pub for_all-Reaches :
    (a t : Net) (f : ℕ → Op Bool) (xs : List ℕ) (Q : ℕ → Net → Type 0)
    → ((x : ℕ) (u v : Net) → Grows u v → Q x u → Q x v)
    → Refines a t
    → ((x : ℕ) → mem x xs ≡ true → (u : Net) → Refines a u → Reaches a u (f x) (Q x))
    → Reaches a t (for_all f xs) (λ u. (x : ℕ) → mem x xs ≡ true → Q x u)
unfolding for_all mem also-Moves
for_all-Reaches a t f [] Q stay r h = record {
  moves = stays a t r;
  holds = λ x m. absurd (ground (arith, m));
}
for_all-Reaches a t f (x ∷ xs) Q stay r h =
    let one = h x (ground arith) t r in
    let later : (u : Net)
        → Refines a u
        → Reaches a u (for_all f xs) (λ v. (y : ℕ) → mem y xs ≡ true → Q y v) =
      λ u q. for_all-Reaches a u f xs Q stay q (λ y m. h y (ground (arith, m))) in
    let rest = later one.moves.after one.moves.refines in
    record {
      moves = also-Moves a t r (f x) (for_all f xs) one.moves (λ u q. (later u q).moves);
      holds = λ y m. elim (Bool-cases (x == y)) [
        | inl same ↦
            subst (λ z. Q z rest.moves.after) (==→eq x y same)
              (stay x one.moves.after rest.moves.after rest.moves.grows one.holds)
        | inr apart ↦ rest.holds y (ground (arith, m, apart))
      ];
    }
