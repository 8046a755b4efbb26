-- ===== src/Widths/Balance.antt =====
-- When the rounds have ended, no channel joins a port with a width and a port without.
use fpt2022_artifact.Common.{
  ℕ, suc, length, ◌<◌, ◌≡◌, refl, sym, ap, subst, ◌∙◌, inl, inr, arith, Bool-cases,
}
use fpt2022_artifact.Common.{Bool, true, false, ◌||◌, Option, none, some, List, [], ◌∷◌}
use fpt2022_artifact.Common.{if◌then◌else◌, ◌==◌, ==→eq}
use fpt2022_artifact.Common.Int.{ℤ, is_neg, eqb_ℤ, minus_one, eqb_ℤ_iff}
use fpt2022_artifact.Common.Sets.{mem}
use mathlib.Core.Option.{some-injective}
use fpt2022_artifact.Netlist.Types.{Net, Op, channel, ret, bind-runs, look-runs, bind-fails}
use fpt2022_artifact.Netlist.Types.{◌>>=◌, look, valid_port}
use fpt2022_artifact.Slab.{put}
use fpt2022_artifact.Netlist.Invariant.{HasChannel, IsWellFormed, HasBlock}
use fpt2022_artifact.Netlist.Types.{block}
use fpt2022_artifact.Netlist.Channels.{get_src_port, get_dst_port}
use fpt2022_artifact.Netlist.PortAttributes.{get_port_width, update_port, set_port_width}
use fpt2022_artifact.Widths.{
  infer_round, infer_rounds, for_all, visit_block, visit_channel, ◌then_also◌, define_width,
  is_minus_one,
}
use fpt2022_artifact.Widths.Refines.{
  Refines, Refines-refl, with_width, width_of, unknowns, unknowns-le-length,
}
use fpt2022_artifact.Widths.Reads.{
  IsReadable, Shape, get_port_width-reads, get_src_port-reads, get_dst_port-reads, proper-same,
  channel-same,
}
use fpt2022_artifact.Widths.Moves.{Moves, for_all-Moves}
use fpt2022_artifact.Widths.Visits.{visit_block-Moves, visit_channel-Moves}
use fpt2022_artifact.Widths.Rounds.{infer_rounds-Settles}
use fpt2022_artifact.Widths.Inference.{IsWellFormed-IsReadable}

-- Parts that change nothing together change nothing each.
idle-parts :
    (a t : Net) (m k : Op Bool) (u : Net)
    → Moves a t m
    → ((u : Net) → Refines a u → Moves a u k)
    → (m then_also k) t ≡ some (false, u)
    → (m t ≡ some (false, t)) × (k t ≡ some (false, t))
unfolding ◌then_also◌
idle-parts a t m k u x f e =
    let y = f x.after x.refines in
    let run : some (x.changed || y.changed, y.after) ≡ some (false, u) =
      sym
        (bind-runs m _ t x.after x.changed x.runs ∙ bind-runs k _ x.after y.after y.changed y.runs)
      ∙ e in
    let no = ap (λ (z : Bool × Net). z.0) (some-injective _ _ run) in
    let c : x.changed ≡ false = ground (arith, no) in
    let d : y.changed ≡ false = ground (arith, no) in
    let here = x.idle c in
    (
      x.runs ∙ ap (λ b. some (b, x.after)) c ∙ ap (λ n. some (false, n)) here,
      ap k (sym here)
          ∙ y.runs
          ∙ ap (λ b. some (b, y.after)) d
          ∙ ap (λ n. some (false, n)) (y.idle d ∙ here),
    )

idle-each :
    (a t : Net) (f : ℕ → Op Bool) (xs : List ℕ) (u : Net)
    → Refines a t
    → ((x : ℕ) → mem x xs ≡ true → (v : Net) → Refines a v → Moves a v (f x))
    → for_all f xs t ≡ some (false, u)
    → (x : ℕ) → mem x xs ≡ true
    → f x t ≡ some (false, t)
unfolding for_all mem
idle-each a t f [] u r h e x m = absurd (ground (arith, m))
idle-each a t f (y ∷ xs) u r h e x m =
    let parts =
      idle-parts a t (f y) (for_all f xs) u (h y (ground arith) t r)
        (λ v q. for_all-Moves a v f xs q (λ z k. h z (ground (arith, k)))) e in
    elim (Bool-cases (y == x)) [
      | inl same ↦ ap (λ z. f z t) (sym (==→eq y x same)) ∙ parts.0
      | inr apart ↦
          idle-each a t f xs t r (λ z k. h z (ground (arith, k))) parts.1 x
            (ground (arith, m, apart))
    ]

-- The widths of the two ends of a channel are both known or both unknown.
abbrev pub IsBalanced : Net → ℕ → Type 0
IsBalanced t c = is_neg (width_of t (channel t c).src) ≡ is_neg (width_of t (channel t c).dst)

define_width-changes : (p : Option ℕ) (v : ℤ) (t u : Net) → ¬ (define_width p v t ≡ some (false, u))
unfolding define_width update_port
define_width-changes none v t u e =
    let stop = bind-fails (set_port_width none v) (λ _. ret true) t refl in cc (stop, e)
define_width-changes (some p) v t u e = elim (Bool-cases (valid_port t (some p))) [
  | inl ok ↦
      let next : Net = record t { ports = put p (with_width v) t.ports } in
      let run =
        bind-runs (set_port_width (some p) v) (λ _. ret true) t next tt
          (rw (ok, update_port) refl) in
      cc (run, e)
  | inr bad ↦
      let stop =
        bind-fails (set_port_width (some p) v) (λ _. ret true) t (rw (bad, update_port) refl) in
      cc (stop, e)
]

-- What the visit of a channel does, after its reads.
abbrev between : ℕ → ℕ → ℤ → ℤ → Op Bool
between x y v u =
    if eqb_ℤ v u
    then ret false
    else if is_minus_one v
    then define_width (some x) u
    else if is_minus_one u
    then define_width (some y) v
    else ret false

between-idle :
    (x y : ℕ) (v u : ℤ) (t : Net)
    → is_neg v ≡ is_minus_one v
    → is_neg u ≡ is_minus_one u
    → between x y v u t ≡ some (false, t)
    → is_neg v ≡ is_neg u
between-idle x y v u t pv pu e = elim (Bool-cases (eqb_ℤ v u)) [
  | inl same ↦ ap is_neg ((eqb_ℤ_iff v u).0 same)
  | inr apart ↦ elim (Bool-cases (is_minus_one v)) [
    | inl nv ↦ absurd (define_width-changes (some x) u t t (rw (apart, nv) at e))
    | inr kv ↦ elim (Bool-cases (is_minus_one u)) [
      | inl nu ↦ absurd (define_width-changes (some y) v t t (rw (apart, kv, nu) at e))
      | inr ku ↦ pv ∙ kv ∙ sym (pu ∙ ku)
    ]
  ]
]

abbrev after_width : ℕ → ℕ → ℤ → Op Bool
after_width x y v = look (get_port_width (some y)) >>= between x y v

abbrev after_dst : ℕ → ℕ → Op Bool
after_dst x y = look (get_port_width (some x)) >>= after_width x y

abbrev after_src : ℕ → ℕ → Op Bool
after_src c x = look (get_dst_port (some c)) >>= after_dst x

visit_channel-idle :
    (s t : Net) (w : IsReadable s) (r : Refines s t) (c : ℕ)
    → HasChannel s c
    → visit_channel c t ≡ some (false, t)
    → is_neg (width_of t (channel s c).src) ≡ is_neg (width_of t (channel s c).dst)
unfolding visit_channel
visit_channel-idle s t w r c h e =
    let x = (channel s c).src in
    let y = (channel s c).dst in
    let run : visit_channel c t ≡ between x y (width_of t x) (width_of t y) t =
      look-runs (get_src_port (some c)) (after_src c) t x (get_src_port-reads s t w r c h)
      ∙ look-runs (get_dst_port (some c)) (after_dst x) t y (get_dst_port-reads s t w r c h)
      ∙ look-runs (get_port_width (some x)) (after_width x y) t (width_of t x)
          (get_port_width-reads s t w r x (w.sources c h))
      ∙ look-runs (get_port_width (some y)) (between x y (width_of t x)) t (width_of t y)
          (get_port_width-reads s t w r y (w.targets c h)) in
    between-idle x y (width_of t x) (width_of t y) t (proper-same s t w r x) (proper-same s t w r y)
      (sym run ∙ e)

-- In a well-formed netlist in which no width is below -1, each block has the ports that its type must
-- have, and no block is a demux, a distributor, a selector or of an unknown type, the `do` loop of
-- `inferChannelWidth` ends; it only gives widths to ports without one, and then no channel joins a
-- port with a width and a port without.
pub infer_rounds-IsBalanced :
    (s : Net)
    → IsWellFormed s
    → ((p : ℕ) → is_neg (width_of s p) ≡ eqb_ℤ (width_of s p) minus_one)
    → ((b : ℕ) → HasBlock s b → Shape s b (block s b).type)
    → (t : Net) × (infer_rounds (suc (length s.ports.live)) s ≡ some (tt, t))
      × Refines s t
      × ((c : ℕ) → HasChannel s c → IsBalanced t c)
unfolding infer_round
infer_rounds-IsBalanced s formed proper shapes =
    let w = IsWellFormed-IsReadable s formed proper shapes in
    let bound : unknowns s.ports.live s < suc (length s.ports.live) =
      let le = unknowns-le-length s.ports.live s in omega (arith, le) in
    let k = infer_rounds-Settles s w (suc (length s.ports.live)) s (Refines-refl s) bound in
    let t = k.after in
    let parts =
      idle-parts t t (for_all visit_block t.blocks.live) (for_all visit_channel t.channels.live) t
        (for_all-Moves t t visit_block t.blocks.live (Refines-refl t) (λ b h u q.
          visit_block-Moves s t w k.refines u b q
            (ap (λ (x : Net). mem b x.blocks.live) (sym k.refines.frame) ∙ h)))
        (λ u q. for_all-Moves t u visit_channel t.channels.live q (λ c h v z.
          visit_channel-Moves s t w k.refines v c z
            (ap (λ (x : Net). mem c x.channels.live) (sym k.refines.frame) ∙ h)))
        k.settled in
    (
      t,
      k.returns,
      k.refines,
      λ c h.
          let idle =
            idle-each t t visit_channel t.channels.live t (Refines-refl t)
              (λ d m v z.
                visit_channel-Moves s t w k.refines v d z
                  (ap (λ (x : Net). mem d x.channels.live) (sym k.refines.frame) ∙ m))
              parts.1 c (ap (λ (x : Net). mem c x.channels.live) k.refines.frame ∙ h) in
          subst (λ d. is_neg (width_of t d.src) ≡ is_neg (width_of t d.dst))
            (sym (channel-same s t w k.refines c)) (visit_channel-idle s t w k.refines c h idle),
    )
