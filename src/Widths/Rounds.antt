-- ===== src/Widths/Rounds.antt =====
-- The rounds of the inference of widths end, at a netlist that no further round changes.
use fpt2022_artifact.Common.{ℕ, zero, suc, ◌<◌, ◌≡◌, refl, sym, ap, ◌∙◌, inl, inr, arith}
use fpt2022_artifact.Common.{true, false, Option, some, Bool-cases}
use fpt2022_artifact.Common.Sets.{mem}
use fpt2022_artifact.Netlist.Types.{Net}
use fpt2022_artifact.Widths.{infer_round, infer_rounds, for_all, visit_block, visit_channel}
use fpt2022_artifact.Widths.Refines.{Refines, Refines-refl, Refines-trans, unknowns, unknowns-lt}
use fpt2022_artifact.Widths.Reads.{IsReadable}
use fpt2022_artifact.Widths.Moves.{Moves, also-Moves, for_all-Moves}
use fpt2022_artifact.Widths.Visits.{visit_block-Moves, visit_channel-Moves}

-- What the rounds answer: a netlist with more widths, which one more round leaves as it is.
pub record Settles (s : Net) (r : Option (Unit {0} × Net)) : Type 0 where
  pub after : Net
  pub returns : r ≡ some (tt, after)
  pub refines : Refines s after
  pub settled : infer_round after ≡ some (false, after)

module _ (s : Net) (w : IsReadable s) where
  infer_round-Moves : (a : Net) → Refines s a → Moves a a infer_round
  unfolding infer_round
  infer_round-Moves a r =
      let m =
        also-Moves a a (Refines-refl a) (for_all visit_block a.blocks.live)
          (for_all visit_channel a.channels.live)
          (for_all-Moves a a visit_block a.blocks.live (Refines-refl a) (λ b h u q.
            visit_block-Moves s a w r u b q
              (ap (λ (x : Net). mem b x.blocks.live) (sym r.frame) ∙ h)))
          (λ u q. for_all-Moves a u visit_channel a.channels.live q (λ c h v k.
            visit_channel-Moves s a w r v c k
              (ap (λ (x : Net). mem c x.channels.live) (sym r.frame) ∙ h))) in
      record {
        changed = m.changed;
        after = m.after;
        runs = m.runs;
        refines = m.refines;
        grows = m.grows;
        progress = m.progress;
        idle = m.idle;
      }

  -- A round that changes something defines the width of a port, so as many rounds as there are
  -- ports without a width, and one more, are enough.
  pub infer_rounds-Settles :
      (fuel : ℕ) (a : Net)
      → Refines s a
      → unknowns a.ports.live a < fuel
      → Settles a (infer_rounds fuel a)
  unfolding infer_rounds
  infer_rounds-Settles zero a r lt = absurd (omega arith)
  infer_rounds-Settles (suc fuel) a r lt =
      let m = infer_round-Moves a r in
      elim (Bool-cases m.changed) [
        | inr same ↦
            let run : infer_round a ≡ some (false, a) =
              m.runs ∙ ap (λ c. some (c, m.after)) same ∙ ap (λ x. some (false, x)) (m.idle same) in
            record {
              after = a;
              returns = rw (run, infer_rounds) refl;
              refines = Refines-refl a;
              settled = run;
            }
        | inl moved ↦
            let p = m.progress moved in
            let fewer =
              unknowns-lt a.ports.live a m.after p.at_port m.refines p.is_live p.before p.after in
            let less : unknowns m.after.ports.live m.after < fuel =
              rw m.refines.live (omega (arith, fewer, lt)) in
            let k = infer_rounds-Settles fuel m.after (Refines-trans r m.refines) less in
            let run : infer_round a ≡ some (true, m.after) =
              m.runs ∙ ap (λ c. some (c, m.after)) moved in
            record {
              after = k.after;
              returns = rw (run, infer_rounds) k.returns;
              refines = Refines-trans m.refines k.refines;
              settled = k.settled;
            }
      ]
