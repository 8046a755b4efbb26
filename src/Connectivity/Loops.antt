-- ===== src/Connectivity/Loops.antt =====
-- The loops of `DFS` end, and every block that is listed is visited
-- (Buffers/src/DFnetlist_Connectivity.cpp).
use fpt2022_artifact.Common.{
  ℕ, zero, suc, ◌≤◌, ◌≡◌, refl, ap, ◌∙◌, arith, Bool-cases, ==→eq, inl, inr, subst,
}
use fpt2022_artifact.Common.{Bool, true, Option, none, some, List, [], ◌∷◌, length}
use fpt2022_artifact.Common.{◌==◌, if◌then◌else◌}
use fpt2022_artifact.Common.Int.{ℤ}
use fpt2022_artifact.Common.Sets.{mem, IsOrdered}
use fpt2022_artifact.Netlist.Types.{Net, bind-runs, ◌>>=◌, ret}
use fpt2022_artifact.Netlist.Invariant.{HasBlock}
use fpt2022_artifact.Connectivity.{Walk, enter_block, walk, walk_from, walk_fuel}
use fpt2022_artifact.Connectivity.Children.{IsConnected}
use fpt2022_artifact.Connectivity.Rounds.{weigh, Searches, room, rounds_left, IsLayered}
use fpt2022_artifact.Connectivity.Steps.{Continues, visit-Ends, enter_block-Ends}

module _ (s : Net) (joined : IsConnected s) (sorted : IsOrdered s.blocks.live)
    (skip : ℕ → Bool) where
  -- The `while` ends when the rounds that are left fit in the fuel.
  walk-parts :
      (forward only : Bool) (fuel : ℕ) (t : Net) (vis : ℕ → Bool) (st : List ℕ)
      (ps : List (Option ℕ)) (n : ℤ) (done : List ℕ)
      → Searches s skip t (record { visited = vis; stack = st; pending = ps; clock = n }) done
      → rounds_left forward s (record { visited = vis; stack = st; pending = ps; clock = n }) ≤ fuel
      → (c : Continues s skip
          (record { visited = vis; stack = st; pending = ps; clock = n })
          (walk forward only fuel
            (record { visited = vis; stack = st; pending = ps; clock = n })
            t))
        × (c.reached.stack ≡ [])
  unfolding walk
  walk-parts forward only zero t vis [] ps n done i le =
      (record { net = t; reached = _; done = done; runs = refl; state = i; grows = λ c k. k }, refl)
  walk-parts forward only (suc fuel) t vis [] ps n done i le =
      (record { net = t; reached = _; done = done; runs = refl; state = i; grows = λ c k. k }, refl)
  walk-parts forward only zero t vis (v ∷ vs) [] n done i le = absurd i.layers
  walk-parts forward only zero t vis (v ∷ vs) (p ∷ ps) n done i le = absurd (omega (arith, le))
  walk-parts forward only (suc fuel) t vis (v ∷ vs) ps n done i le =
      let (c, few) = visit-Ends s joined sorted skip forward only t vis v vs ps n done fuel i le in
      let y = c.reached in
      let (d, e) =
        walk-parts forward only fuel c.net y.visited y.stack y.pending y.clock c.done c.state few in
      (
        record {
          net = d.net;
          reached = d.reached;
          done = d.done;
          runs = bind-runs _ _ t c.net y c.runs ∙ d.runs;
          state = d.state;
          grows = λ b k. d.grows b (c.grows b k);
        },
        e,
      )

  weigh-walk_fuel :
      (forward : Bool) (v : ℕ → Bool) (bs : List ℕ)
      → weigh (room forward s) v bs ≤ walk_fuel forward s bs
  unfolding walk_fuel
  weigh-walk_fuel forward v [] = omega arith
  weigh-walk_fuel forward v (b ∷ bs) = ground (arith, weigh-walk_fuel forward v bs)

  -- With nothing on the stack there is nothing on the pending list.
  no_layers : (ps : List (Option ℕ)) (st : List ℕ) → IsLayered s ps st → st ≡ [] → ps ≡ []
  no_layers [] st l e = refl
  no_layers (none ∷ ps) [] l e = absurd l
  no_layers (some k ∷ ps) [] l e = absurd l
  no_layers (p ∷ ps) (v ∷ vs) l e = cc

  -- What the loop over the listed blocks answers.
  abbrev pub Empties : List ℕ → Walk → Option (Walk × Net) → Type 0
  Empties bs x r =
      (c : Continues s skip x r) × (c.reached.stack ≡ [])
      × ((b : ℕ) → mem b bs ≡ true → c.reached.visited b ≡ true)

  pub walk_from-Empties :
      (forward only : Bool) (bs : List ℕ) (t : Net) (x : Walk) (done : List ℕ)
      → Searches s skip t x done
      → x.stack ≡ []
      → ((b : ℕ) → mem b bs ≡ true → HasBlock s b)
      → Empties bs x (walk_from forward only (walk_fuel forward s s.blocks.live) bs x t)
  unfolding walk_from mem
  walk_from-Empties forward only [] t x done i e h = (
    record { net = t; reached = x; done = done; runs = refl; state = i; grows = λ c k. k },
    e,
    λ b k. absurd (ground (arith, k)),
  )
  walk_from-Empties forward only (b ∷ bs) t x done i e h =
      let fuel = walk_fuel forward s s.blocks.live in
      let (c, ec, here) = first_block in
      let (d, ed, rest) =
        walk_from-Empties forward only bs c.net c.reached c.done c.state ec
          (λ a k. h a (ground (arith, k))) in
      (
        record {
          net = d.net;
          reached = d.reached;
          done = d.done;
          runs = bind-runs _ _ t c.net c.reached c.runs ∙ d.runs;
          state = d.state;
          grows = λ a k. d.grows a (c.grows a k);
        },
        ed,
        λ a k. elim (Bool-cases (b == a)) [
          | inl same ↦ d.grows a (subst (λ y. c.reached.visited y ≡ true) (==→eq b a same) here)
          | inr apart ↦ rest a (ground (arith, k, apart))
        ],
      )
    where
      first_block :
          (c : Continues s skip x (
            (if x.visited b
                then ret x
                else enter_block forward only b x
                  >>= walk forward only (walk_fuel forward s s.blocks.live))
              t))
          × (c.reached.stack ≡ [])
          × (c.reached.visited b ≡ true)
      first_block = elim (Bool-cases (x.visited b)) [
        | inl seen ↦ (
          record {
            net = t;
            reached = x;
            done = done;
            runs = rw seen refl;
            state = i;
            grows = λ c k. k;
          },
          e,
          seen,
        )
        | inr fresh ↦
            let ((c, few), here) =
              enter_block-Ends s joined sorted skip forward only t x done i b (h b (ground arith))
                fresh in
            let y = c.reached in
            let none_left = ap length (no_layers x.pending x.stack i.layers e) in
            let (d, ed) =
              walk-parts forward only (walk_fuel forward s s.blocks.live) c.net y.visited y.stack
                y.pending y.clock c.done c.state
                (omega (arith, few, none_left, weigh-walk_fuel forward x.visited s.blocks.live)) in
            (
              record {
                net = d.net;
                reached = d.reached;
                done = d.done;
                runs = rw fresh (bind-runs _ _ t c.net y c.runs ∙ d.runs);
                state = d.state;
                grows = λ a k. d.grows a (c.grows a k);
              },
              ed,
              d.grows b here,
            )
      ]
