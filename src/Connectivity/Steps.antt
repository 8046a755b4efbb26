-- ===== src/Connectivity/Steps.antt =====
-- The rounds of `DFS` keep its invariant, and each takes one of the rounds that are left
-- (Buffers/src/DFnetlist_Connectivity.cpp).
use fpt2022_artifact.Common.{
  ℕ, suc, ◌+◌, ◌≤◌, ◌≡◌, refl, sym, ap, ◌∙◌, arith, Bool-cases, ==→eq, inl, inr, subst,
}
use fpt2022_artifact.Common.{Bool, true, false, Option, none, some, List, [], ◌∷◌, length}
use fpt2022_artifact.Common.{◌==◌}
use fpt2022_artifact.Common.Int.{ℤ, pos}
use fpt2022_artifact.Common.Sets.{IsOrdered}
use fpt2022_artifact.Netlist.Types.{Net, bind-runs}
use fpt2022_artifact.Netlist.Invariant.{HasBlock}
use fpt2022_artifact.Connectivity.{Walk, decrement, entered, enter_block, visit, leave_block}
use fpt2022_artifact.Connectivity.Children.{IsConnected, with_kids, AllLive, enter_block-Pushes}
use fpt2022_artifact.Connectivity.Renumber.{
  Renumbers, same-HasBlock, same-IsConnected, same-ports_along, back-HasBlock,
  set_dfs_order-Renumbers,
}
use fpt2022_artifact.Connectivity.Rounds.{
  weigh, weigh-present, occ, index, IsLayered, one, Searches, room, rounds_left,
}

-- What a part of the search answers: it returns, keeps the invariant, and forgets no visited block.
pub record Continues (s : Net) (skip : ℕ → Bool) (x : Walk) (r : Option (Walk × Net)) : Type 0 where
  pub net : Net
  pub reached : Walk
  pub done : List ℕ
  pub runs : r ≡ some (reached, net)
  pub state : Searches s skip net reached done
  pub grows : (b : ℕ) → x.visited b ≡ true → reached.visited b ≡ true

module _ (s : Net) (joined : IsConnected s) (sorted : IsOrdered s.blocks.live)
    (skip : ℕ → Bool) where
  with_kids-IsLayered :
      (ks : List ℕ) (ps : List (Option ℕ)) (v : ℕ) (vs : List ℕ)
      → AllLive s ks
      → IsLayered s ps (v ∷ vs)
      → IsLayered s (with_kids ks ps) (v ∷ vs)
  with_kids-IsLayered [] ps v vs a l = l
  with_kids-IsLayered (k ∷ ks) ps v vs a l = with_kids-IsLayered ks (some k ∷ ps) v vs a.1 (a.0, l)

  length-with_kids :
      (ks : List ℕ) (ps : List (Option ℕ)) → length (with_kids ks ps) ≡ length ks + length ps
  length-with_kids [] ps = omega arith
  length-with_kids (k ∷ ks) ps = omega (arith, length-with_kids ks (some k ∷ ps))

  back-AllLive : (t : Net) (r : Renumbers s t) (ks : List ℕ) → AllLive t ks → AllLive s ks
  back-AllLive t r [] a = tt
  back-AllLive t r (k ∷ ks) a = (back-HasBlock s t r k a.0, back-AllLive t r ks a.1)

  module _ (t : Net) (x : Walk) (done : List ℕ) (i : Searches s skip t x done) (b : ℕ)
      (h : HasBlock s b) (fresh : x.visited b ≡ false) (ks : List ℕ) (a : AllLive s ks) where
    abbrev inside : Walk
    inside = record (entered b x) { pending = with_kids ks (none ∷ x.pending) }

    waits : weigh one x.visited s.blocks.live ≡ suc (weigh one inside.visited s.blocks.live)
    waits = omega (arith, weigh-present one x.visited b s.blocks.live sorted h fresh)

    unseen : (c : ℕ) → (b == c) ≡ true → (skip c ≡ false) × (occ c x.stack + occ c done ≡ 0)
    unseen c same =
        let eq = ==→eq b c same in
        let k : HasBlock s c = subst (HasBlock s) eq h in
        let e = i.visits c k in
        let f : x.visited c ≡ false = ap x.visited (sym eq) ∙ fresh in ground (arith, e, f)

    -- Entering a block keeps the invariant.
    enter_block-Searches : Searches s skip t inside done
    enter_block-Searches = record {
      renumbers = i.renumbers;
      layers = with_kids-IsLayered ks (none ∷ x.pending) b x.stack a i.layers;
      visits = λ c k. let e = i.visits c k in ground (arith, e);
      once = λ c. let e = i.once c in ground (arith, e, unseen c);
      own = λ c k. elim (Bool-cases (b == c)) [
        | inl same ↦ (subst (HasBlock s) (==→eq b c same) h, (unseen c same).0)
        | inr apart ↦ i.own c (ground (arith, k, apart))
      ];
      clock = i.clock ∙ ap pos (omega (arith, waits));
      numbers = λ c k. i.numbers c k ∙ ap (λ n. index n done c) (omega (arith, waits));
      total = omega (arith, i.total, waits);
    }

  -- The next state is reached with at most so many rounds left.
  abbrev pub Ends : Bool → Walk → ℕ → Option (Walk × Net) → Type 0
  Ends forward x most r = (c : Continues s skip x r) × (rounds_left forward s c.reached ≤ most)

  -- Entering a block spends the block's room.
  pub enter_block-Ends :
      (forward only : Bool) (t : Net) (x : Walk) (done : List ℕ) (i : Searches s skip t x done)
      (b : ℕ)
      → HasBlock s b
      → x.visited b ≡ false
      → (e : Ends forward x (rounds_left forward s x) (enter_block forward only b x t)) × ((e.0
              ).reached.visited
            b
          ≡ true)
  enter_block-Ends forward only t x done i b h fresh =
      let r = i.renumbers in
      let p =
        enter_block-Pushes t r.formed (same-IsConnected s t r joined) forward only b x
          (same-HasBlock s t r b h) in
      let a = back-AllLive t r p.kids p.live in
      let y = inside t x done i b h fresh p.kids a in
      let room_b = weigh-present (room forward s) x.visited b s.blocks.live sorted h fresh in
      (
        (
          record {
            net = t;
            reached = y;
            done = done;
            runs = p.runs;
            state = enter_block-Searches t x done i b h fresh p.kids a;
            grows = λ c k. ground (arith, k);
          },
          omega (
            arith,
            room_b,
            length-with_kids p.kids (none ∷ x.pending),
            p.few,
            ap length (same-ports_along s t r forward b),
          ),
        ),
        ground arith,
      )

  -- Leaving a block gives it its number.
  leave_block-Ends :
      (forward only : Bool) (t : Net) (vis : ℕ → Bool) (v : ℕ) (vs : List ℕ) (ps : List (Option ℕ))
      (n : ℤ) (done : List ℕ)
      → (i : Searches s skip t
          (record { visited = vis; stack = v ∷ vs; pending = none ∷ ps; clock = n })
          done)
      → Ends forward
          (record { visited = vis; stack = v ∷ vs; pending = none ∷ ps; clock = n })
          (length ps + weigh (room forward s) vis s.blocks.live)
          (leave_block
            (v ∷ vs)
            ps
            (record { visited = vis; stack = v ∷ vs; pending = none ∷ ps; clock = n })
            t)
  unfolding leave_block
  leave_block-Ends forward only t vis v vs ps n done i =
      let h = (i.own v (ground arith)).0 in
      let now = weigh one vis s.blocks.live + length vs in
      let shift : weigh one vis s.blocks.live + suc (length vs) ≡ suc now = omega arith in
      let tick : decrement n ≡ pos now = ap decrement (i.clock ∙ ap pos shift) in
      let (u, e, r, at) = set_dfs_order-Renumbers s t i.renumbers v (decrement n) h in
      (
        record {
          net = u;
          reached = record { visited = vis; stack = vs; pending = ps; clock = decrement n };
          done = v ∷ done;
          runs = bind-runs _ _ t u tt e;
          state = record {
            renumbers = r;
            layers = i.layers;
            visits = λ c k. let e = i.visits c k in ground (arith, e);
            once = λ c. let o = i.once c in ground (arith, o);
            own = λ c k. i.own c (ground (arith, k));
            clock = tick;
            numbers = λ c k. at c ∙ elim (Bool-cases (v == c)) [
              | inl same ↦ rw same tick
              | inr apart ↦ rw apart (i.numbers c k ∙ ap (λ m. index m done c) shift)
            ];
            total = omega (arith, i.total);
          };
          grows = λ c k. k;
        },
        omega arith,
      )

  -- A round of the `while` keeps the invariant and leaves fewer rounds.
  pub visit-Ends :
      (forward only : Bool) (t : Net) (vis : ℕ → Bool) (v : ℕ) (vs : List ℕ) (ps : List (Option ℕ))
      (n : ℤ) (done : List ℕ) (most : ℕ)
      → Searches s skip t (record { visited = vis; stack = v ∷ vs; pending = ps; clock = n }) done
      → rounds_left forward s (record { visited = vis; stack = v ∷ vs; pending = ps; clock = n })
        ≤ suc most
      → Ends forward
          (record { visited = vis; stack = v ∷ vs; pending = ps; clock = n })
          most
          (visit forward only ps
            (record { visited = vis; stack = v ∷ vs; pending = ps; clock = n })
            t)
  unfolding visit
  visit-Ends forward only t vis v vs [] n done most i le = absurd i.layers
  visit-Ends forward only t vis v vs (none ∷ ps) n done most i le =
      let (c, few) = leave_block-Ends forward only t vis v vs ps n done i in
      (c, omega (arith, few, le))
  visit-Ends forward only t vis v vs (some kid ∷ ps) n done most i le =
      let x : Walk = record { visited = vis; stack = v ∷ vs; pending = ps; clock = n } in
      let j : Searches s skip t x done = record {
        renumbers = i.renumbers;
        layers = i.layers.1;
        visits = i.visits;
        once = i.once;
        own = i.own;
        clock = i.clock;
        numbers = i.numbers;
        total = i.total;
      } in
      elim (Bool-cases (vis kid)) [
        | inl seen ↦ (
          record {
            net = t;
            reached = x;
            done = done;
            runs = rw seen refl;
            state = j;
            grows = λ c k. k;
          },
          omega (arith, le),
        )
        | inr fresh ↦
            let ((c, few), here) = enter_block-Ends forward only t x done j kid i.layers.0 fresh in
            (
              record {
                net = c.net;
                reached = c.reached;
                done = c.done;
                runs = rw fresh c.runs;
                state = c.state;
                grows = c.grows;
              },
              omega (arith, few, le),
            )
      ]
