-- ===== src/Connectivity/Children.antt =====
-- The children that `DFS` pushes for a block (Buffers/src/DFnetlist_Connectivity.cpp).
use fpt2022_artifact.Common.{ℕ, subst, ◌≤◌, ◌≡◌, refl, ap, ◌∙◌, inl, inr, arith, Bool-cases}
use fpt2022_artifact.Common.{
  Bool, true, false, not, Option, some, List, [], ◌∷◌, ◌++◌, length, length-append,
}
use fpt2022_artifact.Common.Sets.{mem}
use fpt2022_artifact.Common.{if◌then◌else◌}
use fpt2022_artifact.Netlist.Types.{Net, block, port, channel, bind-runs, look-then}
use fpt2022_artifact.Netlist.Types.{input_ports, output_ports}
use fpt2022_artifact.Netlist.Invariant.{IsWellFormed, HasBlock, HasPort, HasChannel, IsLink}
use fpt2022_artifact.Netlist.Invariant.Frame.{HasPort-valid}
use fpt2022_artifact.Netlist.Channels.{
  get_connected_channel, get_connected_port, get_block_from_port, get_src_port, get_dst_port,
  read_channel,
}
use fpt2022_artifact.Netlist.Ports.{get_ports}
use fpt2022_artifact.Connectivity.{
  Walk, push_child, push_children, enter_block, entered, is_cut, ports_along,
}

-- Each port has a channel.
abbrev pub IsConnected : Net → Type 0
IsConnected s = (p : ℕ) → HasPort s p → (c : ℕ) × ((port s p).channel ≡ some c)

-- The pending list with more children, the first one deepest.
abbrev pub with_kids : List ℕ → List (Option ℕ) → List (Option ℕ)
with_kids [] ps = ps
with_kids (k ∷ ks) ps = with_kids ks (some k ∷ ps)

abbrev pub AllLive : Net → List ℕ → Type 0
AllLive s [] = Unit
AllLive s (k ∷ ks) = HasBlock s k × AllLive s ks

-- What a call that pushes children answers.
pub record Pushes (t : Net) (most : ℕ) (w : Walk) (r : Option (Walk × Net)) : Type 0 where
  pub kids : List ℕ
  pub runs : r ≡ some (record w { pending = with_kids kids w.pending }, t)
  pub live : AllLive t kids
  pub few : length kids ≤ most

module _ (t : Net) (w : IsWellFormed t) (joined : IsConnected t) where
  is_cut-reads :
      (only : Bool) (c : ℕ) → HasChannel t c → (cut : Bool) × (is_cut only (some c) t ≡ some cut)
  unfolding is_cut read_channel
  is_cut-reads false c h = (false, refl)
  is_cut-reads true c h = (not (channel t c).mark, rw (w.channel_ids c ∙ h, is_cut) refl)

  has_channel : (p c : ℕ) → HasPort t p → (port t p).channel ≡ some c → HasChannel t c
  has_channel p c h e = (subst (IsLink t p) e (w.links p h)).0

  -- The port at the other end of a channel, and its block.
  far_port :
      (p c : ℕ)
      → HasPort t p
      → (port t p).channel ≡ some c
      → (q : ℕ) × (get_connected_port (some p) t ≡ some q) × HasPort t q
  unfolding get_connected_port get_src_port get_dst_port
  far_port p c h e =
      let k = has_channel p c h e in
      let valid = HasPort-valid t p w h in
      let ids = w.channel_ids c ∙ k in
      elim (Bool-cases (port t p).is_input) [
        | inl into ↦ (
          (channel t c).src,
          rw (valid, into, e, ids, get_connected_port, get_src_port) refl,
          (w.joins c k).src_exists,
        )
        | inr out ↦ (
          (channel t c).dst,
          rw (valid, out, e, ids, get_connected_port, get_dst_port) refl,
          (w.joins c k).dst_exists,
        )
      ]

  far_block :
      (q : ℕ)
      → HasPort t q
      → (get_block_from_port (some q) t ≡ some (port t q).block) × HasBlock t (port t q).block
  unfolding get_block_from_port
  far_block q h = (rw (HasPort-valid t q w h, get_block_from_port) refl, (w.ownership.owned q h).0)

  -- The outcome of one port, by whether its channel is cut and by its far block.
  abbrev pushed : Bool → ℕ → Walk → Option (Walk × Net)
  pushed cut b x =
      if cut
      then some (x, t)
      else some (if x.visited b then x else record x { pending = some b ∷ x.pending }, t)

  push_child-runs :
      (only : Bool) (p : ℕ) (x : Walk)
      → HasPort t p
      → (cut : Bool) × (b : ℕ) × HasBlock t b × (push_child only p x t ≡ pushed cut b x)
  unfolding push_child get_connected_channel
  push_child-runs only p x h =
      let (c, e) = joined p h in
      let (cut, ec) = is_cut-reads only c (has_channel p c h e) in
      let (q, eq, hq) = far_port p c h e in
      let (eb, hb) = far_block q hq in
      let b = (port t q).block in
      let reads : get_connected_channel (some p) t ≡ some (some c) =
        rw (HasPort-valid t p w h, e, get_connected_channel) refl in
      (
        cut,
        b,
        hb,
        look-then (get_connected_channel (some p)) _ t (some c) _ reads (
            look-then (is_cut only (some c)) _ t cut _ ec (elim (Bool-cases cut) [
              | inl shut ↦ rw shut refl
              | inr free ↦ rw free (
                  look-then (get_connected_port (some p)) _ t q _ eq
                    (look-then (get_block_from_port (some q)) _ t b _ eb refl))
            ])),
      )

  -- One port pushes at most one child.
  push_child-Pushes :
      (only : Bool) (p : ℕ) (x : Walk) → HasPort t p → Pushes t 1 x (push_child only p x t)
  push_child-Pushes only p x h =
      let (cut, b, hb, e) = push_child-runs only p x h in
      pushed-Pushes cut b hb (push_child only p x t) e
    where
      none_pushed : (r : Option (Walk × Net)) → r ≡ some (x, t) → Pushes t 1 x r
      none_pushed r e = record { kids = []; runs = e; live = tt; few = omega arith }

      pushed-Pushes :
          (cut : Bool) (b : ℕ)
          → HasBlock t b
          → (r : Option (Walk × Net)) → r ≡ pushed cut b x
          → Pushes t 1 x r
      pushed-Pushes true b hb r e = none_pushed r e
      pushed-Pushes false b hb r e = elim (Bool-cases (x.visited b)) [
        | inl seen ↦ none_pushed r (e ∙ rw seen refl)
        | inr fresh ↦ record {
          kids = b ∷ [];
          runs = e ∙ rw fresh refl;
          live = (hb, tt);
          few = omega arith;
        }
      ]

  with_kids-append :
      (ks ls : List ℕ) (ps : List (Option ℕ))
      → with_kids ls (with_kids ks ps) ≡ with_kids (ks ++ ls) ps
  with_kids-append [] ls ps = refl
  with_kids-append (k ∷ ks) ls ps = with_kids-append ks ls (some k ∷ ps)

  AllLive-append : (ks ls : List ℕ) → AllLive t ks → AllLive t ls → AllLive t (ks ++ ls)
  AllLive-append [] ls a b = b
  AllLive-append (k ∷ ks) ls a b = (a.0, AllLive-append ks ls a.1 b)

  -- The loop pushes at most one child for each port.
  push_children-Pushes :
      (only : Bool) (ps : List ℕ) (x : Walk)
      → ((p : ℕ) → mem p ps ≡ true → HasPort t p)
      → Pushes t (length ps) x (push_children only ps x t)
  unfolding push_children mem
  push_children-Pushes only [] x h = record { kids = []; runs = refl; live = tt; few = omega arith }
  push_children-Pushes only (p ∷ ps) x h =
      let a = push_child-Pushes only p x (h p (ground arith)) in
      let y : Walk = record x { pending = with_kids a.kids x.pending } in
      let b = push_children-Pushes only ps y (λ q k. h q (ground (arith, k))) in
      record {
        kids = a.kids ++ b.kids;
        runs =
            bind-runs (push_child only p x) _ t t y a.runs
            ∙ b.runs
            ∙ ap (λ q. some (record x { pending = q }, t))
                (with_kids-append a.kids b.kids x.pending);
        live = AllLive-append a.kids b.kids a.live b.live;
        few = omega (arith, a.few, b.few, length-append a.kids b.kids);
      }

  ports_along-HasPort :
      (forward : Bool) (b p : ℕ)
      → HasBlock t b
      → mem p (ports_along forward (block t b)) ≡ true
      → HasPort t p
  ports_along-HasPort true b p h k =
      let o = w.ownership.owns b h in o.exists p (ground (arith, o.outputs p, k))
  ports_along-HasPort false b p h k =
      let o = w.ownership.owns b h in o.exists p (ground (arith, o.inputs p, k))

  get_ports-reads :
      (forward : Bool) (b : ℕ)
      → HasBlock t b
      → get_ports (some b) (if forward then output_ports else input_ports) t
        ≡ some (ports_along forward (block t b))
  unfolding get_ports
  get_ports-reads true b h = rw (w.ownership.block_ids b ∙ h, get_ports) refl
  get_ports-reads false b h = rw (w.ownership.block_ids b ∙ h, get_ports) refl

  -- Entering a block pushes blocks of the netlist, at most one for each port.
  pub enter_block-Pushes :
      (forward only : Bool) (b : ℕ) (x : Walk)
      → HasBlock t b
      → Pushes t
          (length (ports_along forward (block t b)))
          (entered b x)
          (enter_block forward only b x t)
  unfolding enter_block
  enter_block-Pushes forward only b x h =
      let ps = ports_along forward (block t b) in
      let a =
        push_children-Pushes only ps (entered b x) (λ p k. ports_along-HasPort forward b p h k) in
      record {
        kids = a.kids;
        runs = look-then _ _ t ps _ (get_ports-reads forward b h) a.runs;
        live = a.live;
        few = a.few;
      }
