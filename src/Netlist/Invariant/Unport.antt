-- ===== src/Netlist/Invariant/Unport.antt =====
-- Removing a port (`removePort`) keeps a netlist well formed.
use fpt2022_artifact.Common.{ℕ, ◌≡◌, refl, sym, ap, ap₂, ◌∙◌, Bool, true, false, not, ◌&&◌, ◌||◌}
use fpt2022_artifact.Common.{Option, none, some, inl, inr, if◌then◌else◌, ◌==◌, arith}
use fpt2022_artifact.Common.{Bool-cases, ◌↔◌, subst}
use fpt2022_artifact.Common.Sets.{mem, mem-erase}
use fpt2022_artifact.Common.Text.{remove}
use fpt2022_artifact.Slab.{at}
use fpt2022_artifact.Netlist.Types.{Net, Port, block_zero}
use fpt2022_artifact.Netlist.Types.{block, port, channel, valid_channel}
use fpt2022_artifact.Netlist.Channels.{connect, drop_channel}
use fpt2022_artifact.Netlist.Ports.{disown_port, drop_channel_of, forget_port, free_port}
use fpt2022_artifact.Netlist.Ports.{drop_port}
use fpt2022_artifact.Netlist.Invariant.{IsWellFormed, HasPort, HasChannel}
use fpt2022_artifact.Netlist.Invariant.{IsLink}
use fpt2022_artifact.Netlist.Invariant.Frame.{KeepsOwners}
use fpt2022_artifact.Netlist.Invariant.Cut.{
  cut-port, cut-live, cut-channel, cut-KeepsOwners, drop_channel-IsWellFormed,
}
use fpt2022_artifact.Netlist.Invariant.Detach.{
  detach, out-port, out-block, out-live, out-blocks_live, detach-IsWellFormed,
}

-- What the removal of the channel of a port leaves.
pub record Unlinks (s : Net) (p : ℕ) (t : Net) : Type 0 where
  pub formed : IsWellFormed t
  pub owners : KeepsOwners s t
  pub unlinked : (port t p).channel ≡ none
  pub channels_left :
      (d : ℕ)
      → mem d t.channels.live
        ≡ (not (((channel s d).src == p) || ((channel s d).dst == p)) && mem d s.channels.live)
  pub channels_keep : (d : ℕ) → HasChannel t d → channel t d ≡ channel s d
  pub ports_keep : (q : ℕ) → port t q ≡ connect (port t q).channel (port s q)

-- A port without a channel is at the end of none.
no-channels :
    (s : Net) (p d : ℕ)
    → IsWellFormed s
    → (port s p).channel ≡ none
    → mem d s.channels.live
      ≡ (not (((channel s d).src == p) || ((channel s d).dst == p)) && mem d s.channels.live)
no-channels s p d w e = elim (Bool-cases (mem d s.channels.live)) [
  | inl h ↦ ground (arith, e, (w.joins d h).src_names, (w.joins d h).dst_names)
  | inr gone ↦ ground (arith, gone)
]

-- The channel of a port is the only one at whose end it is.
one-channel :
    (s : Net) (p c d : ℕ)
    → IsWellFormed s
    → (port s p).channel ≡ some c
    → IsLink s p (some c)
    → (not (c == d) && mem d s.channels.live)
      ≡ (not (((channel s d).src == p) || ((channel s d).dst == p)) && mem d s.channels.live)
one-channel s p c d w e k = elim (Bool-cases (mem d s.channels.live)) [
  | inl h ↦ ground (arith, e, k.1, (w.joins d h).src_names, (w.joins d h).dst_names)
  | inr gone ↦ ground (arith, gone)
]

drop_channel_of-Unlinks :
    (s : Net) (p : ℕ) (c : Option ℕ)
    → IsWellFormed s
    → (port s p).channel ≡ c
    → IsLink s p c
    → Unlinks s p (drop_channel_of c s)
unfolding drop_channel_of
drop_channel_of-Unlinks s p none w e k = record {
  formed = w;
  owners = record {
    blocks = refl;
    ports_live = refl;
    ports_length = refl;
    same_block = λ q. refl;
    same_input = λ q. refl;
    same_id = λ q. refl;
  };
  unlinked = e;
  channels_left = λ d. no-channels s p d w e;
  channels_keep = λ d h. refl;
  ports_keep = λ q. refl;
}
drop_channel_of-Unlinks s p (some c) w e k = rw (w.channel_ids c ∙ k.0) (record {
  formed = drop_channel-IsWellFormed s c w k.0;
  owners = cut-KeepsOwners s c w k.0;
  unlinked = ground (arith, cut-port s c w k.0 p, k.1);
  channels_left = λ d.
      ap (mem d) (cut-live s c w k.0) ∙ (mem-erase c d s.channels.live ∙ one-channel s p c d w e k);
  channels_keep = λ d h. ground (
    arith,
    cut-channel s c w k.0 d,
    ap (mem d) (cut-live s c w k.0),
    mem-erase c d s.channels.live,
  );
  ports_keep = λ q. ground (arith, cut-port s c w k.0 q);
})

-- Forgetting the port and removing its channel commute.
free-forget :
    (s : Net) (p c : ℕ) (valid : Bool)
    → free_port p (if valid then drop_channel c (forget_port p s) else forget_port p s)
      ≡ detach (port s p).block (port s p).is_input p (if valid then drop_channel c s else s)
unfolding free_port forget_port drop_channel
free-forget s p c true = refl
free-forget s p c false = refl

drop_port-detach :
    (s : Net) (p : ℕ) (c : Option ℕ)
    → free_port p (drop_channel_of c (forget_port p s))
      ≡ detach (port s p).block (port s p).is_input p (drop_channel_of c s)
unfolding free_port drop_channel_of forget_port valid_channel
drop_port-detach s p none = refl
drop_port-detach s p (some c) = free-forget s p c (valid_channel s (some c))

-- Only channels and the fields of ports change with a channel.
drop_channel_of-frame :
    (s : Net) (c : Option ℕ)
    → drop_channel_of c s
      ≡ record s { channels = (drop_channel_of c s).channels; ports = (drop_channel_of c s).ports }
unfolding drop_channel_of drop_channel
drop_channel_of-frame s none = refl
drop_channel_of-frame s (some c) = either (valid_channel s (some c))
  where
    either :
        (b : Bool)
        → (if b then drop_channel c s else s) ≡ record s {
          channels = (if b then drop_channel c s else s).channels;
          ports = (if b then drop_channel c s else s).ports;
        }
    either true = refl
    either false = refl

module _ (s : Net) (p : ℕ) (w : IsWellFormed s) (h : HasPort s p) where
  abbrev unlinked : Net
  unlinked = drop_channel_of (port s p).channel s

  unlinks : Unlinks s p unlinked
  unlinks = drop_channel_of-Unlinks s p (port s p).channel w refl (w.links p h)

  unlinked-HasPort : HasPort unlinked p
  unlinked-HasPort = ap (mem p) unlinks.owners.ports_live ∙ h

  drop_port-eq :
      drop_port p s ≡ detach (port unlinked p).block (port unlinked p).is_input p unlinked
  unfolding drop_port
  drop_port-eq =
      drop_port-detach s p (port s p).channel
      ∙ ap₂ (λ c d. detach c d p unlinked) (sym (unlinks.owners.same_block p))
          (sym (unlinks.owners.same_input p))

  -- Removing a port of the netlist, with its channel if it has one, keeps the netlist well formed.
  pub drop_port-IsWellFormed : IsWellFormed (drop_port p s)
  drop_port-IsWellFormed =
      rw drop_port-eq
        (detach-IsWellFormed unlinked p unlinks.formed unlinked-HasPort unlinks.unlinked)

  -- What is left: the port is gone and its owner does not list it; every other port and every block
  -- stays.
  pub drop_port-live :
      (q : ℕ) → mem q (drop_port p s).ports.live ≡ (not (p == q) && mem q s.ports.live)
  drop_port-live q =
      ap (λ t. mem q t.ports.live) drop_port-eq
      ∙ out-live unlinked p unlinks.formed unlinked-HasPort unlinks.unlinked q
      ∙ ap (λ l. not (p == q) && mem q l) unlinks.owners.ports_live

  pub drop_port-blocks : (c : ℕ) → mem c (drop_port p s).blocks.live ≡ mem c s.blocks.live
  drop_port-blocks c =
      ap (λ t. mem c t.blocks.live) drop_port-eq
      ∙ out-blocks_live unlinked p unlinks.formed unlinked-HasPort unlinks.unlinked c
      ∙ ap (λ bs. mem c bs.live) unlinks.owners.blocks

  pub drop_port-block :
      (c : ℕ)
      → block (drop_port p s) c ≡ (
          if (port s p).block == c
          then disown_port p (port s p).is_input (block s c)
          else block s c)
  drop_port-block c =
      ap (λ t. block t c) drop_port-eq
      ∙ ground (
        arith,
        out-block unlinked p unlinks.formed unlinked-HasPort unlinks.unlinked c,
        unlinks.owners.same_block p,
        unlinks.owners.same_input p,
        ap (λ bs. at block_zero bs c) unlinks.owners.blocks,
      )

  -- The channel of the port is gone too, and every other channel and port stays.
  pub drop_port-channels :
      (d : ℕ)
      → mem d (drop_port p s).channels.live
        ≡ (not (((channel s d).src == p) || ((channel s d).dst == p)) && mem d s.channels.live)
  drop_port-channels d = ap (λ t. mem d t.channels.live) drop_port-eq ∙ unlinks.channels_left d

  pub drop_port-channel :
      (d : ℕ) → HasChannel (drop_port p s) d → channel (drop_port p s) d ≡ channel s d
  drop_port-channel d h =
      ap (λ t. channel t d) drop_port-eq
      ∙ unlinks.channels_keep d (sym (ap (λ t. mem d t.channels.live) drop_port-eq) ∙ h)

  pub drop_port-port :
      (q : ℕ)
      → HasPort (drop_port p s) q
      → port (drop_port p s) q ≡ connect (port (drop_port p s) q).channel (port s q)
  drop_port-port q h =
      let now : port (drop_port p s) q ≡ port unlinked q =
        ap (λ t. port t q) drop_port-eq
        ∙ ground (
          arith,
          drop_port-live q,
          out-port unlinked p unlinks.formed unlinked-HasPort unlinks.unlinked q,
        ) in
      now ∙ (unlinks.ports_keep q ∙ ap (λ x. connect x.channel (port s q)) (sym now))

  -- A port that is left names the channel that it named, if that is left.
  pub drop_port-links :
      (q d : ℕ)
      → HasPort (drop_port p s) q
      → ((port (drop_port p s) q).channel ≡ some d)
        ↔ (((port s q).channel ≡ some d) × HasChannel (drop_port p s) d)
  drop_port-links q d hq =
      let t = drop_port p s in
      let before : HasPort s q = ground (arith, drop_port-live q, hq) in
      (
        λ e.
            let k : IsLink t q (some d) =
              subst (IsLink t q) e (drop_port-IsWellFormed.links q hq) in
            let j = w.joins d (ground (arith, drop_port-channels d, k.0)) in
            (ground (arith, drop_port-channel d k.0, k.1, j.src_names, j.dst_names), k.0),
        λ e.
            let k : IsLink s q (some d) = subst (IsLink s q) e.0 (w.links q before) in
            let j = drop_port-IsWellFormed.joins d e.1 in
            ground (arith, drop_port-channel d e.1, k.1, j.src_names, j.dst_names),
      )

  -- The dictionary loses the full name of the port.
  pub drop_port-names : (drop_port p s).name2port ≡ remove (port s p).full_name s.name2port
  drop_port-names =
      ap (λ (t : Net). t.name2port) drop_port-eq
      ∙ ap₂ remove (ap Port.full_name (unlinks.ports_keep p))
          (ap (λ (t : Net). t.name2port) (drop_channel_of-frame s (port s p).channel))

-- The rest of the netlist stays.
pub drop_port-frame :
    (s : Net) (p : ℕ)
    → drop_port p s ≡ record s {
      blocks = (drop_port p s).blocks;
      ports = (drop_port p s).ports;
      channels = (drop_port p s).channels;
      name2port = (drop_port p s).name2port;
    }
unfolding drop_port free_port forget_port
drop_port-frame s p =
    ap
      (λ (t : Net). record t {
        blocks = (drop_port p s).blocks;
        channels = (drop_port p s).channels;
        ports = (drop_port p s).ports;
        name2port = (drop_port p s).name2port;
      })
      (drop_channel_of-frame (forget_port p s) (port s p).channel)
