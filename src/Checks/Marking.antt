-- ===== src/Checks/Marking.antt =====
-- The loop of `calculateBackEdges` (Buffers/src/DFnetlist_Connectivity.cpp) marks each channel in turn.
use fpt2022_artifact.Common.{ℕ, ◌≡◌, refl, ap, ◌∙◌, inl, inr, arith, Bool-cases, ==→eq}
use fpt2022_artifact.Common.{Bool, true, false, ◌&&◌, ◌||◌, some, List, [], ◌∷◌}
use fpt2022_artifact.Common.{if◌then◌else◌, ◌==◌}
use fpt2022_artifact.Common.Sets.{mem}
use fpt2022_artifact.Slab.{put}
use fpt2022_artifact.Netlist.Types.{Net, Block, Channel, block, port, channel}
use fpt2022_artifact.Netlist.Types.{bind-runs, look-then}
use fpt2022_artifact.Netlist.Invariant.{IsWellFormed, HasChannel}
use fpt2022_artifact.Netlist.Invariant.Frame.{HasPort-valid}
use fpt2022_artifact.Netlist.Invariant.Updates.{KeepsEnds, change-IsWellFormed, change-channel}
use fpt2022_artifact.Netlist.Channels.{
  get_src_block, get_dst_block, get_src_port, get_dst_port, get_block_from_port, update_channel,
}
use fpt2022_artifact.Netlist.Attributes.{get_basic_block, get_block_type}
use fpt2022_artifact.Checks.Decides.{read_block-reads}
use fpt2022_artifact.Checks.Driver.{back_edge, each, is_branch, at_least}

-- From a branch to its own basic block, or to one with a smaller number; `x` and `y` are the ports.
abbrev pub goes_between : Net → ℕ → ℕ → Bool
goes_between s x y =
    let from = block s (port s x).block in
    let to = block s (port s y).block in
    is_branch from.type && at_least from.attrs.basic_block to.attrs.basic_block

abbrev pub goes_back : Net → ℕ → Bool
goes_back s c = goes_between s (channel s c).src (channel s c).dst

abbrev pub marked : Bool → Channel → Channel
marked value ch = record ch { back_edge = value }

-- The channels with a property are marked, and nothing else is changed.
pub record Marks (s : Net) (among : ℕ → Bool) (t : Net) : Type 0 where
  pub frame : t ≡ record s { channels = t.channels }
  pub live : t.channels.live ≡ s.channels.live
  pub formed : IsWellFormed t
  pub channels :
      (c : ℕ)
      → channel t c ≡ (if among c then marked (goes_back s c) (channel s c) else channel s c)

marked-KeepsEnds : (value : Bool) → KeepsEnds (marked value)
marked-KeepsEnds value = record { id = λ c. refl; src = λ c. refl; dst = λ c. refl }

module _ (t : Net) (w : IsWellFormed t) (c : ℕ) (h : HasChannel t c) where
  pub get_src_block-reads : get_src_block (some c) t ≡ some (port t (channel t c).src).block
  unfolding get_src_block get_src_port get_block_from_port
  get_src_block-reads =
      rw (w.channel_ids c ∙ h, get_src_block, get_src_port)
        (rw (HasPort-valid t (channel t c).src w (w.joins c h).src_exists, get_block_from_port)
          refl)

  pub get_dst_block-reads : get_dst_block (some c) t ≡ some (port t (channel t c).dst).block
  unfolding get_dst_block get_dst_port get_block_from_port
  get_dst_block-reads =
      rw (w.channel_ids c ∙ h, get_dst_block, get_dst_port)
        (rw (HasPort-valid t (channel t c).dst w (w.joins c h).dst_exists, get_block_from_port)
          refl)

  abbrev next : Net
  next = record t { channels = put c (marked (goes_back t c)) t.channels }

  back_edge-runs : back_edge c t ≡ some (tt, next)
  unfolding back_edge update_channel
  back_edge-runs =
      let j = w.joins c h in
      let b = (port t (channel t c).src).block in
      let d = (port t (channel t c).dst).block in
      let hb = (w.ownership.owned (channel t c).src j.src_exists).0 in
      let hd = (w.ownership.owned (channel t c).dst j.dst_exists).0 in
      look-then (get_src_block (some c)) _ t b _ get_src_block-reads (
        look-then (get_basic_block (some b)) _ t (block t b).attrs.basic_block _
          (read_block-reads t w (λ x. x.attrs.basic_block) b hb)
          (look-then (get_dst_block (some c)) _ t d _ get_dst_block-reads (
            look-then (get_basic_block (some d)) _ t (block t d).attrs.basic_block _
              (read_block-reads t w (λ x. x.attrs.basic_block) d hd)
              (look-then (get_block_type (some b)) _ t (block t b).type _
                (read_block-reads t w Block.type b hb)
                (rw (w.channel_ids c ∙ h, update_channel) refl)))))

module _ (s t : Net) (among : ℕ → Bool) (m : Marks s among t) where
  same-src : (c : ℕ) → (channel t c).src ≡ (channel s c).src
  same-src c = ap Channel.src (m.channels c) ∙ ground arith

  same-dst : (c : ℕ) → (channel t c).dst ≡ (channel s c).dst
  same-dst c = ap Channel.dst (m.channels c) ∙ ground arith

  same-goes_back : (c : ℕ) → goes_back t c ≡ goes_back s c
  same-goes_back c =
      ap (λ (x : Net). goes_between x (channel t c).src (channel t c).dst) m.frame
      ∙ ap (λ x. goes_between s x (channel t c).dst) (same-src c)
      ∙ ap (λ y. goes_between s (channel s c).src y) (same-dst c)

  -- One more channel is marked.
  next-Marks :
      (c : ℕ) (h : HasChannel t c) → Marks s (λ d. (c == d) || among d) (next t m.formed c h)
  unfolding put
  next-Marks c h = record {
    frame = ap (λ (x : Net). record x { channels = (next t m.formed c h).channels }) m.frame;
    live = m.live;
    formed =
        change-IsWellFormed t c (marked (goes_back t c)) (marked-KeepsEnds (goes_back t c)) m.formed
          h;
    channels = λ d.
        let e =
          change-channel t c (marked (goes_back t c)) (marked-KeepsEnds (goes_back t c)) m.formed h
            d in
        e ∙ elim (Bool-cases (c == d)) [
          | inr apart ↦ rw apart (m.channels d)
          | inl same ↦
              let f = same-goes_back c ∙ ap (goes_back s) (==→eq c d same) in
              rw (same, f, m.channels d) (again (among d) (goes_back s d) (channel s d))
        ];
  }
    where
      again :
          (on value : Bool) (ch : Channel)
          → marked value (if on then marked value ch else ch) ≡ marked value ch
      again true value ch = refl
      again false value ch = refl

  pub other-Marks : (also : ℕ → Bool) → ((c : ℕ) → among c ≡ also c) → Marks s also t
  other-Marks also e = record {
    frame = m.frame;
    live = m.live;
    formed = m.formed;
    channels = λ c.
        m.channels c
        ∙ ap (λ b. if b then marked (goes_back s c) (channel s c) else channel s c) (e c);
  }

pub each-Marks :
    (s t : Net) (among : ℕ → Bool) (cs : List ℕ)
    → Marks s among t
    → ((c : ℕ) → mem c cs ≡ true → HasChannel s c)
    → (u : Net) × (each back_edge cs t ≡ some (tt, u)) × Marks s (λ d. mem d cs || among d) u
unfolding each mem
each-Marks s t among [] m h = (t, refl, other-Marks s t among m _ (λ c. refl))
each-Marks s t among (c ∷ cs) m h =
    let here : HasChannel t c = ap (mem c) m.live ∙ h c (ground arith) in
    let n = next t m.formed c here in
    let (u, e, k) =
      each-Marks s n (λ d. (c == d) || among d) cs (next-Marks s t among m c here)
        (λ d q. h d (ground (arith, q))) in
    (
      u,
      bind-runs (back_edge c) _ t n tt (back_edge-runs t m.formed c here) ∙ e,
      other-Marks s u _ k _ (λ d. ground arith),
    )
