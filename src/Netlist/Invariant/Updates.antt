-- ===== src/Netlist/Invariant/Updates.antt =====
-- Writing the annotations of a block, a port or a channel keeps a netlist well formed.
use fpt2022_artifact.Common.{ℕ, ◌≡◌, refl, sym, ap, subst, ◌∙◌, false, Option}
use fpt2022_artifact.Common.{none, some, if◌then◌else◌, ◌==◌, arith}
use fpt2022_artifact.Common.Sets.{mem, IsOrdered}
use fpt2022_artifact.Common.Text.{Str}
use fpt2022_artifact.Netlist.Types.{set_error}
use fpt2022_artifact.Slab.{put}
use fpt2022_artifact.Slab.Laws.{put-IsSound, at-put, live-put, length-put}
use fpt2022_artifact.Netlist.Types.{Net, Block, Channel, block_zero, channel_zero}
use fpt2022_artifact.Netlist.Types.{block, port, channel, valid_block, valid_channel}
use fpt2022_artifact.Netlist.Invariant.{IsWellFormed, IsOwned, HasBlock, HasChannel, Joins}
use fpt2022_artifact.Netlist.Invariant.{IsLink, Owns, IsVacant}
use fpt2022_artifact.Netlist.Invariant.Frame.{KeepsOwners, keeps-IsOwned}

-- What an update of a block leaves alone.
pub record KeepsSets (f : Block → Block) : Type 0 where
  pub id : (b : Block) → (f b).id ≡ b.id
  pub all_ports : (b : Block) → (f b).all_ports ≡ b.all_ports
  pub in_ports : (b : Block) → (f b).in_ports ≡ b.in_ports
  pub out_ports : (b : Block) → (f b).out_ports ≡ b.out_ports

module _ (s : Net) (b : ℕ) (f : Block → Block) (keeps : KeepsSets f) (w : IsWellFormed s)
    (h : HasBlock s b) where
  abbrev new : Net
  new = record s { blocks = put b f s.blocks }

  pub update-block : (c : ℕ) → block new c ≡ (if b == c then f (block s c) else block s c)
  update-block c = at-put block_zero Block.next_free b c f s.blocks w.blocks_sound h

  update-live : (c : ℕ) → mem c new.blocks.live ≡ mem c s.blocks.live
  update-live c = ap (mem c) (live-put b f s.blocks)

  update-all : (c : ℕ) → (block new c).all_ports ≡ (block s c).all_ports
  update-all c = ground (arith, update-block c, keeps.all_ports (block s c))

  update-in : (c : ℕ) → (block new c).in_ports ≡ (block s c).in_ports
  update-in c = ground (arith, update-block c, keeps.in_ports (block s c))

  update-out : (c : ℕ) → (block new c).out_ports ≡ (block s c).out_ports
  update-out c = ground (arith, update-block c, keeps.out_ports (block s c))

  update-Owns : (c : ℕ) → Owns s c → Owns new c
  update-Owns c o = record {
    exists = λ q k. o.exists q (ap (mem q) (sym (update-all c)) ∙ k);
    owner = λ q k. o.owner q (ap (mem q) (sym (update-all c)) ∙ k);
    inputs = λ q. ground (arith, update-all c, update-in c, o.inputs q);
    outputs = λ q. ground (arith, update-all c, update-out c, o.outputs q);
  }

  update-block_ids : (c : ℕ) → valid_block new (some c) ≡ mem c new.blocks.live
  unfolding valid_block
  update-block_ids c = ground (
    arith,
    update-block c,
    w.ownership.block_ids c,
    update-live c,
    keeps.id (block s c),
    length-put b f s.blocks,
  )

  update-IsVacant : (c : ℕ) → mem c new.blocks.live ≡ false → IsVacant (block new c)
  update-IsVacant c k =
      let v = w.ownership.vacant c (sym (update-live c) ∙ k) in
      record {
        no_ports = update-all c ∙ v.no_ports;
        no_inputs = update-in c ∙ v.no_inputs;
        no_outputs = update-out c ∙ v.no_outputs;
      }

  update-IsOwned : IsOwned new
  update-IsOwned = record {
    block_ids = update-block_ids;
    port_ids = w.ownership.port_ids;
    removed_ids = w.ownership.removed_ids;
    owned = λ q k. (
      update-live (port s q).block ∙ (w.ownership.owned q k).0,
      ap (mem q) (update-all (port s q).block) ∙ (w.ownership.owned q k).1,
    );
    owns = λ c k. update-Owns c (w.ownership.owns c (sym (update-live c) ∙ k));
    vacant = update-IsVacant;
    ordered = λ c k.
        subst IsOrdered (sym (update-all c)) (w.ownership.ordered c (sym (update-live c) ∙ k));
  }

  update-Joins : (c x y : ℕ) → Joins s c x y → Joins new c x y
  update-Joins c x y j = record {
    src_exists = j.src_exists;
    dst_exists = j.dst_exists;
    src_output = j.src_output;
    dst_input = j.dst_input;
    src_names = j.src_names;
    dst_names = j.dst_names;
  }

  update-IsLink : (q : ℕ) (c : Option ℕ) → IsLink s q c → IsLink new q c
  update-IsLink q none k = tt
  update-IsLink q (some c) k = k

  update-channel_ids : (c : ℕ) → valid_channel new (some c) ≡ mem c new.channels.live
  unfolding valid_channel
  update-channel_ids = w.channel_ids

  -- An update of a block that keeps its identifier and its port sets keeps the netlist well formed.
  pub update-IsWellFormed : IsWellFormed new
  update-IsWellFormed = record {
    blocks_sound = put-IsSound block_zero Block.next_free b f s.blocks h w.blocks_sound;
    ports_sound = w.ports_sound;
    channels_sound = w.channels_sound;
    channel_ids = update-channel_ids;
    joins = λ c k. update-Joins c (channel s c).src (channel s c).dst (w.joins c k);
    links = λ q k. update-IsLink q (port s q).channel (w.links q k);
    ownership = update-IsOwned;
  }

-- What an update of a channel leaves alone.
pub record KeepsEnds (f : Channel → Channel) : Type 0 where
  pub id : (c : Channel) → (f c).id ≡ c.id
  pub src : (c : Channel) → (f c).src ≡ c.src
  pub dst : (c : Channel) → (f c).dst ≡ c.dst

module _ (s : Net) (c : ℕ) (f : Channel → Channel) (keeps : KeepsEnds f) (w : IsWellFormed s)
    (h : HasChannel s c) where
  abbrev changed : Net
  changed = record s { channels = put c f s.channels }

  pub change-channel :
      (d : ℕ) → channel changed d ≡ (if c == d then f (channel s d) else channel s d)
  change-channel d = at-put channel_zero Channel.next_free c d f s.channels w.channels_sound h

  change-live : (d : ℕ) → mem d changed.channels.live ≡ mem d s.channels.live
  change-live d = ap (mem d) (live-put c f s.channels)

  change-src : (d : ℕ) → (channel changed d).src ≡ (channel s d).src
  change-src d = ground (arith, change-channel d, keeps.src (channel s d))

  change-dst : (d : ℕ) → (channel changed d).dst ≡ (channel s d).dst
  change-dst d = ground (arith, change-channel d, keeps.dst (channel s d))

  change-IsLink : (q : ℕ) (d : Option ℕ) → IsLink s q d → IsLink changed q d
  change-IsLink q none k = tt
  change-IsLink q (some d) k =
      (change-live d ∙ k.0, ground (arith, k.1, change-src d, change-dst d))

  change-channel_ids : (d : ℕ) → valid_channel changed (some d) ≡ mem d changed.channels.live
  unfolding valid_channel
  change-channel_ids d = ground (
    arith,
    change-channel d,
    w.channel_ids d,
    change-live d,
    keeps.id (channel s d),
    length-put c f s.channels,
  )

  change-Joins : (d x y : ℕ) → Joins s d x y → Joins changed d x y
  change-Joins d x y j = record {
    src_exists = j.src_exists;
    dst_exists = j.dst_exists;
    src_output = j.src_output;
    dst_input = j.dst_input;
    src_names = j.src_names;
    dst_names = j.dst_names;
  }

  change-KeepsOwners : KeepsOwners s changed
  change-KeepsOwners = record {
    blocks = refl;
    ports_live = refl;
    ports_length = refl;
    same_block = λ q. refl;
    same_input = λ q. refl;
    same_id = λ q. refl;
  }

  -- An update of a channel that keeps its identifier and its ends keeps the netlist well formed.
  pub change-IsWellFormed : IsWellFormed changed
  change-IsWellFormed = record {
    blocks_sound = w.blocks_sound;
    ports_sound = w.ports_sound;
    channels_sound = put-IsSound channel_zero Channel.next_free c f s.channels h w.channels_sound;
    channel_ids = change-channel_ids;
    joins = λ d k. rw (change-src d) (
        rw (change-dst d) (
          change-Joins d (channel s d).src (channel s d).dst
            (w.joins d (sym (change-live d) ∙ k))));
    links = λ q k. change-IsLink q (port s q).channel (w.links q k);
    ownership = keeps-IsOwned s changed w.ownership change-KeepsOwners;
  }

-- The error message is no part of the structure.
module _ (s : Net) (err : Str) (w : IsWellFormed s) where
  abbrev failed : Net
  failed = set_error err s

  failed-Joins : (c x y : ℕ) → Joins s c x y → Joins failed c x y
  unfolding set_error
  failed-Joins c x y j = record {
    src_exists = j.src_exists;
    dst_exists = j.dst_exists;
    src_output = j.src_output;
    dst_input = j.dst_input;
    src_names = j.src_names;
    dst_names = j.dst_names;
  }

  failed-IsLink : (q : ℕ) (c : Option ℕ) → IsLink s q c → IsLink failed q c
  unfolding set_error
  failed-IsLink q none k = tt
  failed-IsLink q (some c) k = k

  failed-KeepsOwners : KeepsOwners s failed
  unfolding set_error
  failed-KeepsOwners = record {
    blocks = refl;
    ports_live = refl;
    ports_length = refl;
    same_block = λ q. refl;
    same_input = λ q. refl;
    same_id = λ q. refl;
  }

  pub set_error-IsWellFormed : IsWellFormed failed
  unfolding set_error valid_channel
  set_error-IsWellFormed = record {
    blocks_sound = w.blocks_sound;
    ports_sound = w.ports_sound;
    channels_sound = w.channels_sound;
    channel_ids = w.channel_ids;
    joins = λ c k. failed-Joins c (channel s c).src (channel s c).dst (w.joins c k);
    links = λ q k. failed-IsLink q (port s q).channel (w.links q k);
    ownership = keeps-IsOwned s failed w.ownership failed-KeepsOwners;
  }
