-- ===== src/Slab.antt =====
-- The slot vectors of `DFnetlist_Impl` (Buffers/src/DFnetlist.h and DFnetlist.cpp). Blocks, ports
-- and channels are kept in three vectors that recycle their slots: a removed object stays in its
-- slot, whose `nextFree` field links it into a list of free slots, and a `std::set` names the
-- objects that exist. The three copies of this scheme are modelled once, over the element type.
pub mod Laws
use fpt2022_artifact.Common.{
  ℕ, ◌+◌, ◌≡◌, Bool, ◌&&◌, ◌||◌, false, Option, none, some, List, [], ◌∷◌,
}
use fpt2022_artifact.Common.{◌++◌, length, get_or, modify, ltb}
use fpt2022_artifact.Common.Sets.{mem, insert, erase, IsOrdered}

pub record Slab {ℓ} (A : Type ℓ) : Type ℓ where
  pub slots : List A
  -- The first free slot, or `none` for -1.
  pub free : Option ℕ
  -- The identifiers that exist.
  pub live : List ℕ

module _ {ℓ} {A : Type ℓ} where
  -- `vector[i]`; `d` is read out of range.
  unfoldable pub at : A → Slab A → ℕ → A
  at d s i = get_or s.slots i d

  -- Take the first free slot, or append a value-initialised one (`d`).
  unfoldable pub alloc : A → (A → Option ℕ) → Slab A → ℕ × Slab A
  alloc d next s = elim s.free [
    | some i ↦ (i, record s { free = next (at d s i); live = insert i s.live })
    | none ↦ (
      length s.slots,
      record s { slots = s.slots ++ d ∷ []; live = insert (length s.slots) s.live },
    )
  ]

  -- Update the object in a slot.
  unfoldable pub put : ℕ → (A → A) → Slab A → Slab A
  put i f s = record s { slots = modify s.slots i f }

  -- Reset the slot, with the link to the former head of the free list, and put it in front.
  unfoldable pub release : ℕ → (Option ℕ → A → A) → Slab A → Slab A
  release i reset s = record {
    slots = modify s.slots i (reset s.free);
    free = some i;
    live = erase i s.live;
  }

abbrev pub empty_slab {ℓ} : {A : Type ℓ} → Slab A
empty_slab = record { slots = []; free = none; live = [] }

-- No identifier occurs twice.
abbrev pub IsDistinct : List ℕ → Type 0
IsDistinct [] = Unit
IsDistinct (i ∷ is) = (mem i is ≡ false) × IsDistinct is

module _ {ℓ} {A : Type ℓ} (d : A) (next : A → Option ℕ) where
  -- `chain` is the list that the `nextFree` links spell from `head`.
  abbrev pub Chain : List A → Option ℕ → List ℕ → Type 0
  Chain xs head [] = head ≡ none
  Chain xs head (i ∷ is) = (head ≡ some i) × Chain xs (next (get_or xs i d)) is

  -- Every slot is either live or on the free list, no slot is both or twice on the list, and the live
  -- ones are in order.
  pub record IsSound (s : Slab A) : Type ℓ where
    pub chain : List ℕ
    pub linked : Chain s.slots s.free chain
    pub distinct : IsDistinct chain
    pub cover : (i : ℕ) → (mem i s.live || mem i chain) ≡ ltb i (length s.slots)
    pub apart : (i : ℕ) → (mem i s.live && mem i chain) ≡ false
    pub sorted : IsOrdered s.live
