-- ===== src/Slab/Laws.antt =====
-- Allocation and release keep a slot vector sound, and act on the live objects as a finite map.
use fpt2022_artifact.Common.{ℕ, zero, suc, ◌≡◌, refl, ◌∙◌, ap, true, false}
use fpt2022_artifact.Common.{◌&&◌, ◌||◌, Option, none, List, [], ◌∷◌, ◌++◌, length, get_or}
use fpt2022_artifact.Common.{modify, length-append, length-modify, get_or-modify, get_or-append}
use fpt2022_artifact.Common.{ltb, ◌==◌, if◌then◌else◌, arith, ◌<◌}
use fpt2022_artifact.Common.Sets.{
  mem, insert, erase, mem-insert, mem-erase, IsOrdered, insert-IsOrdered, erase-IsOrdered,
}
use fpt2022_artifact.Slab.{Slab, at, alloc, put, release, IsDistinct, Chain, IsSound}

module _ {ℓ} {A : Type ℓ} (d : A) (next : A → Option ℕ) where
  Chain-modify :
      (xs : List A) (i : ℕ) (f : A → A) (head : Option ℕ) (is : List ℕ)
      → mem i is ≡ false
      → Chain d next xs head is
      → Chain d next (modify xs i f) head is
  unfolding mem
  Chain-modify xs i f head [] out c = c
  Chain-modify xs i f head (j ∷ is) out c =
      let same : get_or (modify xs i f) j d ≡ get_or xs j d =
        get_or-modify xs i j f d ∙ ground arith in
      (c.0, rw same (Chain-modify xs i f (next (get_or xs j d)) is (ground arith) c.1))

  Chain-append :
      (xs : List A) (y : A) (head : Option ℕ) (is : List ℕ)
      → mem (length xs) is ≡ false
      → Chain d next xs head is
      → Chain d next (xs ++ y ∷ []) head is
  unfolding mem
  Chain-append xs y head [] out c = c
  Chain-append xs y head (j ∷ is) out c =
      let same : get_or (xs ++ y ∷ []) j d ≡ get_or xs j d =
        get_or-append xs j y d ∙ ground arith in
      (c.0, rw same (Chain-append xs y (next (get_or xs j d)) is (ground arith) c.1))

  -- An update of an object that exists keeps the vector sound.
  pub put-IsSound :
      (i : ℕ) (f : A → A) (s : Slab A)
      → mem i s.live ≡ true
      → IsSound d next s
      → IsSound d next (put i f s)
  unfolding put
  put-IsSound i f s here w = record {
    chain = w.chain;
    linked = Chain-modify s.slots i f s.free w.chain (ground (arith, w.apart i)) w.linked;
    distinct = w.distinct;
    cover = λ j. rw (length-modify s.slots i f) (w.cover j);
    apart = w.apart;
    sorted = w.sorted;
  }

  -- Releasing an object that exists keeps the vector sound, if the reset writes the link.
  pub release-IsSound :
      (i : ℕ) (reset : Option ℕ → A → A) (s : Slab A)
      → ((link : Option ℕ) (a : A) → next (reset link a) ≡ link)
      → mem i s.live ≡ true
      → IsSound d next s
      → IsSound d next (release i reset s)
  unfolding release mem
  release-IsSound i reset s links here w =
      let old : get_or (modify s.slots i (reset s.free)) i d ≡ reset s.free (get_or s.slots i d) =
        get_or-modify s.slots i i (reset s.free) d ∙ ground (arith, w.cover i) in
      let link : next (get_or (modify s.slots i (reset s.free)) i d) ≡ s.free =
        ap next old ∙ links s.free (get_or s.slots i d) in
      record {
        chain = i ∷ w.chain;
        linked = (
          refl,
          rw link (
              Chain-modify s.slots i (reset s.free) s.free w.chain (ground (arith, w.apart i))
                w.linked),
        );
        distinct = (ground (arith, w.apart i), w.distinct);
        cover = λ j. ground (
          arith,
          w.cover j,
          w.cover i,
          w.apart i,
          mem-erase i j s.live,
          length-modify s.slots i (reset s.free),
        );
        apart = λ j. ground (arith, w.apart j, mem-erase i j s.live);
        sorted = erase-IsOrdered i s.live w.sorted;
      }

  recycled-IsSound :
      (i : ℕ) (s : Slab A) (is : List ℕ)
      → Chain d next s.slots s.free (i ∷ is)
      → IsDistinct (i ∷ is)
      → ((j : ℕ) → (mem j s.live || mem j (i ∷ is)) ≡ ltb j (length s.slots))
      → ((j : ℕ) → (mem j s.live && mem j (i ∷ is)) ≡ false)
      → IsOrdered s.live
      → IsSound d next (record s { free = next (get_or s.slots i d); live = insert i s.live })
  unfolding mem
  recycled-IsSound i s is links fresh cover apart sorted = record {
    chain = is;
    linked = links.1;
    distinct = fresh.1;
    cover = λ j. ground (arith, cover j, cover i, mem-insert i j s.live);
    apart = λ j. ground (arith, apart j, fresh.0, mem-insert i j s.live);
    sorted = insert-IsOrdered i s.live sorted;
  }

  appended-IsSound :
      (s : Slab A)
      → s.free ≡ none
      → IsSound d next s
      → IsSound d next
          (record s { slots = s.slots ++ d ∷ []; live = insert (length s.slots) s.live })
  appended-IsSound s e w = record {
    chain = w.chain;
    linked =
        Chain-append s.slots d s.free w.chain (ground (arith, w.cover (length s.slots))) w.linked;
    distinct = w.distinct;
    cover = λ j.
        ground
          (arith, w.cover j, mem-insert (length s.slots) j s.live, length-append s.slots (d ∷ []));
    apart = λ j.
        ground (arith, w.apart j, w.cover (length s.slots), mem-insert (length s.slots) j s.live);
    sorted = insert-IsOrdered (length s.slots) s.live w.sorted;
  }

  get_or-beyond : (xs : List A) (i : ℕ) (e : A) → ltb i (length xs) ≡ false → get_or xs i e ≡ e
  unfolding get_or
  get_or-beyond [] i e h = refl
  get_or-beyond (x ∷ xs) zero e h = ground arith
  get_or-beyond (x ∷ xs) (suc i) e h = get_or-beyond xs i e (ground arith)

  -- What an allocation hands out: a slot that held no object and is in range afterwards, over a
  -- sound vector in which the slot is the only new object.
  pub record Allocates (s : Slab A) (r : ℕ × Slab A) : Type ℓ where
    pub sound : IsSound d next r.1
    pub vacant : mem r.0 s.live ≡ false
    pub live : r.1.live ≡ insert r.0 s.live
    -- No slot is written.
    pub keeps : (j : ℕ) → at d r.1 j ≡ at d s j
    pub range : (j : ℕ) → (r.0 == j) ≡ false → ltb j (length r.1.slots) ≡ ltb j (length s.slots)

  recycled-Allocates :
      (i : ℕ) (s : Slab A) (is : List ℕ)
      → Chain d next s.slots s.free (i ∷ is)
      → IsDistinct (i ∷ is)
      → ((j : ℕ) → (mem j s.live || mem j (i ∷ is)) ≡ ltb j (length s.slots))
      → ((j : ℕ) → (mem j s.live && mem j (i ∷ is)) ≡ false)
      → IsOrdered s.live
      → Allocates s (alloc d next s)
  unfolding alloc at mem
  recycled-Allocates i s is links fresh cover apart sorted = rw links.0 (record {
    sound = recycled-IsSound i s is links fresh cover apart sorted;
    vacant = ground (arith, apart i);
    live = refl;
    keeps = λ j. refl;
    range = λ j other. refl;
  })

  appended-Allocates :
      (s : Slab A) → s.free ≡ none → IsSound d next s → Allocates s (alloc d next s)
  unfolding alloc at
  appended-Allocates s e w = rw e (record {
    sound = rw e at (appended-IsSound s e w);
    vacant = ground (arith, w.cover (length s.slots));
    live = refl;
    keeps = λ j. get_or-append s.slots j d d ∙ ground (arith, get_or-beyond s.slots j d);
    range = λ j other. ground (arith, length-append s.slots (d ∷ []));
  })

  pub alloc-Allocates : (s : Slab A) → IsSound d next s → Allocates s (alloc d next s)
  alloc-Allocates s w = go w.chain w.linked w.distinct w.cover w.apart w.sorted
    where
      go :
          (is : List ℕ)
          → Chain d next s.slots s.free is
          → IsDistinct is
          → ((j : ℕ) → (mem j s.live || mem j is) ≡ ltb j (length s.slots))
          → ((j : ℕ) → (mem j s.live && mem j is) ≡ false)
          → IsOrdered s.live
          → Allocates s (alloc d next s)
      go [] links fresh cover apart sorted = appended-Allocates s links w
      go (i ∷ is) links fresh cover apart sorted =
          recycled-Allocates i s is links fresh cover apart sorted

  -- Identifiers that exist are in range.
  pub live-lt : (s : Slab A) (i : ℕ) → IsSound d next s → mem i s.live ≡ true → i < length s.slots
  live-lt s i w here = ground (arith, w.cover i)

  -- An update is read back at its object, and nowhere else.
  pub at-put :
      (i j : ℕ) (f : A → A) (s : Slab A)
      → IsSound d next s
      → mem i s.live ≡ true
      → at d (put i f s) j ≡ (if i == j then f (at d s j) else at d s j)
  unfolding at put
  at-put i j f s w here = get_or-modify s.slots i j f d ∙ ground (arith, w.cover i)

  pub at-release :
      (i j : ℕ) (reset : Option ℕ → A → A) (s : Slab A)
      → IsSound d next s
      → mem i s.live ≡ true
      → at d (release i reset s) j ≡ (if i == j then reset s.free (at d s j) else at d s j)
  unfolding at release
  at-release i j reset s w here =
      get_or-modify s.slots i j (reset s.free) d ∙ ground (arith, w.cover i)

  -- Slots are recycled last in, first out: the next allocation reuses the slot just released.
  pub alloc-release :
      (i : ℕ) (reset : Option ℕ → A → A) (s : Slab A) → (alloc d next (release i reset s)).0 ≡ i
  unfolding alloc release
  alloc-release i reset s = refl

module _ {ℓ} {A : Type ℓ} where
  pub length-put : (i : ℕ) (f : A → A) (s : Slab A) → length (put i f s).slots ≡ length s.slots
  unfolding put
  length-put i f s = length-modify s.slots i f

  pub live-put : (i : ℕ) (f : A → A) (s : Slab A) → (put i f s).live ≡ s.live
  unfolding put
  live-put i f s = refl

  pub length-release :
      (i : ℕ) (reset : Option ℕ → A → A) (s : Slab A)
      → length (release i reset s).slots ≡ length s.slots
  unfolding release
  length-release i reset s = length-modify s.slots i (reset s.free)

  pub live-release :
      (i : ℕ) (reset : Option ℕ → A → A) (s : Slab A) → (release i reset s).live ≡ erase i s.live
  unfolding release
  live-release i reset s = refl
