-- ===== src/StringUtils/Erase.antt =====
-- `eraseAllSubStr` ends and leaves no occurrence (dot2vhdl/src/string_utils.cpp).
use fpt2022_artifact.Common.{ℕ, zero, suc, ◌+◌, ◌<◌, ◌≡◌, refl, sym, ap, ◌∙◌, arith}
use fpt2022_artifact.Common.{Bool-cases, inl, inr, ==→eq, ◌==◌}
use fpt2022_artifact.Common.{Option, none, some, [], ◌∷◌, ◌++◌, length, length-append, subst}
use fpt2022_artifact.Common.Text.{Str}
use fpt2022_artifact.StringUtils.{drop_prefix, erase_first, erase_rounds, erase_all_sub_str}

-- A text that occurs in another one.
pub record Occurs (t s : Str) : Type 0 where
  pub left : Str
  pub right : Str
  pub whole : s ≡ left ++ t ++ right

drop_prefix-append : (t s : Str) → drop_prefix t (t ++ s) ≡ some s
unfolding drop_prefix
drop_prefix-append [] s = refl
drop_prefix-append (x ∷ t) s = ground (arith, drop_prefix-append t s)

drop_prefix-whole : (t s r : Str) → drop_prefix t s ≡ some r → s ≡ t ++ r
unfolding drop_prefix
drop_prefix-whole [] s r e = cc
drop_prefix-whole (x ∷ t) [] r e = cc
drop_prefix-whole (x ∷ t) (y ∷ s) r e = elim (Bool-cases (x == y)) [
  | inl same ↦
      let rest : drop_prefix t s ≡ some r = ground (arith, e, same) in
      ap (λ z. z ∷ s) (sym (==→eq x y same)) ∙ ap (λ q. x ∷ q) (drop_prefix-whole t s r rest)
  | inr apart ↦ absurd (ground (arith, e, apart))
]

-- What the search for an occurrence answers: none, or the two sides of one.
abbrev Erased : Str → Str → Option Str → Type 0
Erased t s none = Occurs t s → ⊥
Erased t s (some r) = (a : Str) × (b : Str) × (s ≡ a ++ t ++ b) × (r ≡ a ++ b)

-- An occurrence is at the front or behind it.
no_occurrence :
    (t s left right : Str)
    → drop_prefix t s ≡ none
    → ((left' : Str) (x : ℕ) (s' : Str) → s ≡ x ∷ s' → s' ≡ left' ++ t ++ right → ⊥)
    → s ≡ left ++ t ++ right
    → ⊥
no_occurrence t s [] right e later whole = absurd (
    let found : drop_prefix t s ≡ some right =
      ap (drop_prefix t) whole ∙ drop_prefix-append t right in
    let bad : Option.none ≡ some right = sym e ∙ found in cc)
no_occurrence t s (x ∷ left) right e later whole = later left x (left ++ t ++ right) whole refl

erase_first-Erased : (t s : Str) → Erased t s (erase_first t s)
unfolding erase_first
erase_first-Erased t [] = only (drop_prefix t []) refl
  where
    only : (o : Option Str) → drop_prefix t [] ≡ o → Erased t [] o
    only none e = λ k. no_occurrence t [] k.left k.right e (λ left x s f g. absurd (cc)) k.whole
    only (some r) e = ([], r, drop_prefix-whole t [] r e, refl)
erase_first-Erased t (x ∷ s) =
    either (drop_prefix t (x ∷ s)) refl (erase_first t s) (erase_first-Erased t s)
  where
    either :
        (o : Option Str)
        → drop_prefix t (x ∷ s) ≡ o
        → (q : Option Str) → Erased t s q
        → Erased t
            (x ∷ s)
            (elim o [ some r ↦ some r | none ↦ elim q [ none ↦ none | some r ↦ some (x ∷ r) ] ])
    either (some r) e q d = ([], r, drop_prefix-whole t (x ∷ s) r e, refl)
    either none e none d = λ k.
        no_occurrence t (x ∷ s) k.left k.right e
          (λ left y u f g. d (record { left = left; right = k.right; whole = tail_eq y u f ∙ g }))
          k.whole
      where
        tail_eq : (y : ℕ) (u : Str) → x ∷ s ≡ y ∷ u → s ≡ u
        tail_eq y u f = cc
    either none e (some r) d = (x ∷ d.0, d.1, ap (λ q. x ∷ q) d.2, ap (λ q. x ∷ q) d.3)

-- Taking occurrences away, one after another.
pub data Removal (t : Str) : Str → Str → Type 0 where
  finished : (s : Str) → Removal t s s
  removed : (a b r : Str) → Removal t (a ++ b) r → Removal t (a ++ t ++ b) r

-- What the loop answers.
pub record ErasesAll (t s : Str) (o : Option Str) : Type 0 where
  pub rest : Str
  pub runs : o ≡ some rest
  pub clear : Occurs t rest → ⊥
  pub removal : Removal t s rest

erase_rounds-ErasesAll :
    (fuel : ℕ) (s t : Str) → 0 < length t → length s < fuel → ErasesAll t s (erase_rounds fuel s t)
unfolding erase_rounds
erase_rounds-ErasesAll zero s t h lt = absurd (omega (arith, lt))
erase_rounds-ErasesAll (suc fuel) s t h lt =
    round (erase_first t s) (erase_first-Erased t s) (λ q k. erase_rounds-ErasesAll fuel q t h k)
  where
    round :
        (o : Option Str)
        → Erased t s o
        → ((q : Str) → length q < fuel → ErasesAll t q (erase_rounds fuel q t))
        → ErasesAll t s (elim o [ none ↦ some s | some r ↦ erase_rounds fuel r t ])
    round none d again = record { rest = s; runs = refl; clear = d; removal = finished s }
    round (some r) (a, b, e, f) again =
        let long : length s ≡ length a + length t + length b =
          ap length e ∙ (length-append (a ++ t) b ∙ ap (λ n. n + length b) (length-append a t)) in
        let short : length r ≡ length a + length b = ap length f ∙ length-append a b in
        let shorter : length r < fuel = omega (arith, h, lt, long, short) in
        let n = again r shorter in
        record {
          rest = n.rest;
          runs = n.runs;
          clear = n.clear;
          removal =
              subst (λ x. Removal t x n.rest) (sym e)
                (removed a b n.rest (subst (λ x. Removal t x n.rest) f n.removal));
        }

-- `eraseAllSubStr` with a text that is not empty ends; it takes occurrences of the text away, one after
-- another, until none is left, also none that an earlier removal made.
pub erase_all_sub_str-ErasesAll : (s t : Str) → 0 < length t → ErasesAll t s (erase_all_sub_str s t)
unfolding erase_all_sub_str
erase_all_sub_str-ErasesAll s t h = erase_rounds-ErasesAll (suc (length s)) s t h (omega arith)
