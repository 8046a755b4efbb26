-- ===== src/StringUtils/Split.antt =====
-- What `string_split`, `string_clean` and `stripExtension` make (dot2vhdl/src/string_utils.cpp).
use fpt2022_artifact.Common.{ℕ, zero, suc, ◌≤◌, ◌<◌, ◌≡◌, refl, sym, ap, ◌∙◌, arith}
use fpt2022_artifact.Common.{Bool, true, false, not, ◌&&◌, ◌||◌, Bool-cases, inl, inr, ==→eq}
use fpt2022_artifact.Common.{Option, none, some, List, [], ◌∷◌, ◌++◌, length, if◌then◌else◌, ◌==◌}
use fpt2022_artifact.Common.Sets.{mem}
use fpt2022_artifact.Common.Text.{Str}
use fpt2022_artifact.StringUtils.{
  cut_at, split_rest, string_split, remove_char, string_clean, drop_prefix, before_last,
  strip_extension,
}

-- The parts with the separator between them.
abbrev behind : ℕ → List Str → Str
behind c [] = []
behind c (p ∷ ps) = c ∷ p ++ behind c ps

abbrev pub joined : ℕ → List Str → Str
joined c [] = []
joined c (p ∷ ps) = p ++ behind c ps

abbrev pub AllWithout : ℕ → List Str → Type 0
AllWithout c [] = Unit
AllWithout c (p ∷ ps) = (mem c p ≡ false) × AllWithout c ps

-- What the search for a separator answers.
abbrev Divided : ℕ → Str → Option (Str × Str) → Type 0
Divided c s none = mem c s ≡ false
Divided c s (some (p, q)) = (s ≡ p ++ c ∷ q) × (mem c p ≡ false) × (length q < length s)

cut_at-Divided : (c : ℕ) (s : Str) → Divided c s (cut_at c s)
unfolding cut_at mem
cut_at-Divided c [] = refl
cut_at-Divided c (x ∷ s) = elim (Bool-cases (x == c)) [
  | inl same ↦ rw same (ap (λ y. y ∷ s) (==→eq x c same), refl, omega arith)
  | inr apart ↦ rw apart (later (cut_at c s) (cut_at-Divided c s) apart)
]
  where
    later :
        (o : Option (Str × Str))
        → Divided c s o
        → (x == c) ≡ false
        → Divided c (x ∷ s) (elim o [ none ↦ none | some (p, q) ↦ some (x ∷ p, q) ])
    later none d apart = ground (arith, d, apart)
    later (some (p, q)) d apart =
        (ap (λ t. x ∷ t) d.0, ground (arith, d.1, apart), omega (arith, d.2))

append-[] : (s : Str) → s ++ [] ≡ s
append-[] [] = refl
append-[] (x ∷ s) = ap (λ t. x ∷ t) (append-[] s)

-- What the loop makes of the text behind a separator.
abbrev Splits : ℕ → Str → List Str → Type 0
Splits c s parts = (behind c parts ≡ c ∷ s) × AllWithout c parts

mem-middle : (c : ℕ) (a b : Str) → mem c (a ++ c ∷ b) ≡ true
unfolding mem
mem-middle c [] b = ground arith
mem-middle c (x ∷ a) b = ground (arith, mem-middle c a b)

-- One round, given what the rounds behind it make.
module _ (fuel c : ℕ) (s : Str) (h : length s ≤ suc fuel) (m : mem c s ≡ true)
    (again : (q : Str) → length q ≤ fuel → mem c q ≡ true → Splits c q (split_rest fuel c q)) where
  after_part :
      (p q : Str)
      → Divided c s (some (p, q))
      → (o : Option (Str × Str)) → Divided c q o
      → Splits c s (elim o [ none ↦ p ∷ q ∷ [] | some found ↦ p ∷ split_rest fuel c q ])
  after_part p q d none n =
      (ap (λ t. c ∷ t) (ap (λ t. p ++ c ∷ t) (append-[] q) ∙ sym d.0), (d.1, (n, tt)))
  after_part p q d (some (a, b)) e =
      let more = again q (omega (arith, h, d.2)) (ap (mem c) e.0 ∙ mem-middle c a b) in
      (ap (λ t. c ∷ t) (ap (λ t. p ++ t) more.0 ∙ sym d.0), (d.1, more.1))

  one_round :
      (o : Option (Str × Str))
      → Divided c s o
      → Splits c s (elim o [
        | none ↦ []
        | some (p, q) ↦ elim (cut_at c q) [
          | none ↦ p ∷ q ∷ []
          | some found ↦ p ∷ split_rest fuel c q
        ]
      ])
  one_round none d = absurd (ground (arith, d, m))
  one_round (some (p, q)) d = after_part p q d (cut_at c q) (cut_at-Divided c q)

split_rest-Splits :
    (fuel c : ℕ) (s : Str) → length s ≤ fuel → mem c s ≡ true → Splits c s (split_rest fuel c s)
unfolding split_rest mem
split_rest-Splits zero c [] h m = absurd (ground (arith, m))
split_rest-Splits zero c (x ∷ s) h m = absurd (omega (arith, h))
split_rest-Splits (suc fuel) c s h m =
    one_round fuel c s h m (λ q k n. split_rest-Splits fuel c q k n) (cut_at c s)
      (cut_at-Divided c s)

-- Without a separator there is no part.
split_rest-none : (fuel c : ℕ) (s : Str) → mem c s ≡ false → split_rest fuel c s ≡ []
unfolding split_rest
split_rest-none zero c s m = refl
split_rest-none (suc fuel) c s m = nothing (cut_at c s) (cut_at-Divided c s)
  where
    nothing :
        (o : Option (Str × Str))
        → Divided c s o
        → (elim o [
          | none ↦ []
          | some (p, q) ↦ elim (cut_at c q) [
            | none ↦ p ∷ q ∷ []
            | some found ↦ p ∷ split_rest fuel c q
          ]
        ])
          ≡ []
    nothing none d = refl
    nothing (some (p, q)) d = absurd (ground (arith, ap (mem c) d.0, mem-middle c p q, m))

-- `string_split` of a text with the separator into an empty vector gives parts without the separator,
-- and the parts with one separator between any two are the text again; a text without the separator
-- gives no part at all, not even itself.
pub string_split-joined :
    (s : Str) (c : ℕ)
    → (mem c s ≡ true → (joined c (string_split s c []) ≡ s) × AllWithout c (string_split s c []))
      × (mem c s ≡ false → string_split s c [] ≡ [])
unfolding string_split
string_split-joined s c = (
  λ m.
      let p = split_rest-Splits (length s) c s (omega arith) m in
      (unbehind (split_rest (length s) c s) p.0, p.1),
  λ m. split_rest-none (length s) c s m,
)
  where
    unbehind : (ps : List Str) → behind c ps ≡ c ∷ s → joined c ps ≡ s
    unbehind [] e = cc
    unbehind (p ∷ ps) e = cc

-- The characters that pass a test, in order.
abbrev pub keep : (ℕ → Bool) → Str → Str
keep f [] = []
keep f (x ∷ s) = if f x then x ∷ keep f s else keep f s

remove_char-keep :
    (c : ℕ) (f : ℕ → Bool) (s : Str) → remove_char c (keep f s) ≡ keep (λ x. f x && not (x == c)) s
unfolding remove_char
remove_char-keep c f [] = refl
remove_char-keep c f (x ∷ s) = ground (arith, remove_char-keep c f s)

keep-all : (s : Str) → s ≡ keep (λ x. true) s
keep-all [] = refl
keep-all (x ∷ s) = ap (λ t. x ∷ t) (keep-all s)

-- Tab, space, quote, `]` and `;`.
abbrev pub is_dirt : ℕ → Bool
is_dirt x = (x == 9) || (x == b' ') || (x == b'"') || (x == b']') || (x == b';')

keep-same : (f g : ℕ → Bool) → ((x : ℕ) → f x ≡ g x) → (s : Str) → keep f s ≡ keep g s
keep-same f g e [] = refl
keep-same f g e (x ∷ s) = ground (arith, e x, keep-same f g e s)

-- `string_clean` keeps, in order, exactly the characters that are not a tab, a space, a quote, `]` or
-- `;`.
pub string_clean-keep : (s : Str) → string_clean s ≡ keep (λ x. not (is_dirt x)) s
string_clean-keep s =
    let f1 : ℕ → Bool = λ x. true && not (x == 9) in
    let f2 : ℕ → Bool = λ x. f1 x && not (x == b' ') in
    let f3 : ℕ → Bool = λ x. f2 x && not (x == b'"') in
    let f4 : ℕ → Bool = λ x. f3 x && not (x == b']') in
    let f5 : ℕ → Bool = λ x. f4 x && not (x == b';') in
    let e1 = ap (remove_char 9) (keep-all s) ∙ remove_char-keep 9 (λ x. true) s in
    let e2 = ap (remove_char b' ') e1 ∙ remove_char-keep b' ' f1 s in
    let e3 = ap (remove_char b'"') e2 ∙ remove_char-keep b'"' f2 s in
    let e4 = ap (remove_char b']') e3 ∙ remove_char-keep b']' f3 s in
    ap (remove_char b';') e4
    ∙ (remove_char-keep b';' f4 s ∙ keep-same f5 (λ x. not (is_dirt x)) (λ x. ground arith) s)

drop_prefix_self : (t : Str) → drop_prefix t t ≡ some []
unfolding drop_prefix
drop_prefix_self [] = refl
drop_prefix_self (x ∷ t) = ground (arith, drop_prefix_self t)

drop_prefix-short : (t s : Str) → length s < length t → drop_prefix t s ≡ none
unfolding drop_prefix
drop_prefix-short [] s h = absurd (omega (arith, h))
drop_prefix-short (y ∷ t) [] h = refl
drop_prefix-short (y ∷ t) (x ∷ s) h = ground (arith, drop_prefix-short t s (omega (arith, h)))

before_last-short : (t s : Str) → length s < length t → before_last t s ≡ none
unfolding before_last
before_last-short t [] h = rw (drop_prefix-short t [] h, before_last) refl
before_last-short t (x ∷ s) h =
    rw (before_last-short t s (omega (arith, h)), drop_prefix-short t (x ∷ s) h) refl

before_last-append : (b t : Str) → before_last t (b ++ t) ≡ some b
unfolding before_last drop_prefix
before_last-append [] [] = refl
before_last-append [] (x ∷ t) =
    rw (before_last-short (x ∷ t) t (omega arith), drop_prefix_self (x ∷ t)) refl
before_last-append (y ∷ b) t = rw (before_last-append b t) refl

-- `stripExtension` takes the extension off a text that ends with it, whatever stands before.
pub strip_extension-append :
    (base extension : Str) → strip_extension (base ++ extension) extension ≡ base
unfolding strip_extension
strip_extension-append base extension =
    ap (λ r. elim r [ none ↦ base ++ extension | some r ↦ r ]) (before_last-append base extension)
