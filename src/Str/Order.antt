-- ===== src/Str/Order.antt =====
-- `strcmp` against the lexicographic order of strings of signed characters.
use quaros.Base.{
  ℕ, ◌<◌, ◌≤◌, ◌≡◌, ◌⊎◌, inl, inr, refl, ap₂, sym, some, List, [], ◌∷◌, length, arith, ◌==◌,
  Bool-cases, ltb, subst, ◌∙◌, if◌then◌else◌, ◌+◌,
}
use quaros.Ram.{Mem}
use quaros.Str.{Sign, below, same, above, strcmp, strcmp_end, char_rank}
use quaros.Str.Text.{Text, strcmp-strcmp_str}
use quaros.Fs.{strcmp_str}
use quaros.Fs.Names.{IsStr}

-- The order of signed characters, given by their bytes: those from 128 on are negative.
abbrev pub CharLess : ℕ → ℕ → Type 0
CharLess a b = ((128 ≤ a) × (b < 128)) ⊎ ((a < b) × ((b < 128) ⊎ (128 ≤ a)))

-- `s` is before `t`: at the first place where they differ it has the smaller character. A string ends
-- with the character 0.
pub data Before : List ℕ → List ℕ → Type 0 where
  ends : {b : ℕ} {t : List ℕ} → CharLess 0 b → Before [] (b ∷ t)
  goes_on : {a : ℕ} {s : List ℕ} → CharLess a 0 → Before (a ∷ s) []
  differs : {a b : ℕ} {s t : List ℕ} → CharLess a b → Before (a ∷ s) (b ∷ t)
  later : {a : ℕ} {s t : List ℕ} → Before s t → Before (a ∷ s) (a ∷ t)

-- What the results -1, 0 and 1 say of two strings.
abbrev pub Says : Sign → List ℕ → List ℕ → Type 0
Says below s t = Before s t
Says same s t = s ≡ t
Says above s t = Before t s

Says-later : (r : Sign) (a : ℕ) (s t : List ℕ) → Says r s t → Says r (a ∷ s) (a ∷ t)
Says-later below a s t h = later h
Says-later same a s t h = ap₂ ◌∷◌ refl h
Says-later above a s t h = later h

-- Two characters that differ.
end-Says :
    (a b : ℕ)
    → a < 256
    → b < 256
    → (a ≡ b → ⊥)
    → ((strcmp_end a b ≡ below) × CharLess a b) ⊎ ((strcmp_end a b ≡ above) × CharLess b a)
end-Says a b ha hb ne = elim (Bool-cases (ltb (char_rank b) (char_rank a))) [
  | inl over ↦ inr (ground arith, ground arith)
  | inr under ↦ inl (ground arith, ground arith)
]

cons-Says :
    (r : Sign) (a b : ℕ) (s t : List ℕ)
    → a < 256
    → b < 256
    → Says r s t
    → Says (if a == b then r else strcmp_end a b) (a ∷ s) (b ∷ t)
cons-Says r a b s t ha hb h = elim (Bool-cases (a == b)) [
  | inl eq ↦
      let same_char : a ≡ b = ground arith in
      let value : (if a == b then r else strcmp_end a b) ≡ r = ground arith in
      subst (λ x. Says x (a ∷ s) (b ∷ t)) (sym value)
        (subst (λ y. Says r (a ∷ s) (y ∷ t)) same_char (Says-later r a s t h))
  | inr ne ↦
      let value : (if a == b then r else strcmp_end a b) ≡ strcmp_end a b = ground arith in
      elim (end-Says a b ha hb (λ e. ground arith)) [
        | inl (e, less) ↦ subst (λ x. Says x (a ∷ s) (b ∷ t)) (sym (value ∙ e)) (differs less)
        | inr (e, less) ↦ subst (λ x. Says x (a ∷ s) (b ∷ t)) (sym (value ∙ e)) (differs less)
      ]
]

strcmp_str-Says : (s t : List ℕ) → IsStr s → IsStr t → Says (strcmp_str s t) s t
unfolding strcmp_str
strcmp_str-Says [] [] hs ht = refl
strcmp_str-Says [] (b ∷ t) hs ht =
    let pos : 0 < b = ht.0.0 in
    elim (end-Says 0 b (omega arith) ht.0.1 (λ e. omega (arith, pos))) [
      | inl (e, less) ↦ rw e (ends less)
      | inr (e, less) ↦ rw e (goes_on less)
    ]
strcmp_str-Says (a ∷ s) [] hs ht =
    let pos : 0 < a = hs.0.0 in
    elim (end-Says a 0 hs.0.1 (omega arith) (λ e. omega (arith, pos))) [
      | inl (e, less) ↦ rw e (goes_on less)
      | inr (e, less) ↦ rw e (ends less)
    ]
strcmp_str-Says (a ∷ s) (b ∷ t) hs ht =
    cons-Says (strcmp_str s t) a b s t hs.0.1 ht.0.1 (strcmp_str-Says s t hs.1 ht.1)

Text-IsStr : (s : List ℕ) (m : Mem) (p : ℕ) → Text m p s → IsStr s
Text-IsStr [] m p h = tt
Text-IsStr (c ∷ s) m p h = ((h.1, h.2), Text-IsStr s m (p + 1) h.3)

-- For two strings in memory, with fuel above the length of the first, strcmp ends, with 0 if they
-- are equal, -1 if the first and 1 if the second is before the other: it has the smaller
-- character at the first place where they differ, as a signed char, where a string that ends has
-- the character 0.
pub strcmp-Says :
    (s t : List ℕ) (fuel p q : ℕ) (m : Mem)
    → Text m p s
    → Text m q t
    → length s < fuel
    → (r : Sign) × (strcmp fuel m p q ≡ some r) × Says r s t
strcmp-Says s t fuel p q m hs ht lt = (
  strcmp_str s t,
  strcmp-strcmp_str s t fuel p q m hs ht lt,
  strcmp_str-Says s t (Text-IsStr s m p hs) (Text-IsStr t m q ht),
)
