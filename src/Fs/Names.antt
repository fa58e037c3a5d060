-- ===== src/Fs/Names.antt =====
-- Looking files up and adding them, by name.
use quaros.Base.{
  ℕ, zero, suc, ◌+◌, ◌<◌, ◌≤◌, ◌≡◌, ◌↔◌, inl, inr, refl, ap₂, sym, ◌∙◌, Bool, true, false, none,
  some, List, [], ◌∷◌, All, arith, ◌==◌, Bool-cases, Option-cases,
}
use native.Mathlib.Nat.{eq-or-lt_of_le}
use quaros.Str.{same}
use quaros.Fs.{strcmp_str, str_same, find_index}

-- The bytes of a string: none is the terminator.
abbrev pub IsStr : List ℕ → Type 0
IsStr s = All (λ c. (0 < c) × (c < 256)) s

-- `strcmp` says 0 for equal strings, and for no others.
strcmp_str-same : (s : List ℕ) → strcmp_str s s ≡ same
unfolding strcmp_str
strcmp_str-same [] = refl
strcmp_str-same (c ∷ s) = ground (arith, strcmp_str-same s)

strcmp_str-eq : (s t : List ℕ) → IsStr s → IsStr t → strcmp_str s t ≡ same → s ≡ t
unfolding strcmp_str
strcmp_str-eq [] [] hs ht e = refl
strcmp_str-eq [] (b ∷ t) hs ht e = absurd (ground arith)
strcmp_str-eq (a ∷ s) [] hs ht e = absurd (ground arith)
strcmp_str-eq (a ∷ s) (b ∷ t) hs ht e = elim (Bool-cases (a == b)) [
  | inl eq ↦
      let e' : strcmp_str s t ≡ same = ground arith in
      let head : a ≡ b = ground arith in ap₂ ◌∷◌ head (strcmp_str-eq s t hs.1 ht.1 e')
  | inr ne ↦ absurd (ground arith)
]

-- strcmp says 0 for two strings if and only if they are equal.
pub str_same_iff : (s t : List ℕ) → IsStr s → IsStr t → (str_same s t ≡ true) ↔ (s ≡ t)
str_same_iff s t hs ht =
    ((λ e. strcmp_str-eq s t hs ht (ground arith)), λ e. rw e (ground (arith, strcmp_str-same t)))

-- `r` is the first index from `i` on that passes.
pub record IsFirst (p : ℕ → Bool) (i r : ℕ) : Type 0 where
  pub from : i ≤ r
  pub passes : p r ≡ true
  pub skipped : (j : ℕ) → i ≤ j → j < r → p j ≡ false

IsFirst-skip : (p : ℕ → Bool) (i r : ℕ) → p i ≡ false → IsFirst p (i + 1) r → IsFirst p i r
IsFirst-skip p i r no_i f = record {
  from = omega (arith, f.from);
  passes = f.passes;
  skipped = λ j lo hi. elim (eq-or-lt_of_le lo) [
    | inl e ↦ rw (← e) no_i
    | inr lt ↦ f.skipped j (omega arith) hi
  ];
}

find_index-yes : (rounds i : ℕ) (p : ℕ → Bool) → p i ≡ true → find_index (suc rounds) i p ≡ some i
unfolding find_index
find_index-yes rounds i p e = rw e

find_index-next :
    (rounds i : ℕ) (p : ℕ → Bool)
    → p i ≡ false
    → find_index (suc rounds) i p ≡ find_index rounds (i + 1) p
unfolding find_index
find_index-next rounds i p e = rw e

pub find_index-IsFirst :
    (rounds i : ℕ) (p : ℕ → Bool) (r : ℕ)
    → find_index rounds i p ≡ some r
    → IsFirst p i r × (r < i + rounds)
unfolding find_index
find_index-IsFirst zero i p r e = cc
find_index-IsFirst (suc rounds) i p r e = elim (Bool-cases (p i)) [
  | inl here ↦
      let i_is : i ≡ r = (let t = sym (find_index-yes rounds i p here) ∙ e in cc) in
      (
        record {
          from = omega arith;
          passes = rw (← i_is) here;
          skipped = λ j lo hi. absurd (omega arith);
        },
        omega arith,
      )
  | inr not_here ↦
      let (f, lt) =
        find_index-IsFirst rounds (i + 1) p r (sym (find_index-next rounds i p not_here) ∙ e) in
      (IsFirst-skip p i r not_here f, omega arith)
]

pub find_index-none :
    (rounds i : ℕ) (p : ℕ → Bool)
    → find_index rounds i p ≡ none
    → (j : ℕ) → i ≤ j
    → j < i + rounds
    → p j ≡ false
find_index-none zero i p e j lo hi = absurd (omega arith)
find_index-none (suc rounds) i p e j lo hi = elim (Bool-cases (p i)) [
  | inl here ↦ (let t = sym (find_index-yes rounds i p here) ∙ e in cc)
  | inr not_here ↦ elim (eq-or-lt_of_le lo) [
    | inl eq ↦ rw (← eq) not_here
    | inr lt ↦
        find_index-none rounds (i + 1) p (sym (find_index-next rounds i p not_here) ∙ e) j
          (omega arith) (omega arith)
  ]
]

-- The search succeeds if some index in its range passes.
pub find_index-some :
    (rounds i : ℕ) (p : ℕ → Bool) (j : ℕ)
    → i ≤ j
    → j < i + rounds
    → p j ≡ true
    → (r : ℕ) × (find_index rounds i p ≡ some r)
find_index-some rounds i p j lo hi e = elim (Option-cases (find_index rounds i p)) [
  | inl no_index ↦ (let t = sym (find_index-none rounds i p no_index j lo hi) ∙ e in cc)
  | inr found ↦ found
]
