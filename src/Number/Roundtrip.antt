-- ===== src/Number/Roundtrip.antt =====
-- `atoi` and `printnum` against the value of decimal digits.
use mathlib.Core.List.{reverse, reverse-reverse, reverse-cons}
use quaros.Base.{
  ℕ, zero, suc, ◌+◌, ◌-◌, ◌*◌, ◌/◌, ◌%◌, ◌^◌, ◌≤◌, ◌<◌, ◌≡◌, refl, ap, sym, ◌∙◌, some, List, [],
  ◌∷◌, All, length, arith, ltb, ◌==◌, true, length-append, Bool-cases, inl, inr,
}
use native.Mathlib.Nat.{pow-suc}
use quaros.Number.{atoi_loop, atoi, tmp_digits, printnum, digit, add32, mul32}

abbrev pub IsDigit : ℕ → Type 0
IsDigit c = (48 ≤ c) × (c ≤ 57)

-- The number that digits stand for, lowest first.
abbrev pub value : List ℕ → ℕ
value [] = 0
value (c ∷ cs) = (c - 48) + 10 * value cs

-- What stands above a digit is not zero: no leading zeros.
abbrev pub IsPlain : List ℕ → Type 0
IsPlain [] = Unit
IsPlain (c ∷ []) = Unit
IsPlain (c ∷ c' ∷ cs) = (0 < value (c' ∷ cs)) × IsPlain (c' ∷ cs)

digit-eq : (c : ℕ) → IsDigit c → digit c ≡ c - 48
digit-eq c h = ground arith

le-mul : (a b : ℕ) → 0 < b → a ≤ a * b
le-mul a b h = grind arith

-- One round of the second loop, without overflow.
module _ (ret base d v : ℕ) (small : ret + base * (d + 10 * v) < 2 ^ 31) where
  round-ret : add32 ret (mul32 base d) ≡ ret + base * d
  round-ret = omega arith

  round-base : 0 < v → mul32 base 10 ≡ base * 10
  round-base pos = omega (arith, le-mul base v pos)

  round-sum : ret + base * d + base * 10 * v ≡ ret + base * (d + 10 * v)
  round-sum = omega arith

  round-small : ret + base * d + base * 10 * v < 2 ^ 31
  round-small = omega arith

pub atoi_loop-value :
    (c : ℕ) (cs : List ℕ) (ret base : ℕ)
    → All IsDigit (c ∷ cs)
    → IsPlain (c ∷ cs)
    → ret + base * value (c ∷ cs) < 2 ^ 31
    → atoi_loop (c ∷ cs) ret base ≡ ret + base * value (c ∷ cs)
unfolding atoi_loop
atoi_loop-value c [] ret base ds pl small =
    rw (digit-eq c ds.0) (ground (arith, round-ret ret base (c - 48) 0 small))
atoi_loop-value c (c' ∷ cs) ret base ds pl small =
    let d = c - 48 in
    let v = value (c' ∷ cs) in
    rw (digit-eq c ds.0, round-ret ret base d v small, round-base ret base d v small pl.0)
      (atoi_loop-value c' cs (ret + base * d) (base * 10) ds.1 pl.1 (round-small ret base d v small)
        ∙ round-sum ret base d v small)

-- `tmp_digits` ends, with at most as many digits as it has rounds, and they stand for `x`.
record Digits (x : ℕ) (ds : List ℕ) : Type 0 where
  all : All IsDigit ds
  plain : IsPlain ds
  total : value ds ≡ x
  top : 0 < length ds → 0 < x

Digits-cons : (x : ℕ) (ds : List ℕ) → 0 < x → Digits (x / 10) ds → Digits x ((48 + x % 10) ∷ ds)
Digits-cons x [] pos r = record {
  all = omega arith;
  plain = tt;
  total = omega (arith, r.total);
  top = λ _. pos;
}
Digits-cons x (d ∷ ds) pos r = record {
  all = (omega arith, r.all);
  plain = (omega (arith, r.top (omega arith), r.total), r.plain);
  total = omega (arith, r.total);
  top = λ _. pos;
}

tmp_digits-Digits :
    (fuel x : ℕ)
    → x < 10 ^ fuel
    → (ds : List ℕ) × (tmp_digits (suc fuel) x ≡ some ds) × Digits x ds × (length ds ≤ fuel)
unfolding tmp_digits
tmp_digits-Digits zero x lt =
    let e : x ≡ 0 = omega arith in
    (
      [],
      ground arith,
      record { all = tt; plain = tt; total = sym e; top = λ h. elim h [ ] },
      omega arith,
    )
tmp_digits-Digits (suc fuel) x lt =
    let (ds, e, r, few) = tmp_digits-Digits fuel (x / 10) (omega (arith, pow-suc 10 fuel)) in
    elim (Bool-cases (x == 0)) [
      | inl is_zero ↦ (
        [],
        rw is_zero,
        record { all = tt; plain = tt; total = ground arith; top = λ h. elim h [ ] },
        omega arith,
      )
      | inr ne ↦
          ((48 + x % 10) ∷ ds, rw (ne, e), Digits-cons x ds (ground arith) r, omega (arith, few))
    ]

length-reverse : (xs : List ℕ) → length (reverse xs) ≡ length xs
length-reverse [] = refl
length-reverse (x ∷ xs) =
    rw (reverse-cons x xs) (omega (arith, length-append (reverse xs) (x ∷ []), length-reverse xs))

atoi-eq : (s ds : List ℕ) → 0 < length s → reverse s ≡ ds → atoi s ≡ some (atoi_loop ds 0 1)
unfolding atoi
atoi-eq [] ds pos e = elim pos [ ]
atoi-eq (c ∷ cs) ds pos e = ap (λ t. some (atoi_loop t 0 1)) e

-- `atoi` of plain decimal digits is the number that they stand for.
pub atoi-value :
    (d : ℕ) (ds : List ℕ)
    → All IsDigit (d ∷ ds)
    → IsPlain (d ∷ ds)
    → value (d ∷ ds) < 2 ^ 31
    → atoi (reverse (d ∷ ds)) ≡ some (value (d ∷ ds))
atoi-value d ds all plain small =
    atoi-eq (reverse (d ∷ ds)) (d ∷ ds) (omega (arith, length-reverse (d ∷ ds)))
      (reverse-reverse (d ∷ ds))
    ∙ ap some (atoi_loop-value d ds 0 1 all plain (omega arith) ∙ omega arith)

roundtrip : (x : ℕ) (ds : List ℕ) → 0 < x → x < 2 ^ 31 → Digits x ds → atoi (reverse ds) ≡ some x
roundtrip x [] pos lt r = absurd (omega (arith, r.total))
roundtrip x (d ∷ ds) pos lt r =
    atoi-value d ds r.all r.plain (omega (arith, r.total)) ∙ ap some r.total

-- For every int that is not negative the loop of printnum ends, atoi reads what it writes as the
-- same number, and it writes at most 11 characters, the size of its array.
pub atoi-printnum :
    (x : ℕ)
    → x < 2 ^ 31
    → (s : List ℕ) × (printnum x ≡ some s) × (atoi s ≡ some x) × (length s ≤ 11)
unfolding printnum
atoi-printnum x lt = elim (Bool-cases (x == 0)) [
  | inl is_zero ↦
      (48 ∷ [], rw is_zero, (let e : x ≡ 0 = ground arith in rw e zero_text), omega arith)
  | inr ne ↦
      let (ds, e, r, few) = tmp_digits-Digits 10 x (omega arith) in
      let positive : ltb x (2 ^ 31) ≡ true = ground arith in
      (
        reverse ds,
        rw (ne, positive, e),
        roundtrip x ds (ground arith) lt r,
        omega (arith, length-reverse ds, few),
      )
]
  where
    zero_text : atoi (48 ∷ []) ≡ some 0
    zero_text = atoi-value 48 [] ((omega arith, omega arith), tt) tt (omega arith)
