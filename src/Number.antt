-- ===== src/Number.antt =====
-- Decimal numbers: `atoi` of util.c and `printnum` of io.c. An `int` is its 32-bit pattern. A
-- string is the list of its bytes up to the terminator.
pub mod Roundtrip
use mathlib.Core.List.{reverse}
use quaros.Base.{
  ℕ, zero, suc, ◌+◌, ◌-◌, ◌*◌, ◌/◌, ◌%◌, ◌^◌, Option, none, some, List, [], ◌∷◌, ltb, ◌==◌,
  if◌then◌else◌,
}

abbrev pub add32 : ℕ → ℕ → ℕ
add32 a b = (a + b) % 2 ^ 32

abbrev pub sub32 : ℕ → ℕ → ℕ
sub32 a b = (a + 2 ^ 32 - b) % 2 ^ 32

abbrev pub mul32 : ℕ → ℕ → ℕ
mul32 a b = (a * b) % 2 ^ 32

-- a `char`, which is signed, as an `int`
abbrev pub char_int : ℕ → ℕ
char_int c = if ltb c 128 then c else c + 2 ^ 32 - 256

-- `*p - '0'`
abbrev pub digit : ℕ → ℕ
digit c = sub32 (char_int c) 48

-- The second loop of `atoi` and what follows it, over the characters from the last to the first.
unfoldable pub atoi_loop : List ℕ → ℕ → ℕ → ℕ
atoi_loop [] ret base = ret
atoi_loop (c ∷ []) ret base = if c == b'-' then sub32 0 ret else add32 ret (mul32 base (digit c))
atoi_loop (c ∷ c' ∷ cs) ret base =
    atoi_loop (c' ∷ cs) (add32 ret (mul32 base (digit c))) (mul32 base 10)

-- `none`: on an empty string the first loop runs past the terminator.
unfoldable pub atoi : List ℕ → Option ℕ
atoi [] = none
atoi (c ∷ cs) = some (atoi_loop (reverse (c ∷ cs)) 0 1)

-- The loop of `printnum` that fills `tmp`, lowest digit first; `none` is too little fuel.
unfoldable pub tmp_digits : ℕ → ℕ → Option (List ℕ)
tmp_digits zero x = none
tmp_digits (suc fuel) x =
    let rest = tmp_digits fuel (x / 10) in
    if x == 0 then some [] else elim rest [ none ↦ none | some ds ↦ some ((48 + x % 10) ∷ ds) ]

-- What `printnum` writes. The loop does not run for a negative `x`. An `int` has at most ten
-- digits, so eleven rounds are enough.
unfoldable pub printnum : ℕ → Option (List ℕ)
printnum x =
    if x == 0
    then some (48 ∷ [])
    else if ltb x (2 ^ 31)
    then elim (tmp_digits 11 x) [ none ↦ none | some ds ↦ some (reverse ds) ]
    else some []
