-- ===== src/User.antt =====
-- The programs that run in user mode: user/util.c, user/sh.c, user/echo.c, user/cat.c, user/ls.c,
-- user/hello.c and user/init.c. The kernel behind sys.asm is the record `Sys`; its state is `S`.
-- Memory is the program's own; a string literal is the list of its bytes.
pub mod Print
pub mod Line
pub mod Keyboard
pub mod Turn
pub mod Programs
pub mod Output
use quaros.Base.{
  ℕ, zero, suc, ◌+◌, ◌-◌, ◌*◌, ◌%◌, ◌^◌, Bool, true, false, ◌||◌, Option, none, some, List, [], ◌∷◌,
  ◌++◌, length, Outcome, done, panic, fault, out_of_fuel, M, pure, and_then, ◌>>=◌, ◌>>◌, ltb, leb,
  ◌==◌, if◌then◌else◌,
}
use quaros.Ram.{Mem, store8}
use quaros.Str.{strlen}
use quaros.Fs.Archive.{bytes_at}
use quaros.Number.{printnum}
use quaros.Shell.{tokenize}

-- The system calls. An `int` result is its 32-bit pattern; `read` and `write` are given and give the
-- bytes of the buffer, and the result `none` of `read` is -1. `execv` is given the path, the
-- arguments' addresses and memory; the result `none` is that it does not return, since another program runs.
pub record Sys (S : Type 0) : Type 0 where
  pub open_file : List ℕ → ℕ → S → ℕ × S
  pub read : ℕ → ℕ → S → Option (List ℕ) × S
  pub write : ℕ → List ℕ → S → ℕ × S
  pub close : ℕ → S → S
  pub fork : S → ℕ × S
  pub execv : List ℕ → List ℕ → Mem → S → Option S
  pub wait : S → ℕ × S

-- `strlen` of user/util.c has the text of string.c's.
abbrev pub user_strlen : ℕ → Mem → ℕ → ℕ → Option ℕ
user_strlen = strlen

-- `strcpy` of user/util.c, which returns the place behind the copy.
unfoldable pub user_strcpy : ℕ → ℕ → ℕ → Mem → Option (ℕ × Mem)
user_strcpy zero d s m = none
user_strcpy (suc fuel) d s m =
    let rest = user_strcpy fuel (d + 1) (s + 1) (store8 m d (m s)) in
    if m s == 0 then some (d, m) else rest

-- the string at `a`
unfoldable pub path_at : ℕ → Mem → ℕ → Option (List ℕ)
unfolding bytes_at
path_at fuel m a = elim (user_strlen fuel m a 0) [ none ↦ none | some n ↦ some (bytes_at m a n) ]

-- an `int` that is not above 0
abbrev pub is_char : Option (List ℕ) → Option ℕ
is_char none = none
is_char (some []) = none
is_char (some (c ∷ cs)) = some c

module _ {S : Type 0} (sys : Sys S) where
  -- `write(fd, &c, 1)`: the first byte of an `int`
  abbrev pub user_putchar : ℕ → ℕ → M S ℕ
  user_putchar fd c s = done (c, (sys.write fd (c % 256 ∷ []) s).1)

  unfoldable pub user_printn : ℕ → ℕ → ℕ → Mem → M S (Unit {0})
  user_printn fd a zero m = pure tt
  user_printn fd a (suc n) m = user_putchar fd (m a) >> user_printn fd (a + 1) n m

  -- The loop of `print`, which measures the string in each round.
  unfoldable pub print_loop : ℕ → ℕ → ℕ → ℕ → ℕ → Mem → M S (Unit {0})
  print_loop zero fuel fd a i m s = out_of_fuel
  print_loop (suc rounds) fuel fd a i m s = elim (user_strlen fuel m a 0) [
    | none ↦ out_of_fuel
    | some n ↦ elim (ltb i n) [
      | true ↦ (user_putchar fd (m (a + i)) >> print_loop rounds fuel fd a (i + 1) m) s
      | false ↦ done (tt, s)
    ]
  ]

  unfoldable pub user_print : ℕ → ℕ → ℕ → Mem → M S ℕ
  unfolding print_loop
  user_print fuel fd a m = print_loop fuel fuel fd a 0 m >>= λ _ s. elim (user_strlen fuel m a 0) [
    | none ↦ out_of_fuel
    | some n ↦ done (n, s)
  ]

  unfoldable pub user_puts : ℕ → ℕ → ℕ → Mem → M S ℕ
  unfolding user_print
  user_puts fuel fd a m = do n ← user_print fuel fd a m; user_putchar fd 10; pure (n + 1)

  -- `print` of a string literal
  unfoldable pub print_text : ℕ → List ℕ → M S (Unit {0})
  print_text fd [] = pure tt
  print_text fd (c ∷ cs) = user_putchar fd c >> print_text fd cs

  -- The digits are found as the kernel's `printnum` finds them.
  unfoldable pub user_printnum : ℕ → ℕ → M S ℕ
  unfolding print_text
  user_printnum fd x s = elim (printnum x) [
    | none ↦ out_of_fuel
    | some digits ↦ (print_text fd digits >> pure 1) s
  ]

  -- The loop of `read_line` from index `i` on: a `read` that fails or gives nothing is repeated.
  unfoldable pub read_line : ℕ → ℕ → ℕ → ℕ → ℕ → Mem → M S (ℕ × Mem)
  read_line zero fd buf size i m s = out_of_fuel
  read_line (suc fuel) fd buf size i m s = elim (ltb i size) [
    | false ↦ done ((i, m), s)
    | true ↦
        let (got, s') = sys.read fd 1 s in
        elim (is_char got) [
          | none ↦ read_line fuel fd buf size i m s'
          | some c ↦
              let m' = store8 m (buf + i) c in
              elim (c % 256 == 10) [
                | true ↦ done ((i + 1, m'), s')
                | false ↦ read_line fuel fd buf size (i + 1) m' s'
              ]
        ]
  ]
