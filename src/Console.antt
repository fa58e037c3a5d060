-- ===== src/Console.antt =====
-- The console of io.c: a circular buffer of typed characters, of which a whole line at a time is
-- released to `read`. The indices and lengths are `unsigned int`.
pub mod Inv
pub mod Line
pub mod Slots
pub mod Refine
pub mod Read
use quaros.Base.{
  ℕ, zero, suc, ◌+◌, ◌-◌, ◌%◌, ◌^◌, Bool, true, false, Option, none, some, List, [], ◌∷◌, Outcome,
  M, done, panic, fault, and_then, pure, ltb, ◌==◌, if◌then◌else◌, get_or, set,
}

abbrev pub max_buf : ℕ
max_buf = 4096

abbrev pub del : ℕ
del = 0x7f

abbrev pub newline : ℕ
newline = 10

-- unsigned addition and subtraction of one
abbrev pub inc32 : ℕ → ℕ
inc32 n = (n + 1) % 2 ^ 32

abbrev pub dec32 : ℕ → ℕ
dec32 n = (n + 2 ^ 32 - 1) % 2 ^ 32

-- The globals of io.c. An `int` of the buffer is its 32-bit pattern.
pub record Console : Type 0 where
  pub buf_len : ℕ
  pub edit_len : ℕ
  pub edit_i : ℕ
  pub write_i : ℕ
  pub read_i : ℕ
  pub circular_buf : List ℕ

-- The branch of `write_circular_buf` that stores a character.
unfoldable pub store_char : ℕ → Console → Console
store_char ch c =
    let stored = record c {
      circular_buf = set c.circular_buf c.edit_i ch;
      edit_i = inc32 c.edit_i % max_buf;
      edit_len = inc32 c.edit_len;
    } in
    if ch == newline
    then record stored { write_i = stored.edit_i; buf_len = stored.edit_len }
    else stored

unfoldable pub write_circular_buf : ℕ → M Console (Unit {0})
write_circular_buf ch c =
    if ch == del
    then done (
      tt,
      if ltb 0 c.edit_len
          then record c { edit_i = dec32 c.edit_i % max_buf; edit_len = dec32 c.edit_len }
          else c,
    )
    else if c.edit_len == max_buf
    then panic "update_input_buf: Circular buffer full"
    else done (tt, store_char ch c)

-- `none` stands for the result -1 of an empty buffer.
unfoldable pub read_circular_buf : Console → Option ℕ × Console
read_circular_buf c = if c.buf_len == 0 then (none, c) else (
  some (get_or c.circular_buf c.read_i 0),
  record c {
    read_i = inc32 c.read_i % max_buf;
    buf_len = dec32 c.buf_len;
    edit_len = dec32 c.edit_len;
  },
)

-- A character read back ends the loop of `read_console` if it is negative as an `int`.
abbrev pub nonneg : ℕ → Bool
nonneg ch = ltb ch (2 ^ 31)

-- The loop of `read_console`: the characters stored to `buf`, of which there are `count` at most.
-- A negative character is taken from the buffer, and lost.
unfoldable pub read_console : ℕ → Console → List ℕ × Console
read_console zero c = ([], c)
read_console (suc count) c =
    let (got, c') = read_circular_buf c in
    elim got [
      | none ↦ ([], c')
      | some ch ↦
          let (rest, c'') = read_console count c' in
          if nonneg ch then ((ch % 256) ∷ rest, c'') else ([], c')
    ]
