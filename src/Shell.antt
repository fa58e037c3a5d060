-- ===== src/Shell.antt =====
-- `tokenize` of the shell, user/sh.c, over the memory of its task.
pub mod Tokens
use quaros.Base.{
  ℕ, zero, suc, ◌+◌, ◌-◌, ◌*◌, ◌%◌, Bool, true, false, ◌||◌, Option, none, some, List, [], ◌∷◌,
  ◌++◌, ltb, leb, ◌==◌, if◌then◌else◌,
}
use quaros.Ram.{Mem, store8}
use quaros.Str.{strlen}

abbrev pub max_arg : ℕ
max_arg = 8

-- `while (*p == ' ') p++;`, and the loop that finds the end of a word. `none` is too little fuel.
unfoldable pub skip_spaces : ℕ → Mem → ℕ → Option ℕ
skip_spaces zero m p = none
skip_spaces (suc fuel) m p =
    let rest = skip_spaces fuel m (p + 1) in if m p == b' ' then rest else some p

unfoldable pub word_end : ℕ → Mem → ℕ → Option ℕ
word_end zero m p = none
word_end (suc fuel) m p =
    let rest = word_end fuel m (p + 1) in if m p == b' ' || m p == 0 then some p else rest

-- The outer loop, with `rounds` rounds left, at `lp` and `rp`, which are the same there. The result
-- is what is returned, the tokens, and memory.
unfoldable pub token_loop : ℕ → ℕ → ℕ → ℕ → ℕ → ℕ → List ℕ → Mem → Option (ℕ × List ℕ × Mem)
unfolding skip_spaces word_end
token_loop zero fuel buf len rp num tokens m = none
token_loop (suc rounds) fuel buf len rp num tokens m = elim (ltb (rp - buf) len) [
  | false ↦ some (num, tokens, m)
  | true ↦ elim (word_end fuel m rp) [
    | none ↦ none
    | some e ↦
        let m' = store8 m e 0 in
        elim (num + 1 == max_arg) [
          | true ↦ some (0, tokens ++ rp ∷ [], m')
          | false ↦ elim (skip_spaces fuel m' (e + 1)) [
            | none ↦ none
            | some q ↦ token_loop rounds fuel buf len q (num + 1) (tokens ++ rp ∷ []) m'
          ]
        ]
  ]
]

-- There are at most `max_arg` rounds.
unfoldable pub tokenize : ℕ → ℕ → Mem → Option (ℕ × List ℕ × Mem)
unfolding token_loop
tokenize fuel buf m = elim (strlen fuel m buf 0) [
  | none ↦ none
  | some len ↦ elim (skip_spaces fuel m buf) [
    | none ↦ none
    | some p ↦ token_loop (max_arg + 1) fuel buf len p 0 [] m
  ]
]
