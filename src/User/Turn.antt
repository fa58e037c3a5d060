-- ===== src/User/Turn.antt =====
-- `main` of user/sh.c: one turn of its loop.
pub mod Typed
pub mod Command
pub mod Child
use quaros.Base.{
  ℕ, zero, suc, ◌+◌, ◌-◌, ◌*◌, ◌%◌, ◌^◌, Bool, true, false, Option, none, some, List, [], ◌∷◌,
  Outcome, done, out_of_fuel, M, pure, and_then, ◌>>=◌, ◌>>◌, ◌==◌, if◌then◌else◌,
}
use quaros.Ram.{Mem, store8}
use quaros.Shell.{tokenize}
use quaros.User.{Sys, path_at, user_print, print_text, read_line}

abbrev pub prompt : List ℕ
prompt = b'$' ∷ b' ' ∷ []

abbrev pub exec_failed : List ℕ
exec_failed =
    b'e' ∷ b'x' ∷ b'e' ∷ b'c' ∷ b'v' ∷ b' ' ∷ b'f' ∷ b'a' ∷ b'i' ∷ b'l' ∷ b'e' ∷ b'd' ∷ b':' ∷ b' '
    ∷ []

-- Where a turn leads: to the next turn, with this memory, to another program with these arguments,
-- or to the end of the task.
pub data Next : Type 0 where
  again : Mem → Next
  replaced : List ℕ → Mem → Next
  exited : Next

-- the first argument
abbrev pub first_of : List ℕ → ℕ
first_of [] = 0
first_of (a ∷ as') = a

module _ {S : Type 0} (sys : Sys S) where
  -- `execv` of the child, and what follows if it fails.
  unfoldable pub exec_or_fail : ℕ → ℕ → List ℕ → List ℕ → Mem → M S Next
  unfolding user_print print_text
  exec_or_fail fuel fd path args m s = elim (sys.execv path args m s) [
    | none ↦ done (replaced args m, s)
    | some s' ↦
        (do
          print_text sys fd exec_failed
          user_print sys fuel fd (first_of args) m
          print_text sys fd (10 ∷ [])
          pure exited)
          s'
  ]

  -- What the child does.
  unfoldable pub shell_child : ℕ → ℕ → List ℕ → Mem → M S Next
  unfolding exec_or_fail path_at
  shell_child fuel fd args m s = elim (path_at fuel m (first_of args)) [
    | none ↦ out_of_fuel
    | some path ↦ exec_or_fail fuel fd path args m s
  ]

  -- What is done with a command: `fork`, and then the one or the other.
  unfoldable pub shell_command : ℕ → ℕ → List ℕ → Mem → M S Next
  unfolding shell_child
  shell_command fuel fd args m s =
      let (pid, s₁) = sys.fork s in
      if pid == 0 then shell_child fuel fd args m s₁ else done (again m, (sys.wait s₁).1)

  -- What is done with a line of `n` characters in the buffer.
  unfoldable pub shell_line : ℕ → ℕ → ℕ → ℕ → Mem → M S Next
  unfolding shell_command
  shell_line fuel fd buf n m = elim (tokenize fuel buf (store8 m (buf + n - 1) 0)) [
    | none ↦ λ s. out_of_fuel
    | some (argc, args, m') ↦
        λ s. if argc == 0 then done (again m', s) else shell_command fuel fd args m' s
  ]

  -- One turn of the loop. `buf` has 1024 characters, the last of which `read_line` leaves alone.
  unfoldable pub shell_turn : ℕ → ℕ → ℕ → Mem → M S Next
  unfolding shell_line
  shell_turn fuel fd buf m = do
    print_text sys fd prompt
    r ← read_line sys fuel fd buf 1023 0 m
    shell_line fuel fd buf r.0 r.1
