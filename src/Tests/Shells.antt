-- ===== src/Tests/Shells.antt =====
-- The user programs at concrete inputs, with a terminal in place of the kernel.
use quaros.Base.{
  ℕ, ◌+◌, ◌-◌, ◌≡◌, inl, refl, List, [], ◌∷◌, ◌++◌, get_or, some, none, arith, ltb, length, done,
  Option, if◌then◌else◌, ◌==◌,
}
use quaros.Ram.{Mem, load32}
use quaros.Console.{Console, newline, read_console}
use quaros.Console.Refine.{Holds}
use quaros.User.Keyboard.{bytes_of, read_line-released}
use quaros.Tests.Devices.{hello_console, hello-Holds}
use quaros.Shell.Tokens.{Tokens}
use quaros.Str.Text.{Text}
use quaros.User.{Sys, read_line}
use quaros.User.Line.{Stored, over, char, read_line-Stored}
use quaros.User.Programs.{store_bytes, argument, echo_main, cat_file}
use quaros.User.Output.{echo_main-written, cat_file-written}
use quaros.User.Turn.{prompt, shell_turn}
use quaros.User.Turn.Child.{ran_words, shell_turn-ran_words}

-- What is still to be read, and what has been written.
abbrev Terminal : Type 0
Terminal = List ℕ × List ℕ

-- Reads give one character, or all that there is.
abbrev one_of : ℕ → Terminal → Option (List ℕ) × Terminal
one_of n ([], out) = (none, ([], out))
one_of n (c ∷ cs, out) = if n == 1 then (some (c ∷ []), (cs, out)) else (some (c ∷ cs), ([], out))

abbrev terminal : Sys Terminal
terminal = record {
  open_file = λ path flags s. (3, s);
  read = λ fd n s. one_of n s;
  write = λ fd cs s. (length cs, (s.0, s.1 ++ cs));
  close = λ fd s. s;
  fork = λ s. (7, s);
  execv = λ path args m s. some s;
  wait = λ s. (7, s);
}

abbrev clear : Mem
clear x = 0

abbrev typed_ls : List ℕ
typed_ls = b'l' ∷ b's' ∷ b' ' ∷ b'a' ∷ 10 ∷ []

read_line-Stored_example :
    (m' : Mem) × (read_line terminal 6 3 0x100 1023 0 clear (typed_ls, [])
      ≡ done ((0 + 5, m'), ([], [])))
    × Stored clear (0x100 + 0) typed_ls m'
read_line-Stored_example =
    read_line-Stored terminal 5 6 3 0x100 1023 0 typed_ls clear (typed_ls, []) ([], [])
      (char refl refl (char refl refl (char refl refl (char refl refl (char refl refl over)))))
      ((λ e. cc), ((λ e. cc), ((λ e. cc), ((λ e. cc), inl refl)))) (omega arith) (omega arith)

shell_turn-ran_words_example :
    (ts : List ℕ) × (m' : Mem) × Tokens m' ts ((b'l' ∷ b's' ∷ [], 1) ∷ (b'a' ∷ [], 0) ∷ [])
    × (shell_turn terminal 1025 3 0x100 clear (typed_ls, [])
        ≡ ran_words terminal 1025 3 ts m'
            ([], prompt)
            ((b'l' ∷ b's' ∷ [], 1) ∷ (b'a' ∷ [], 0) ∷ []))
shell_turn-ran_words_example =
    shell_turn-ran_words terminal 5 1025 3 0x100 0 clear
      ((b'l' ∷ b's' ∷ [], 1) ∷ (b'a' ∷ [], 0) ∷ []) (typed_ls, []) ([], prompt)
      (
        omega arith,
        (
          ((λ e. cc), (λ e. cc), (λ e. cc), omega arith),
          (((λ e. cc), (λ e. cc), (λ e. cc), omega arith), tt),
        ),
        (omega arith, (((λ e. cc), (λ e. cc), (λ e. cc), omega arith), tt), refl),
      )
      (omega arith) (omega arith) (λ e. cc)
      (char refl refl (char refl refl (char refl refl (char refl refl (char refl refl over)))))
      (omega arith) (omega arith)

-- Three words of arguments at 0x100, and the texts `hi` and `a` behind them.
abbrev arguments : Mem
arguments x =
    if ltb x 0x100
    then 0
    else get_or
        (0 ∷ 0 ∷ 0 ∷ 0 ∷ 0x0c ∷ 1 ∷ 0 ∷ 0 ∷ 0x0f ∷ 1 ∷ 0 ∷ 0 ∷ b'h' ∷ b'i' ∷ 0 ∷ b'a' ∷ 0 ∷ [])
        (x - 0x100) 0

hi : Text arguments 0x10c (b'h' ∷ b'i' ∷ [])
hi = (refl, omega arith, omega arith, (refl, omega arith, omega arith, refl))

echo_main-written_example :
    echo_main terminal 3 3 0x100 arguments ([], [])
    ≡ done (tt, ([], b'h' ∷ b'i' ∷ b' ' ∷ b'a' ∷ 10 ∷ []))
unfolding argument load32
echo_main-written_example =
    echo_main-written terminal 3 0x100 ((b'h' ∷ b'i' ∷ []) ∷ (b'a' ∷ []) ∷ []) arguments ([], [])
      (hi, omega arith, ((refl, omega arith, omega arith, refl), omega arith, tt))

-- The file `o`, read over the text `hi`, leaves `i`.
cat_file-written_example :
    cat_file terminal 3 3 4 0x10c arguments (b'o' ∷ [], [])
    ≡ done (store_bytes 0x10c (b'o' ∷ []) arguments, ([], b'o' ∷ b'i' ∷ []))
cat_file-written_example =
    cat_file-written terminal 3 3 4 0x10c arguments (b'o' ∷ [], []) ([], []) (b'o' ∷ []) (b'i' ∷ [])
      refl ((omega arith, omega arith), tt) (refl, omega arith, omega arith, refl) (omega arith)

-- The kernel's console in place of the terminal.
abbrev console_sys : Sys Console
console_sys = record {
  open_file = λ path flags c. (3, c);
  read = λ fd n c. (some (read_console n c).0, (read_console n c).1);
  write = λ fd cs c. (length cs, c);
  close = λ fd c. c;
  fork = λ c. (7, c);
  execv = λ path args m c. some c;
  wait = λ c. (7, c);
}

read_line-released_example :
    (m' : Mem) × (c' : Console) × (read_line console_sys 3 3 0x100 1023 0 clear hello_console
      ≡ done ((2, m'), c'))
    × Stored clear 0x100 (bytes_of (b'h' ∷ newline ∷ [])) m'
    × Holds c' (record { lines = []; edit = b'i' ∷ [] })
read_line-released_example =
    read_line-released console_sys 3 3 0x100 1023 (λ c. c) (b'h' ∷ newline ∷ []) [] (b'i' ∷ [])
      clear hello_console (record { gives = λ s. refl; leaves = λ s. refl })
      (omega arith, (omega arith, tt)) ((λ e. cc), inl refl) (omega arith) (omega arith) hello-Holds
