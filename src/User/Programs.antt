-- ===== src/User/Programs.antt =====
-- `main` of user/echo.c, user/cat.c, user/ls.c, user/hello.c and user/init.c. `argv` is the address of the
-- arguments, and `buf` that of the local array. The result stands for `exit(0)`.
use quaros.Base.{
  ℕ, zero, suc, ◌+◌, ◌-◌, ◌*◌, ◌^◌, true, false, Option, none, some, List, [], ◌∷◌, done,
  out_of_fuel, M, pure, and_then, ◌>>=◌, ◌>>◌, ltb, ◌==◌, if◌then◌else◌,
}
use quaros.Ram.{Mem, load32, store8}
use quaros.Fs.Archive.{bytes_at}
use quaros.User.{Sys, path_at, user_strlen, user_print, print_text}

abbrev pub console_path : List ℕ
console_path = b'c' ∷ b'o' ∷ b'n' ∷ b's' ∷ b'o' ∷ b'l' ∷ b'e' ∷ []

abbrev pub cat_failed : List ℕ
cat_failed =
    b'c' ∷ b'a' ∷ b't' ∷ b':' ∷ b' ' ∷ b'F' ∷ b'a' ∷ b'i' ∷ b'l' ∷ b'e' ∷ b'd' ∷ b' ' ∷ b't' ∷ b'o'
    ∷ b' ' ∷ b'o' ∷ b'p' ∷ b'e' ∷ b'n' ∷ b' ' ∷ b'f' ∷ b'i' ∷ b'l' ∷ b'e' ∷ b' ' ∷ []

abbrev pub cat_usage : List ℕ
cat_usage =
    b'U' ∷ b's' ∷ b'a' ∷ b'g' ∷ b'e' ∷ b':' ∷ b' ' ∷ b'c' ∷ b'a' ∷ b't' ∷ b' ' ∷ b'[' ∷ b'F' ∷ b'I'
    ∷ b'L' ∷ b'E' ∷ b']' ∷ b'.' ∷ b'.' ∷ b'.' ∷ 10 ∷ []

abbrev pub ls_failed : List ℕ
ls_failed = b'l' ∷ b's' ∷ b':' ∷ b' ' ∷ b'E' ∷ b'r' ∷ b'r' ∷ b'o' ∷ b'r' ∷ 10 ∷ []

abbrev pub greeting : List ℕ
greeting =
    b'H' ∷ b'e' ∷ b'l' ∷ b'l' ∷ b'o' ∷ b' ' ∷ b'f' ∷ b'r' ∷ b'o' ∷ b'm' ∷ b' ' ∷ b'c' ∷ b'h' ∷ b'i'
    ∷ b'l' ∷ b'd' ∷ b' ' ∷ b'p' ∷ b'r' ∷ b'o' ∷ b'c' ∷ b'e' ∷ b's' ∷ b's' ∷ b'!' ∷ b'!' ∷ 10 ∷ []

-- what `read` stores in a buffer
unfoldable pub store_bytes : ℕ → List ℕ → Mem → Mem
store_bytes a [] m = m
store_bytes a (c ∷ cs) m = store_bytes (a + 1) cs (store8 m a c)

abbrev pub store_read : ℕ → Option (List ℕ) → Mem → Mem
store_read a none m = m
store_read a (some cs) m = store_bytes a cs m

-- the string at `argv[i]`
unfoldable pub argument : ℕ → Mem → ℕ → ℕ
argument argv m i = load32 m (argv + i * 4)

module _ {S : Type 0} (sys : Sys S) where
  -- The loop of echo.c with `n` arguments left, from the i-th on.
  unfoldable pub echo_loop : ℕ → ℕ → ℕ → ℕ → ℕ → Mem → M S (Unit {0})
  unfolding user_print argument
  echo_loop fuel fd argv zero i m = pure tt
  echo_loop fuel fd argv (suc n) i m = user_print sys fuel fd (argument argv m i) m >>= λ _.
      (if n == 0 then pure tt else print_text sys fd (b' ' ∷ [])) >>= λ _.
      echo_loop fuel fd argv n (i + 1) m

  unfoldable pub echo_main : ℕ → ℕ → ℕ → Mem → M S (Unit {0})
  unfolding echo_loop
  echo_main fuel argc argv m s =
      let (cfd, s') = sys.open_file console_path 0 s in
      (echo_loop fuel cfd argv (argc - 1) 1 m >> print_text sys cfd (10 ∷ [])) s'

  -- What is done with what `read` has given. The file's size is not looked at: what is written ends
  -- at the first zero of the buffer.
  unfoldable pub cat_got : ℕ → ℕ → ℕ → ℕ → Mem → Option (List ℕ) → M S Mem
  unfolding store_bytes bytes_at
  cat_got fuel cfd fd buf m got s =
      let m' = store_read buf got m in
      elim (user_strlen fuel m' buf 0) [
        | none ↦ out_of_fuel
        | some n ↦ done (m', sys.close fd (sys.write cfd (bytes_at m' buf n) s).1)
      ]

  -- One round of the loop of cat.c, once the file is open; it ends with the memory.
  unfoldable pub cat_file : ℕ → ℕ → ℕ → ℕ → Mem → M S Mem
  unfolding cat_got
  cat_file fuel cfd fd buf m s = let r = sys.read fd 1024 s in cat_got fuel cfd fd buf m r.0 r.1

  -- The loop of cat.c with `n` arguments left, from the i-th on. A file that cannot be opened ends it.
  unfoldable pub cat_loop : ℕ → ℕ → ℕ → ℕ → ℕ → ℕ → Mem → M S (Unit {0})
  unfolding cat_file path_at argument
  cat_loop fuel cfd argv buf zero i m s = done (tt, s)
  cat_loop fuel cfd argv buf (suc n) i m s = elim (path_at fuel m (argument argv m i)) [
    | none ↦ out_of_fuel
    | some path ↦
        let (fd, s₁) = sys.open_file path 0 s in
        elim (ltb fd (2 ^ 31)) [
          | true ↦ and_then (cat_file fuel cfd fd buf m s₁) (cat_loop fuel cfd argv buf n (i + 1))
          | false ↦
              (do
                print_text sys cfd cat_failed
                user_print sys fuel cfd (argument argv m i) m
                print_text sys cfd (10 ∷ []))
                s₁
        ]
  ]

  unfoldable pub cat_main : ℕ → ℕ → ℕ → ℕ → Mem → M S (Unit {0})
  unfolding cat_loop
  cat_main fuel argc argv buf m s =
      let (cfd, s₁) = sys.open_file console_path 0 s in
      if argc == 1
      then print_text sys cfd cat_usage s₁
      else cat_loop fuel cfd argv buf (argc - 1) 1 m s₁

  -- A failed `read` is reported; what a read has given is printed up to the buffer's first zero.
  unfoldable pub ls_got : ℕ → ℕ → ℕ → Mem → Option (List ℕ) → M S (Unit {0})
  unfolding user_print print_text store_bytes
  ls_got fuel cfd buf m none = print_text sys cfd ls_failed
  ls_got fuel cfd buf m (some cs) = user_print sys fuel cfd buf (store_bytes buf cs m) >> pure tt

  unfoldable pub ls_root : ℕ → ℕ → ℕ → ℕ → Mem → M S (Unit {0})
  unfolding ls_got
  ls_root fuel cfd rfd buf m s = let r = sys.read rfd 1024 s in ls_got fuel cfd buf m r.0 r.1

  unfoldable pub ls_main : ℕ → ℕ → Mem → M S (Unit {0})
  unfolding ls_root
  ls_main fuel buf m s =
      let (cfd, s₁) = sys.open_file console_path 0 s in
      let (rfd, s₂) = sys.open_file (b'/' ∷ []) 0 s₁ in ls_root fuel cfd rfd buf m s₂

  -- `none`: another program runs.
  unfoldable pub init_main : Mem → S → Option S
  init_main m s = sys.execv (b's' ∷ b'h' ∷ []) [] m s

  unfoldable pub hello_main : M S (Unit {0})
  unfolding print_text
  hello_main s = let (fd, s') = sys.open_file console_path 0 s in print_text sys fd greeting s'
