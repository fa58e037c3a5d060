-- ===== src/User/Output.antt =====
-- What echo and cat write.
use quaros.Base.{
  ℕ, suc, ◌+◌, ◌-◌, ◌%◌, ◌<◌, ◌≡◌, refl, ap, ap₂, subst, sym, ◌∙◌, false, Option, some, List, [],
  ◌∷◌, ◌++◌, length, length-append, done, ◌==◌, arith,
}
use quaros.Ram.{Mem, store8, store8_self, store8-other}
use quaros.Str.{strlen}
use quaros.Str.Text.{Text, strlen-length}
use quaros.Fs.Names.{IsStr}
use quaros.Fs.Archive.{bytes_at}
use quaros.User.{Sys, print_text}
use quaros.User.Print.{written, written-append, user_print-written}
use quaros.User.Programs.{
  console_path, store_bytes, argument, echo_loop, echo_main, cat_file, cat_got, ls_root, ls_main,
}

-- The texts with a space between each two.
abbrev pub joined : List (List ℕ) → List ℕ
joined [] = []
joined (t ∷ []) = t
joined (t ∷ u ∷ ts) = t ++ b' ' ∷ joined (u ∷ ts)

-- From the i-th argument on there are these texts.
abbrev pub Arguments : Mem → ℕ → ℕ → ℕ → List (List ℕ) → Type 0
Arguments m fuel argv i [] = Unit {0}
Arguments m fuel argv i (t ∷ ts) =
    Text m (argument argv m i) t × (length t < fuel) × Arguments m fuel argv (i + 1) ts

pub bytes_at-Text : (m : Mem) (a : ℕ) (t : List ℕ) → Text m a t → bytes_at m a (length t) ≡ t
unfolding bytes_at
bytes_at-Text m a [] text = refl
bytes_at-Text m a (c ∷ t) text = ap₂ ◌∷◌ text.0 (bytes_at-Text m (a + 1) t text.3)

store_bytes-before : (cs : List ℕ) (a : ℕ) (m : Mem) (x : ℕ) → x < a → store_bytes a cs m x ≡ m x
unfolding store_bytes
store_bytes-before [] a m x lt = refl
store_bytes-before (c ∷ cs) a m x lt =
    store_bytes-before cs (a + 1) (store8 m a c) x (omega arith)
    ∙ store8-other m a c x (omega arith)

Text-behind : (t : List ℕ) (a x v : ℕ) (m : Mem) → x < a → Text m a t → Text (store8 m x v) a t
Text-behind [] a x v m lt text = store8-other m x v a (omega arith) ∙ text
Text-behind (c ∷ t) a x v m lt text = (
  store8-other m x v a (omega arith) ∙ text.0,
  text.1,
  text.2,
  Text-behind t (a + 1) x v m (omega arith) text.3,
)

-- Bytes stored in front of a text make one text with it.
store_bytes-Text :
    (cs : List ℕ) (a : ℕ) (rest : List ℕ) (m : Mem)
    → IsStr cs
    → Text m (a + length cs) rest
    → Text (store_bytes a cs m) a (cs ++ rest)
unfolding store_bytes
store_bytes-Text [] a rest m plain text =
    let here : a + 0 ≡ a = omega arith in subst (λ x. Text m x rest) here text
store_bytes-Text (c ∷ cs) a rest m plain text =
    let on : a + suc (length cs) ≡ a + 1 + length cs = omega arith in
    let more = subst (λ x. Text m x rest) on text in
    let m' = store8 m a c in
    (
      store_bytes-before cs (a + 1) m' a (omega arith) ∙ (store8_self m a c ∙ omega (arith, plain)),
      plain.0.0,
      plain.0.1,
      store_bytes-Text cs (a + 1) rest m' plain.1
          (Text-behind rest (a + 1 + length cs) a c m (omega arith) more),
    )

module _ {S : Type 0} (sys : Sys S) where
  pub print_text-written :
      (fd : ℕ) (t : List ℕ) (s : S)
      → IsStr t
      → print_text sys fd t s ≡ done (tt, written sys fd t s)
  unfolding print_text
  print_text-written fd [] s plain = refl
  print_text-written fd (c ∷ t) s plain =
      let byte : c % 256 ≡ c = omega (arith, plain) in
      rw byte (print_text-written fd t (sys.write fd (c ∷ []) s).1 plain.1)

  echo_loop-written :
      (ts : List (List ℕ)) (fuel fd argv i : ℕ) (m : Mem) (s : S)
      → Arguments m fuel argv i ts
      → echo_loop sys fuel fd argv (length ts) i m s ≡ done (tt, written sys fd (joined ts) s)
  unfolding echo_loop
  echo_loop-written [] fuel fd argv i m s args = refl
  echo_loop-written (t ∷ []) fuel fd argv i m s args =
      rw (user_print-written sys fuel fd (argument argv m i) t m s args.0 args.1) refl
  echo_loop-written (t ∷ u ∷ ts) fuel fd argv i m s args =
      let first = user_print-written sys fuel fd (argument argv m i) t m s args.0 args.1 in
      let space =
        print_text-written fd (b' ' ∷ []) (written sys fd t s) ((omega arith, omega arith), tt) in
      let s' = written sys fd (b' ' ∷ []) (written sys fd t s) in
      let rest = echo_loop-written (u ∷ ts) fuel fd argv (i + 1) m s' args.2 in
      let more : (suc (length ts) == 0) ≡ false = ground arith in
      rw (first, more, space, rest)
        (ap (λ x. done (tt, x)) (sym (written-append sys fd t (b' ' ∷ joined (u ∷ ts)) s)))

-- For any number of arguments that are strings shorter than the fuel, echo writes them to the
-- console, with a space between each two and a newline behind them, and nothing else.
pub echo_main-written :
    {S : Type 0} (sys : Sys S) (fuel argv : ℕ) (ts : List (List ℕ)) (m : Mem) (s : S)
    → Arguments m fuel argv 1 ts
    → let (cfd, s₁) = sys.open_file console_path 0 s in
      echo_main sys fuel (1 + length ts) argv m s
      ≡ done (tt, written sys cfd (joined ts ++ 10 ∷ []) s₁)
unfolding echo_main
echo_main-written sys fuel argv ts m s args =
    let cfd = (sys.open_file console_path 0 s).0 in
    let s₁ = (sys.open_file console_path 0 s).1 in
    let count : 1 + length ts - 1 ≡ length ts = omega arith in
    let ran = echo_loop-written sys ts fuel cfd argv 1 m s₁ args in
    rw (count, ran)
      (print_text-written sys cfd (10 ∷ []) (written sys cfd (joined ts) s₁)
          ((omega arith, omega arith), tt)
        ∙ ap (λ x. done (tt, x)) (sym (written-append sys cfd (joined ts) (10 ∷ []) s₁)))

-- When the read of a file gives characters none of which is 0, cat writes them to the console,
-- and behind them what the buffer held there before up to its first 0; then it closes the file.
pub cat_file-written :
    {S : Type 0} (sys : Sys S) (fuel cfd fd buf : ℕ) (m : Mem) (s s₁ : S) (cs old : List ℕ)
    → sys.read fd 1024 s ≡ (some cs, s₁)
    → IsStr cs
    → Text m (buf + length cs) old
    → length cs + length old < fuel
    → cat_file sys fuel cfd fd buf m s
      ≡ done (store_bytes buf cs m, sys.close fd (sys.write cfd (cs ++ old) s₁).1)
unfolding cat_file
cat_file-written {S} sys fuel cfd fd buf m s s₁ cs old reads plain text enough =
    let m' = store_bytes buf cs m in
    let whole = store_bytes-Text cs buf old m plain text in
    let here : buf ≡ buf + 0 = omega arith in
    let measured : strlen fuel m' buf 0 ≡ some (length (cs ++ old)) =
      strlen-length (cs ++ old) fuel buf 0 m' (subst (λ x. Text m' x (cs ++ old)) here whole)
        (omega (arith, length-append cs old))
      ∙ ap some (omega arith) in
    ap (λ (r : Option (List ℕ) × S). cat_got sys fuel cfd fd buf m r.0 r.1) reads
    ∙ rw (measured, bytes_at-Text m' buf (cs ++ old) whole, cat_got) refl

ls_root-written :
    {S : Type 0} (sys : Sys S) (fuel buf cfd rfd : ℕ) (m : Mem) (s s₁ : S) (cs old : List ℕ)
    → sys.read rfd 1024 s ≡ (some cs, s₁)
    → IsStr cs
    → Text m (buf + length cs) old
    → length cs + length old < fuel
    → ls_root sys fuel cfd rfd buf m s ≡ done (tt, written sys cfd (cs ++ old) s₁)
unfolding ls_root
ls_root-written sys fuel buf cfd rfd m s s₁ cs old reads plain text enough =
    let whole = store_bytes-Text cs buf old m plain text in
    let shown =
      user_print-written sys fuel cfd buf (cs ++ old) (store_bytes buf cs m) s₁ whole
        (omega (arith, length-append cs old)) in
    rw (reads, shown, ls_root) refl

-- When the read of the root gives characters none of which is 0, ls writes them, and behind them what
-- the buffer held there up to its first 0.
pub ls_main-written :
    {S : Type 0} (sys : Sys S) (fuel buf cfd rfd : ℕ) (m : Mem) (s s₁ s₂ s₃ : S) (cs old : List ℕ)
    → sys.open_file console_path 0 s ≡ (cfd, s₁)
    → sys.open_file (b'/' ∷ []) 0 s₁ ≡ (rfd, s₂)
    → sys.read rfd 1024 s₂ ≡ (some cs, s₃)
    → IsStr cs
    → Text m (buf + length cs) old
    → length cs + length old < fuel
    → ls_main sys fuel buf m s ≡ done (tt, written sys cfd (cs ++ old) s₃)
unfolding ls_main
ls_main-written sys fuel buf cfd rfd m s s₁ s₂ s₃ cs old console root reads plain text enough =
    rw (console, root, ls_main)
      (ls_root-written sys fuel buf cfd rfd m s₂ s₃ cs old reads plain text enough)
