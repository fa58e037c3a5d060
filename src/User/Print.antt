-- ===== src/User/Print.antt =====
-- What the user programs' output functions write.
use quaros.Base.{
  ℕ, zero, suc, ◌+◌, ◌%◌, ◌<◌, ◌≡◌, refl, ap, true, false, some, List, [], ◌∷◌, ◌++◌, length, done,
  ltb, arith, subst,
}
use quaros.Ram.{Mem}
use quaros.Str.{strlen}
use quaros.Str.Text.{Text, strlen-length}
use quaros.User.{Sys, print_loop, user_print}

module _ {S : Type 0} (sys : Sys S) where
  -- One system call `write` for each byte.
  abbrev pub written : ℕ → List ℕ → S → S
  written fd [] s = s
  written fd (c ∷ cs) s = written fd cs (sys.write fd (c ∷ []) s).1

  pub written-append :
      (fd : ℕ) (cs ds : List ℕ) (s : S) → written fd (cs ++ ds) s ≡ written fd ds (written fd cs s)
  written-append fd [] ds s = refl
  written-append fd (c ∷ cs) ds s = written-append fd cs ds (sys.write fd (c ∷ []) s).1

  print_loop-written :
      (t : List ℕ) (n rounds fuel fd a i : ℕ) (m : Mem) (s : S)
      → strlen fuel m a 0 ≡ some n
      → n ≡ i + length t
      → Text m (a + i) t
      → length t < rounds
      → print_loop sys rounds fuel fd a i m s ≡ done (tt, written fd t s)
  unfolding print_loop
  print_loop-written t n zero fuel fd a i m s measured e text enough = absurd (omega arith)
  print_loop-written [] n (suc rounds) fuel fd a i m s measured e text enough =
      let stop : ltb i n ≡ false = ground arith in rw (measured, stop, print_loop) refl
  print_loop-written (c ∷ t) n (suc rounds) fuel fd a i m s measured e text enough =
      let more : ltb i n ≡ true = ground arith in
      let byte : m (a + i) % 256 ≡ c = omega (arith, text) in
      let on : a + i + 1 ≡ a + (i + 1) = omega arith in
      rw (measured, more, byte, print_loop)
        (print_loop-written t n rounds fuel fd a (i + 1) m (sys.write fd (c ∷ []) s).1 measured
          (omega arith) (subst (λ x. Text m x t) on text.3) (omega arith))

  pub user_print-written :
      (fuel fd a : ℕ) (t : List ℕ) (m : Mem) (s : S)
      → Text m a t
      → length t < fuel
      → user_print sys fuel fd a m s ≡ done (length t, written fd t s)
  unfolding user_print
  user_print-written fuel fd a t m s text enough =
      let here : a ≡ a + 0 = omega arith in
      let text' = subst (λ x. Text m x t) here text in
      let measured = strlen-length t fuel a 0 m text' enough in
      let ran =
        print_loop-written t (0 + length t) fuel fuel fd a 0 m s measured refl text' enough in
      rw (ran, measured) (ap (λ n. done (n, written fd t s)) (omega arith))
