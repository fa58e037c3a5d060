-- ===== src/Str/Text.antt =====
-- Strings in memory, as lists of their bytes.
use quaros.Base.{
  ℕ, zero, suc, ◌+◌, ◌<◌, ◌≤◌, ◌≡◌, ◌⊎◌, inl, ◌∙◌, some, List, [], ◌∷◌, length, arith, subst,
}
use quaros.Ram.{Mem, store8, store8_self, store8-other}
use quaros.Str.{strlen, strcpy, strcmp}
use quaros.Fs.{strcmp_str}

-- The bytes of the string `s` stand at `a`, with a terminator.
abbrev pub Text : Mem → ℕ → List ℕ → Type 0
Text m a [] = m a ≡ 0
Text m a (c ∷ s) = (m a ≡ c) × (0 < c) × (c < 256) × Text m (a + 1) s

-- `strcmp` on memory and on lists.
pub strcmp-strcmp_str :
    (s t : List ℕ) (fuel p q : ℕ) (m : Mem)
    → Text m p s
    → Text m q t
    → length s < fuel
    → strcmp fuel m p q ≡ some (strcmp_str s t)
unfolding strcmp strcmp_str
strcmp-strcmp_str s t zero p q m hs ht lt = absurd (omega arith)
strcmp-strcmp_str [] [] (suc fuel) p q m hs ht lt = ground (arith, hs, ht)
strcmp-strcmp_str [] (b ∷ t) (suc fuel) p q m hs ht lt = ground (arith, hs, ht)
strcmp-strcmp_str (a ∷ s) [] (suc fuel) p q m hs ht lt = ground (arith, hs, ht)
strcmp-strcmp_str (a ∷ s) (b ∷ t) (suc fuel) p q m hs ht lt =
    ground (arith, strcmp-strcmp_str s t fuel (p + 1) (q + 1) m hs.3 ht.3 (omega arith), hs, ht)

-- With fuel above the length, strlen of a string in memory, counting on from ret, ends with ret
-- and the length.
pub strlen-length :
    (s : List ℕ) (fuel a ret : ℕ) (m : Mem)
    → Text m (a + ret) s
    → length s < fuel
    → strlen fuel m a ret ≡ some (ret + length s)
unfolding strlen
strlen-length s zero a ret m hs lt = absurd (omega arith)
strlen-length [] (suc fuel) a ret m hs lt = ground (arith, hs)
strlen-length (c ∷ s) (suc fuel) a ret m hs lt =
    let more : Text m (a + (ret + 1)) s = subst (λ i. Text m i s) (omega arith) hs.3 in
    ground (arith, strlen-length s fuel a (ret + 1) m more (omega arith), hs)

pub Text-same :
    (s : List ℕ) (a : ℕ) (m m' : Mem)
    → ((x : ℕ) → a ≤ x → x ≤ a + length s → m' x ≡ m x)
    → Text m a s
    → Text m' a s
Text-same [] a m m' eq h = eq a (omega arith) (omega arith) ∙ h
Text-same (c ∷ s) a m m' eq h = (
  eq a (omega arith) (omega arith) ∙ h.0,
  h.1,
  h.2,
  Text-same s (a + 1) m m' (λ x lo hi. eq x (omega arith) (omega arith)) h.3,
)

-- The string `s` has been copied to `d`.
pub record Copied (m : Mem) (d : ℕ) (s : List ℕ) (m' : Mem) : Type 0 where
  pub text : Text m' d s
  pub outside : (x : ℕ) → (x < d) ⊎ (d + length s < x) → m' x ≡ m x

-- With fuel above the length, and two places that do not overlap, strcpy ends with the address of
-- the terminator, the string stands at the destination, and no byte outside it has changed.
pub strcpy-Copied :
    (s : List ℕ) (fuel d a : ℕ) (m : Mem)
    → Text m a s
    → (d + length s < a) ⊎ (a + length s < d)
    → length s < fuel
    → (m' : Mem) × (strcpy fuel d a m ≡ some (d + length s, m')) × Copied m d s m'
unfolding strcpy
strcpy-Copied s zero d a m hs apart lt = absurd (omega arith)
strcpy-Copied [] (suc fuel) d a m hs apart lt = (
  store8 m d 0,
  ground (arith, hs),
  record { text = store8_self m d 0; outside = λ x out. store8-other m d 0 x (omega arith) },
)
strcpy-Copied (c ∷ s) (suc fuel) d a m hs apart lt =
    let m₁ = store8 m d (m a) in
    let rest : Text m₁ (a + 1) s =
      Text-same s (a + 1) m m₁ (λ x lo hi. store8-other m d (m a) x (omega arith)) hs.3 in
    let (m', ran, copied) =
      strcpy-Copied s fuel (d + 1) (a + 1) m₁ rest (omega arith) (omega arith) in
    (
      m',
      ground (arith, ran, hs),
      record {
        text = (
          copied.outside d (inl (omega arith)) ∙ (store8_self m d (m a) ∙ omega (arith, hs)),
          hs.1,
          hs.2,
          copied.text,
        );
        outside = λ x out. copied.outside x (omega arith) ∙ store8-other m d (m a) x (omega arith);
      },
    )
