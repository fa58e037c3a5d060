-- ===== src/Str/Memcpy.antt =====
-- What `memcpy` copies.
use quaros.Base.{ℕ, zero, suc, ◌+◌, ◌%◌, ◌<◌, ◌≤◌, ◌≡◌, ◌∙◌, ◌⊎◌, inl, arith, refl, ap}
use quaros.Ram.{Mem, store8, store8_self, store8-other}
use quaros.Str.{memcpy}

-- It writes only to its destination.
pub memcpy-outside : (n d s : ℕ) (m : Mem) (x : ℕ) → (x < d) ⊎ (d + n ≤ x) → memcpy d s n m x ≡ m x
unfolding memcpy
memcpy-outside zero d s m x h = refl
memcpy-outside (suc n) d s m x h =
    memcpy-outside n (d + 1) (s + 1) (store8 m d (m s)) x (omega arith)
    ∙ store8-other m d (m s) x (omega arith)

-- `memcpy` between ranges that do not overlap copies each of the n bytes.
pub memcpy-copies :
    (n d s : ℕ) (m : Mem) (k : ℕ)
    → k < n
    → (d + n ≤ s) ⊎ (s + n ≤ d)
    → memcpy d s n m (d + k) ≡ m (s + k) % 256
unfolding memcpy
memcpy-copies zero d s m k lt apart = elim lt [ ]
memcpy-copies (suc n) d s m zero lt apart =
    memcpy-outside n (d + 1) (s + 1) (store8 m d (m s)) (d + 0) (inl (omega arith))
    ∙ (ap (store8 m d (m s)) (omega arith)
        ∙ (store8_self m d (m s) ∙ ap (λ x. m x % 256) (omega arith)))
memcpy-copies (suc n) d s m (suc k) lt apart =
    ap (memcpy (d + 1) (s + 1) n (store8 m d (m s))) (omega arith)
    ∙ (memcpy-copies n (d + 1) (s + 1) (store8 m d (m s)) k (omega arith) (omega arith)
        ∙ ap (λ b. b % 256) (store8-other m d (m s) (s + 1 + k) (omega arith) ∙ ap m (omega arith)))
