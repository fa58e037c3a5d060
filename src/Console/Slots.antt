-- ===== src/Console/Slots.antt =====
-- The characters in the circular buffer, as a list.
use quaros.Base.{
  ℕ, zero, suc, ◌+◌, ◌%◌, ◌≤◌, ◌<◌, ◌≡◌, refl, ap, List, [], ◌∷◌, ◌++◌, arith, length,
  length-append, set, get_or, get_or-set_ne,
}

-- the `n` characters from index `r` on, going round at the end of the buffer
unfoldable pub slots : List ℕ → ℕ → ℕ → List ℕ
slots buf r zero = []
slots buf r (suc n) = slots buf r n ++ (get_or buf ((r + n) % 4096) 0 ∷ [])

pub length-slots : (buf : List ℕ) (r n : ℕ) → length (slots buf r n) ≡ n
unfolding slots
length-slots buf r zero = refl
length-slots buf r (suc n) = omega (
  arith,
  length-append (slots buf r n) (get_or buf ((r + n) % 4096) 0 ∷ []),
  length-slots buf r n,
)

-- A write past the characters leaves them alone.
pub slots-set :
    (buf : List ℕ) (r n i x : ℕ)
    → r < 4096
    → n < 4096
    → i ≡ (r + n) % 4096
    → (m : ℕ) → m ≤ n
    → slots (set buf i x) r m ≡ slots buf r m
unfolding slots
slots-set buf r n i x hr hn e zero le = refl
slots-set buf r n i x hr hn e (suc m) le = rw (
  slots-set buf r n i x hr hn e m (omega arith),
  get_or-set_ne buf i ((r + m) % 4096) x 0 (omega arith),
)

-- The oldest character comes off the front.
pub slots-front :
    (buf : List ℕ) (r n : ℕ)
    → r < 4096
    → slots buf r (suc n) ≡ get_or buf r 0 ∷ slots buf ((r + 1) % 4096) n
unfolding slots
slots-front buf r zero hr = ap (λ i. get_or buf i 0 ∷ []) (omega arith)
slots-front buf r (suc n) hr =
    let here : (r + suc n) % 4096 ≡ ((r + 1) % 4096 + n) % 4096 = omega arith in
    rw (slots-front buf r n hr, here)
