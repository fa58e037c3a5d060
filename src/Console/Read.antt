-- ===== src/Console/Read.antt =====
-- Reading from the circular buffer.
use quaros.Base.{
  ℕ, zero, suc, ◌+◌, ◌-◌, ◌%◌, ◌^◌, ◌<◌, ◌≡◌, refl, ap, sym, ◌∙◌, true, Option, none, some, List,
  [], ◌∷◌, ◌++◌, arith, get_or, map, take, drop, All,
}
use quaros.Console.{Console, read_circular_buf, read_console, nonneg}
use quaros.Console.Inv.{read_circular_buf-IsValid}
use quaros.Console.Slots.{slots, slots-front}
use quaros.Console.Refine.{Holds, count_edit}

front-chars :
    (buf : List ℕ) (r n x : ℕ) (xs : List ℕ)
    → r < 4096
    → slots buf r (suc n) ≡ x ∷ xs
    → (get_or buf r 0 ≡ x) × (slots buf ((r + 1) % 4096) n ≡ xs)
front-chars buf r n x xs hr h =
    let e : get_or buf r 0 ∷ slots buf ((r + 1) % 4096) n ≡ x ∷ xs =
      sym (slots-front buf r n hr) ∙ h in
    (cc, cc)

-- A read takes the first character of the released lines, if there is one.
read-some :
    (c : Console) (x : ℕ) (xs ys : List ℕ)
    → Holds c (record { lines = x ∷ xs; edit = ys })
    → (read_circular_buf c).0 ≡ some x
      × Holds (read_circular_buf c).1 (record { lines = xs; edit = ys })
unfolding read_circular_buf
read-some c x xs ys h =
    let n = count_edit c (record { lines = x ∷ xs; edit = ys }) h in
    let pred_suc : suc (c.edit_len - 1) ≡ c.edit_len = omega (arith, n, h.count) in
    let (first, rest) =
      front-chars c.circular_buf c.read_i (c.edit_len - 1) x (xs ++ ys) h.valid.read_in
        (rw pred_suc h.chars) in
    (
      ground (arith, first, h.count),
      record {
        valid = read_circular_buf-IsValid c h.valid;
        chars = ground (arith, rest, n, h.count, h.valid.held, h.valid.read_in);
        count = ground (arith, h.count, n, h.valid.held);
      },
    )

-- With no line released a read finds nothing and changes nothing.
read-none :
    (c : Console) (ys : List ℕ)
    → Holds c (record { lines = []; edit = ys })
    → read_circular_buf c ≡ (none, c)
unfolding read_circular_buf
read-none c ys h = ground (arith, h.count)

read_console-step :
    (count : ℕ) (c : Console) (x : ℕ)
    → (read_circular_buf c).0 ≡ some x
    → x < 2 ^ 31
    → let (rest, c') = read_console count (read_circular_buf c).1 in
      read_console (suc count) c ≡ ((x % 256) ∷ rest, c')
unfolding read_console
read_console-step count c x got pos =
    let is_nonneg : nonneg x ≡ true = ground arith in rw (got, is_nonneg, read_console)

read_console-stop :
    (count : ℕ) (c : Console)
    → read_circular_buf c ≡ (none, c)
    → read_console (suc count) c ≡ ([], c)
unfolding read_console
read_console-stop count c e =
    rw (ap (λ (r : Option ℕ × Console). r.0) e, read_console)
      (ap (λ (r : Option ℕ × Console). ([], r.1)) e)

-- From a buffer that holds released characters, none of the first count of them negative,
-- read_console hands out the first count of them in order, and the buffer then holds the others
-- and the line being edited.
pub read_console-Holds :
    (count : ℕ) (c : Console) (xs ys : List ℕ)
    → All (λ ch. ch < 2 ^ 31) (take count xs)
    → Holds c (record { lines = xs; edit = ys })
    → ((read_console count c).0 ≡ map (λ ch. ch % 256) (take count xs))
      × Holds (read_console count c).1 (record { lines = drop count xs; edit = ys })
unfolding read_console
read_console-Holds zero c xs ys pos h = (refl, h)
read_console-Holds (suc count) c [] ys pos h =
    rw (read_console-stop count c (read-none c ys h)) (refl, h)
read_console-Holds (suc count) c (x ∷ xs) ys pos h =
    let (got, rest) = read-some c x xs ys h in
    let (chars, after) = read_console-Holds count (read_circular_buf c).1 xs ys pos.1 rest in
    rw (read_console-step count c x got pos.0) (ap (λ t. (x % 256) ∷ t) chars, after)
