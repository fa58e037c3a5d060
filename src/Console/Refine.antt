-- ===== src/Console/Refine.antt =====
-- Typing into the circular buffer.
use mathlib.Core.List.{append_assoc, append-nil}
use quaros.Base.{
  ℕ, suc, ◌+◌, ◌-◌, ◌%◌, ◌≡◌, ◌≢◌, ◌⊎◌, inl, inr, refl, ap, sym, ◌∙◌, false, List, [], ◌∷◌, ◌++◌,
  done, arith, ◌==◌, length, length-append, set, get_or, get_or-set_self, Bool-cases,
}
use quaros.Console.{Console, max_buf, del, write_circular_buf, store_char, dec32}
use quaros.Console.Line.{Line, typed, drop_last, drop_last-snoc, drop_last-append}
use quaros.Console.Inv.{IsValid, store_char-IsValid}
use quaros.Console.Slots.{slots, length-slots, slots-set}

-- The buffer holds the characters of `l`.
pub record Holds (c : Console) (l : Line) : Type 0 where
  pub valid : IsValid c
  pub chars : slots c.circular_buf c.read_i c.edit_len ≡ l.lines ++ l.edit
  pub count : c.buf_len ≡ length l.lines

pub count_edit : (c : Console) (l : Line) → Holds c l → c.edit_len ≡ c.buf_len + length l.edit
count_edit c l h = omega (
  arith,
  length-slots c.circular_buf c.read_i c.edit_len,
  ap length h.chars,
  length-append l.lines l.edit,
  h.count,
)

-- what `write_circular_buf` leaves in the characters' places when it stores one
stored :
    (ch : ℕ) (c : Console)
    → IsValid c
    → c.edit_len ≢ max_buf
    → slots (set c.circular_buf c.edit_i ch) c.read_i (suc c.edit_len)
      ≡ slots c.circular_buf c.read_i c.edit_len ++ (ch ∷ [])
unfolding slots
stored ch c v ne = rw (
  slots-set c.circular_buf c.read_i c.edit_len c.edit_i ch v.read_in (omega arith) v.edit_at
      c.edit_len (omega arith),
  ← v.edit_at,
  get_or-set_self c.circular_buf c.edit_i ch 0 (omega arith),
)

module _ (ch : ℕ) (c : Console) (l : Line) (h : Holds c l) (ne : c.edit_len ≢ max_buf) where
  store_char-chars :
      slots (store_char ch c).circular_buf (store_char ch c).read_i (store_char ch c).edit_len
      ≡ l.lines ++ (l.edit ++ (ch ∷ []))
  unfolding store_char
  store_char-chars = ground (arith, after, h.valid.held)
    where
      after :
          slots (set c.circular_buf c.edit_i ch) c.read_i (suc c.edit_len)
          ≡ l.lines ++ (l.edit ++ (ch ∷ []))
      after = stored ch c h.valid ne ∙ rw (h.chars) (append_assoc l.lines l.edit (ch ∷ []))

  -- A character that is stored is appended to the line being edited; a newline releases it.
  store_char-Holds : (ch == del) ≡ false → Holds (store_char ch c) (typed ch l)
  unfolding store_char typed
  store_char-Holds not_del = record {
    valid = store_char-IsValid ch c h.valid ne;
    chars = store_char-chars ∙ ground (arith, append-nil (l.lines ++ (l.edit ++ (ch ∷ []))));
    count = ground (
      arith,
      length-append l.lines (l.edit ++ (ch ∷ [])),
      length-append l.edit (ch ∷ []),
      count_edit c l h,
      h.count,
      h.valid.held,
    );
  }

del-chars :
    (buf : List ℕ) (r n : ℕ) (xs : List ℕ) (y : ℕ) (ys : List ℕ)
    → slots buf r (suc n) ≡ xs ++ (y ∷ ys)
    → slots buf r n ≡ xs ++ drop_last (y ∷ ys)
unfolding slots
del-chars buf r n xs y ys h =
    sym (drop_last-snoc (slots buf r n) (get_or buf ((r + n) % 4096) 0))
    ∙ (ap drop_last h ∙ drop_last-append xs y ys)

-- DEL takes the last character of the line being edited away.
del-Holds :
    (c : Console) (xs : List ℕ) (y : ℕ) (ys : List ℕ)
    → Holds c (record { lines = xs; edit = y ∷ ys })
    → (c' : Console) × (write_circular_buf del c ≡ done (tt, c'))
      × Holds c' (typed del (record { lines = xs; edit = y ∷ ys }))
unfolding write_circular_buf typed
del-Holds c xs y ys h =
    let e = count_edit c (record { lines = xs; edit = y ∷ ys }) h in
    let pred_suc : suc (c.edit_len - 1) ≡ c.edit_len = omega (arith, e) in
    (
      record c { edit_i = dec32 c.edit_i % max_buf; edit_len = dec32 c.edit_len },
      ground (arith, e),
      record {
        valid = omega (arith, e, h.valid);
        chars =
            ap (slots c.circular_buf c.read_i) (omega (arith, e, h.valid.held))
            ∙ del-chars c.circular_buf c.read_i (c.edit_len - 1) xs y ys (rw pred_suc h.chars);
        count = h.count;
      },
    )

del-Holds_empty :
    (c : Console)
    → Holds c (record { lines = []; edit = [] })
    → write_circular_buf del c ≡ done (tt, c)
unfolding write_circular_buf
del-Holds_empty c h =
    let e = count_edit c (record { lines = []; edit = [] }) h in ground (arith, e, h.count)

store-Holds :
    (ch : ℕ) (c : Console) (l : Line)
    → (ch == del) ≡ false
    → c.edit_len ≢ max_buf
    → Holds c l
    → (c' : Console) × (write_circular_buf ch c ≡ done (tt, c')) × Holds c' (typed ch l)
unfolding write_circular_buf
store-Holds ch c l not_del ne h =
    let room : (c.edit_len == max_buf) ≡ false = ground arith in
    (store_char ch c, rw (not_del, room), store_char-Holds ch c l h ne not_del)

del_step :
    (c : Console) (xs ys : List ℕ)
    → (ys ≡ [] → xs ≡ [])
    → Holds c (record { lines = xs; edit = ys })
    → (c' : Console) × (write_circular_buf del c ≡ done (tt, c'))
      × Holds c' (typed del (record { lines = xs; edit = ys }))
unfolding typed
del_step c xs (y ∷ ys) empty h = del-Holds c xs y ys h
del_step c xs [] empty h = let e = empty refl in rw e (c, del-Holds_empty c (rw e at h), rw e at h)

-- A typed character does to the circular buffer what it does to the lines: it is appended to the
-- line being edited, a newline releases that line, DEL takes its last character away; provided
-- that the buffer has room for a character that is stored, and that DEL finds the line not empty
-- or nothing released.
pub write_circular_buf-Holds :
    (ch : ℕ) (c : Console) (l : Line)
    → (ch ≡ del) ⊎ (c.edit_len ≢ max_buf)
    → (ch ≡ del → l.edit ≡ [] → l.lines ≡ [])
    → Holds c l
    → (c' : Console) × (write_circular_buf ch c ≡ done (tt, c')) × Holds c' (typed ch l)
write_circular_buf-Holds ch c l room edits h = elim (Bool-cases (ch == del)) [
  | inl is_del ↦ let e : ch ≡ del = ground arith in rw e (del_step c l.lines l.edit (edits e) h)
  | inr not_del ↦ let ne : c.edit_len ≢ max_buf = ground arith in store-Holds ch c l not_del ne h
]

-- With released characters in the buffer and nothing after them, DEL shortens edit_len below
-- buf_len, and the buffer's invariant is lost.
pub write_circular_buf-released :
    (c : Console) (x : ℕ) (xs : List ℕ)
    → Holds c (record { lines = x ∷ xs; edit = [] })
    → (c' : Console) × (write_circular_buf del c ≡ done (tt, c'))
      × (c'.edit_len + 1 ≡ c'.buf_len)
      × ¬ IsValid c'
unfolding write_circular_buf
write_circular_buf-released c x xs h =
    let e = count_edit c (record { lines = x ∷ xs; edit = [] }) h in
    (
      record c { edit_i = dec32 c.edit_i % max_buf; edit_len = dec32 c.edit_len },
      ground (arith, e, h.count),
      omega (arith, e, h.count, h.valid.held),
      λ v. omega (arith, e, h.count, h.valid.held, v.lines),
    )
