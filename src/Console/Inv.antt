-- ===== src/Console/Inv.antt =====
-- The invariant of the console's buffer, and who keeps it.
use quaros.Base.{ℕ, ◌+◌, ◌%◌, ◌≤◌, ◌<◌, ◌≡◌, ◌≢◌, ◌⊎◌, done, arith, length, length-set}
use quaros.Console.{Console, max_buf, del, write_circular_buf, store_char, read_circular_buf}

-- `edit_len` counts all the characters from `read_i` to `edit_i`, `buf_len` those of the whole
-- lines among them.
pub record IsValid (c : Console) : Type 0 where
  pub storage : length c.circular_buf ≡ max_buf
  pub read_in : c.read_i < max_buf
  pub held : c.edit_len ≤ max_buf
  pub lines : c.buf_len ≤ c.edit_len
  pub edit_at : c.edit_i ≡ (c.read_i + c.edit_len) % max_buf
  pub write_at : c.write_i ≡ (c.read_i + c.buf_len) % max_buf

-- Any character but DEL keeps the invariant; with a full buffer it panics.
pub store_char-IsValid :
    (ch : ℕ) (c : Console) → IsValid c → c.edit_len ≢ max_buf → IsValid (store_char ch c)
unfolding store_char
store_char-IsValid ch c v ne = ground (arith, length-set c.circular_buf c.edit_i ch)

pub read_circular_buf-IsValid : (c : Console) → IsValid c → IsValid (read_circular_buf c).1
unfolding read_circular_buf
read_circular_buf-IsValid c v = ground arith

-- DEL keeps the invariant while the line being edited is not empty.
pub write_circular_buf-IsValid :
    (ch : ℕ) (c : Console) {c' : Console}
    → IsValid c
    → (ch ≡ del → c.edit_len ≡ 0 ⊎ c.buf_len < c.edit_len)
    → write_circular_buf ch c ≡ done (tt, c')
    → IsValid c'
unfolding write_circular_buf
write_circular_buf-IsValid ch c v edits e = ground (arith, store_char-IsValid ch c v)
