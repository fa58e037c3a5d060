-- ===== src/Device/Serial/Sent.antt =====
-- What the serial port is sent.
use quaros.Base.{
  ℕ, zero, suc, ◌+◌, ◌/◌, ◌%◌, ◌<◌, ◌≡◌, refl, ap, subst, true, false, some, List, [], ◌∷◌, ◌++◌,
  length, done, ltb, ◌==◌, arith,
}
use quaros.Ram.{Mem}
use quaros.Str.{strlen}
use quaros.Str.Text.{Text, strlen-length}
use quaros.Device.{Bus}
use quaros.Device.Serial.{com1, uart_line_stat, uart_write_byte, putchar, print_loop, print, puts}

module _ {D : Type 0} (bus : Bus D) where
  -- After `n` looks at the line status that say otherwise, it says that the port takes a byte.
  pub data Drains : ℕ → D → D → Type 0 where
    ready :
        {d d' : D}
        → (bus.in_byte (com1 + uart_line_stat) d).0 / 32 % 2 ≡ 1
        → (bus.in_byte (com1 + uart_line_stat) d).1 ≡ d'
        → Drains 0 d d'
    busy :
        {n : ℕ} {d d₁ d' : D}
        → (bus.in_byte (com1 + uart_line_stat) d).0 / 32 % 2 ≡ 0
        → (bus.in_byte (com1 + uart_line_stat) d).1 ≡ d₁
        → Drains n d₁ d'
        → Drains (suc n) d d'

  -- The bytes are sent one after another, none with `fuel` or more looks in vain before it.
  pub data Sends (fuel : ℕ) : List ℕ → D → D → Type 0 where
    nothing : {d : D} → Sends fuel [] d d
    byte :
        {n c : ℕ} {cs : List ℕ} {d d₁ d₂ d' : D}
        → Drains n d d₁
        → n < fuel
        → bus.out_byte com1 c d₁ ≡ d₂
        → Sends fuel cs d₂ d'
        → Sends fuel (c ∷ cs) d d'

uart_write_byte-Drains :
    {D : Type 0} (bus : Bus D) (n fuel c : ℕ) (d d' : D)
    → Drains bus n d d'
    → n < fuel
    → uart_write_byte bus fuel c d ≡ done (tt, bus.out_byte com1 c d')
unfolding uart_write_byte
uart_write_byte-Drains bus n zero c d d' drains enough = absurd (omega arith)
uart_write_byte-Drains bus n (suc fuel) c d d' (ready now on) enough =
    let go : ((bus.in_byte (com1 + uart_line_stat) d).0 / 32 % 2 == 1) ≡ true =
      ground (arith, now) in
    rw (go, on, uart_write_byte) refl
uart_write_byte-Drains bus n (suc fuel) c d d' (busy {n = k} later on drains) enough =
    let stay : ((bus.in_byte (com1 + uart_line_stat) d).0 / 32 % 2 == 1) ≡ false =
      ground (arith, later) in
    rw (stay, on, uart_write_byte) (uart_write_byte-Drains bus k fuel c _ d' drains (omega arith))

putchar-Drains :
    {D : Type 0} (bus : Bus D) (n fuel c : ℕ) (d d₁ d₂ : D)
    → c < 256
    → Drains bus n d d₁
    → n < fuel
    → bus.out_byte com1 c d₁ ≡ d₂
    → putchar bus fuel c d ≡ done (c, d₂)
putchar-Drains bus n fuel c d d₁ d₂ small drains enough out =
    let low : c % 256 ≡ c = omega arith in
    rw (low, uart_write_byte-Drains bus n fuel c d d₁ drains enough, out) refl

putchar-Sends :
    {D : Type 0} (bus : Bus D) (fuel c : ℕ) (d d' : D)
    → c < 256
    → Sends bus fuel (c ∷ []) d d'
    → putchar bus fuel c d ≡ done (c, d')
putchar-Sends bus fuel c d d' small (byte drains waits out nothing) =
    putchar-Drains bus _ fuel c d _ d' small drains waits out

Sends-append :
    {D : Type 0} (bus : Bus D) (fuel : ℕ) (cs ds : List ℕ) (d d₁ : D)
    → Sends bus fuel (cs ++ ds) d d₁
    → (d₂ : D) × Sends bus fuel cs d d₂ × Sends bus fuel ds d₂ d₁
Sends-append bus fuel [] ds d d₁ h = (d, nothing, h)
Sends-append bus fuel (c ∷ cs) ds d d₁ (byte drains enough out more) =
    let (d₂, front, back) = Sends-append bus fuel cs ds _ d₁ more in
    (d₂, byte drains enough out front, back)

print_loop-Sends :
    {D : Type 0} (bus : Bus D) (t : List ℕ) (n rounds fuel s i : ℕ) (m : Mem) (d d' : D)
    → strlen fuel m s 0 ≡ some n
    → n ≡ i + length t
    → Text m (s + i) t
    → length t < rounds
    → Sends bus fuel t d d'
    → print_loop bus rounds fuel s i m d ≡ done (tt, d')
unfolding print_loop
print_loop-Sends bus t n zero fuel s i m d d' measured e text enough sends = absurd (omega arith)
print_loop-Sends bus [] n (suc rounds) fuel s i m d d' measured e text enough nothing =
    let stop : ltb i n ≡ false = ground arith in rw (measured, stop, print_loop) refl
print_loop-Sends bus (c ∷ t) n (suc rounds) fuel s i m d d' measured e text enough
      (byte drains waits out more) =
    let go : ltb i n ≡ true = ground arith in
    let here : m (s + i) ≡ c = text.0 in
    let on : s + i + 1 ≡ s + (i + 1) = omega arith in
    let sent = putchar-Drains bus _ fuel c d _ _ text.2 drains waits out in
    rw (measured, go, here, sent, print_loop)
      (print_loop-Sends bus t n rounds fuel s (i + 1) m _ d' measured (omega arith)
        (subst (λ x. Text m x t) on text.3) (omega arith) more)

pub print-Sends :
    {D : Type 0} (bus : Bus D) (t : List ℕ) (fuel s : ℕ) (m : Mem) (d d' : D)
    → Text m s t
    → length t < fuel
    → Sends bus fuel t d d'
    → print bus fuel s m d ≡ done (length t, d')
unfolding print
print-Sends bus t fuel s m d d' text enough sends =
    let here : s ≡ s + 0 = omega arith in
    let text' = subst (λ x. Text m x t) here text in
    let measured = strlen-length t fuel s 0 m text' enough in
    let ran =
      print_loop-Sends bus t (0 + length t) fuel fuel s 0 m d d' measured refl text' enough sends in
    rw (ran, measured) (ap (λ n. done (n, d')) (omega arith))

-- When the port takes the bytes of a string and a newline one after another, puts sends them, with
-- fuel for each wait and for the string, and returns its length and 1.
pub puts-Sends :
    {D : Type 0} (bus : Bus D) (t : List ℕ) (fuel s : ℕ) (m : Mem) (d d' : D)
    → Text m s t
    → length t < fuel
    → Sends bus fuel (t ++ 10 ∷ []) d d'
    → puts bus fuel s m d ≡ done (length t + 1, d')
unfolding puts
puts-Sends bus t fuel s m d d' text enough sends =
    let (d₂, front, back) = Sends-append bus fuel t (10 ∷ []) d d' sends in
    rw
      (
        print-Sends bus t fuel s m d d₂ text enough front,
        putchar-Sends bus fuel 10 d₂ d' (omega arith) back,
      )
      refl
