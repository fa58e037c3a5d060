-- ===== src/Device/Serial.antt =====
-- The output of uart.c and io.c, character by character through the serial port.
pub mod Sent
use quaros.Base.{
  ℕ, zero, suc, ◌+◌, ◌*◌, ◌/◌, ◌%◌, ◌^◌, Option, none, some, List, [], ◌∷◌, true, false, done,
  fault, out_of_fuel, M, pure, and_then, ◌>>=◌, ◌>>◌, ltb, ◌==◌,
}
use quaros.Ram.{Mem}
use quaros.Str.{strlen}
use quaros.Number.{printnum}
use quaros.Device.{Bus}

abbrev pub com1 : ℕ
com1 = 0x3f8

abbrev pub uart_line_stat : ℕ
uart_line_stat = 5

module _ {D : Type 0} (bus : Bus D) where
  unfoldable pub init_uart : D → D
  init_uart d₀ =
      let d₁ = bus.out_byte (com1 + 3) 0x80 d₀ in
      let d₂ = bus.out_byte (com1 + 0) (115200 / 9600) d₁ in
      let d₃ = bus.out_byte (com1 + 1) 0 d₂ in
      let d₄ = bus.out_byte (com1 + 3) 0x03 d₃ in
      let d₅ = bus.out_byte (com1 + 4) 0x0 d₄ in bus.out_byte (com1 + 1) 0x1 d₅

  -- The loop ends when bit 5 of the line status, 32, is set.
  unfoldable pub uart_write_byte : ℕ → ℕ → M D (Unit {0})
  uart_write_byte zero ch d = out_of_fuel
  uart_write_byte (suc fuel) ch d =
      let (status, d') = bus.in_byte (com1 + uart_line_stat) d in
      elim (status / 32 % 2 == 1) [
        | true ↦ done (tt, bus.out_byte com1 ch d')
        | false ↦ uart_write_byte fuel ch d'
      ]

  abbrev pub putchar : ℕ → ℕ → M D ℕ
  putchar fuel c = uart_write_byte fuel (c % 256) >>= λ _. pure c

  unfoldable pub printn : ℕ → ℕ → ℕ → Mem → M D (Unit {0})
  unfolding uart_write_byte
  printn fuel s zero m = pure tt
  printn fuel s (suc n) m = putchar fuel (m s) >> printn fuel (s + 1) n m

  -- The loop of `print`, which measures the string in each round.
  unfoldable pub print_loop : ℕ → ℕ → ℕ → ℕ → Mem → M D (Unit {0})
  unfolding uart_write_byte
  print_loop zero fuel s i m d = out_of_fuel
  print_loop (suc rounds) fuel s i m d = elim (strlen fuel m s 0) [
    | none ↦ out_of_fuel
    | some n ↦ elim (ltb i n) [
      | true ↦ (putchar fuel (m (s + i)) >> print_loop rounds fuel s (i + 1) m) d
      | false ↦ done (tt, d)
    ]
  ]

  unfoldable pub print : ℕ → ℕ → Mem → M D ℕ
  unfolding print_loop
  print fuel s m = print_loop fuel fuel s 0 m >>= λ _ d. elim (strlen fuel m s 0) [
    | none ↦ out_of_fuel
    | some n ↦ done (n, d)
  ]

  unfoldable pub puts : ℕ → ℕ → Mem → M D ℕ
  unfolding print uart_write_byte
  puts fuel s m = do n ← print fuel s m; putchar fuel 10; pure (n + 1)

  -- the digits of `printnum`, and their characters one by one
  unfoldable pub put_digits : ℕ → List ℕ → M D (Unit {0})
  unfolding uart_write_byte
  put_digits fuel [] = pure tt
  put_digits fuel (c ∷ cs) = putchar fuel c >> put_digits fuel cs

  unfoldable pub print_number : ℕ → ℕ → M D ℕ
  unfolding put_digits
  print_number fuel x d = elim (printnum x) [
    | none ↦ out_of_fuel
    | some digits ↦ (put_digits fuel digits >> pure 1) d
  ]
