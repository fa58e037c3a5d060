-- ===== src/Uart.antt =====
-- The serial port of uart.c: what an interrupt reads from it and writes back. The device is given by
-- what its line status and data registers hold.
use quaros.Base.{ℕ, ◌-◌, ◌%◌, ◌^◌, ◌&&◌, List, [], ◌∷◌, ltb, ◌==◌, if◌then◌else◌}
use quaros.Console.{del}

-- The result -1 stands for no character; a carriage return becomes a newline.
unfoldable pub uart_read_byte : ℕ → ℕ → ℕ
uart_read_byte status byte = if status % 2 == 1 then if byte == 13 then 10 else byte else 2 ^ 32 - 1

-- `handle_uartintr`: the character, with the bytes that are echoed.
unfoldable pub handle_uartintr : ℕ → ℕ → ℕ → ℕ × List ℕ
unfolding uart_read_byte
handle_uartintr status byte edit_len =
    let ret = uart_read_byte status byte in
    if ret == del
    then (ret, (if ltb 0 edit_len && ltb edit_len (2 ^ 31) then 8 ∷ 32 ∷ 8 ∷ [] else []))
    else (ret, (ret % 256) ∷ [])
