-- ===== src/Tests/Devices.antt =====
-- The console, descriptors and system-call arguments at concrete inputs.
use quaros.Base.{
  ℕ, ◌+◌, ◌*◌, ◌%◌, ◌≡◌, inr, refl, [], ◌∷◌, done, arith, replicate, set, length, length-set,
  length-replicate, map,
}
use quaros.Console.{del, Console, max_buf, newline, write_circular_buf, read_console}
use quaros.Console.Inv.{IsValid}
use quaros.Console.Line.{Line, typed}
use quaros.Console.Slots.{slots}
use quaros.Console.Refine.{write_circular_buf-released, Holds, write_circular_buf-Holds}
use quaros.Console.Read.{read_console-Holds}
use quaros.Descriptor.{zero_desc, init_segmentation, SegmentDesc, Gate, init_idt}
use quaros.Descriptor.Decode.{EntersAt, init_idt-gates}

-- The console holds the line `h` with its newline, and `i` of the next line.
abbrev pub hello_console : Console
hello_console = record {
  buf_len = 2;
  edit_len = 3;
  edit_i = 3;
  write_i = 2;
  read_i = 0;
  circular_buf = set (set (set (replicate max_buf 0) 0 b'h') 1 newline) 2 b'i';
}

abbrev pub hello : Line
hello = record { lines = b'h' ∷ newline ∷ []; edit = b'i' ∷ [] }

hello-storage : length (hello_console.circular_buf) ≡ max_buf
hello-storage = omega (
  arith,
  length-replicate {A = ℕ} max_buf 0,
  length-set {A = ℕ} (replicate max_buf 0) 0 b'h',
  length-set {A = ℕ} (set (replicate max_buf 0) 0 b'h') 1 newline,
  length-set {A = ℕ} (set (set (replicate max_buf 0) 0 b'h') 1 newline) 2 b'i',
)

pub hello-Holds : Holds hello_console hello
unfolding slots
hello-Holds = record {
  valid = record {
    storage = hello-storage;
    read_in = omega arith;
    held = omega arith;
    lines = omega arith;
    edit_at = refl;
    write_at = refl;
  };
  chars = refl;
  count = refl;
}

write_circular_buf-Holds_example :
    (c' : Console) × (write_circular_buf newline hello_console ≡ done (tt, c'))
    × Holds c' (typed newline hello)
write_circular_buf-Holds_example =
    write_circular_buf-Holds newline hello_console hello (inr (omega arith)) (λ e e'. cc)
      hello-Holds

read_console-Holds_example :
    ((read_console 5 hello_console).0 ≡ map (λ ch. ch % 256) (b'h' ∷ newline ∷ []))
    × Holds (read_console 5 hello_console).1 (record { lines = []; edit = b'i' ∷ [] })
read_console-Holds_example =
    read_console-Holds 5 hello_console (b'h' ∷ newline ∷ []) (b'i' ∷ [])
      (omega arith, (omega arith, tt)) hello-Holds

-- The line `h` alone.
abbrev line_console : Console
line_console = record hello_console { edit_len = 2; edit_i = 2 }

line-Holds : Holds line_console (record { lines = b'h' ∷ newline ∷ []; edit = [] })
unfolding slots
line-Holds = record {
  valid = record {
    storage = hello-storage;
    read_in = omega arith;
    held = omega arith;
    lines = omega arith;
    edit_at = refl;
    write_at = refl;
  };
  chars = refl;
  count = refl;
}

write_circular_buf-released_example :
    (c' : Console) × (write_circular_buf del line_console ≡ done (tt, c'))
    × (c'.edit_len + 1 ≡ c'.buf_len)
    × ¬ IsValid c'
write_circular_buf-released_example =
    write_circular_buf-released line_console b'h' (newline ∷ []) line-Holds

abbrev no_desc : SegmentDesc
no_desc = record {
  limit0 = 0;
  base0 = 0;
  base1 = 0;
  type = 0;
  s = 0;
  dpl = 0;
  p = 0;
  limit = 0;
  avl = 0;
  l = 0;
  d = 0;
  g = 0;
  base2 = 0;
}

abbrev no_gate : Gate
no_gate = record {
  offset0 = 0;
  selector = 0;
  unused = 0;
  type = 0;
  s = 0;
  dpl = 0;
  p = 0;
  offset1 = 0;
}

abbrev some_vectors : ℕ → ℕ
some_vectors i = 0x80100000 + i % 256 * 16

init_idt-gates_example :
    EntersAt
      (init_segmentation 0xc020_0000 (λ _. zero_desc))
      (init_idt some_vectors (λ _. no_gate) 128)
      (some_vectors 128)
      3
init_idt-gates_example =
    init_idt-gates some_vectors (λ _. no_gate) 128 0xc020_0000 (λ _. zero_desc) (λ j. refl)
      (omega arith) (omega arith)
