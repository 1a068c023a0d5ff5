-- ===== src/Input/Keyboard.antt =====
-- kernel/drivers/keyboard.c: scancodes into a line, and the completed line for the poller.
-- What is echoed is a list of characters; interrupts are off while the poller copies.
pub mod Line
use revinix_os.Base.{
  ℕ, zero, suc, ◌+◌, ◌-◌, ◌%◌, ◌^◌, Bool, true, false, ◌&&◌, ◌||◌, Option, none, some, List, [],
  ◌∷◌, ltb, leb, ◌==◌, ◌!=◌, if◌then◌else◌, sub32, get_or, update, ◌>>=◌,
}

abbrev pub kb_buf_size : ℕ
kb_buf_size = 128

-- the maps, from index 0 on; the rest of the 128 entries is 0
abbrev pub kbd_map : List ℕ
kbd_map =
    0 ∷ 27 ∷ 49 ∷ 50 ∷ 51 ∷ 52 ∷ 53 ∷ 54 ∷ 55 ∷ 56 ∷ 57 ∷ 48 ∷ 45 ∷ 61 ∷ 8 ∷ 9 ∷ 113 ∷ 119 ∷ 101
    ∷ 114 ∷ 116 ∷ 121 ∷ 117 ∷ 105 ∷ 111 ∷ 112 ∷ 91 ∷ 93 ∷ 10 ∷ 0 ∷ 97 ∷ 115 ∷ 100 ∷ 102 ∷ 103 ∷ 104
    ∷ 106 ∷ 107 ∷ 108 ∷ 59 ∷ 39 ∷ 96 ∷ 0 ∷ 92 ∷ 122 ∷ 120 ∷ 99 ∷ 118 ∷ 98 ∷ 110 ∷ 109 ∷ 44 ∷ 46 ∷ 47
    ∷ 0 ∷ 42 ∷ 0 ∷ 32 ∷ 0 ∷ 0 ∷ []

abbrev pub kbd_map_shift : List ℕ
kbd_map_shift =
    0 ∷ 27 ∷ 33 ∷ 64 ∷ 35 ∷ 36 ∷ 37 ∷ 94 ∷ 38 ∷ 42 ∷ 40 ∷ 41 ∷ 95 ∷ 43 ∷ 8 ∷ 9 ∷ 81 ∷ 87 ∷ 69 ∷ 82
    ∷ 84 ∷ 89 ∷ 85 ∷ 73 ∷ 79 ∷ 80 ∷ 123 ∷ 125 ∷ 10 ∷ 0 ∷ 65 ∷ 83 ∷ 68 ∷ 70 ∷ 71 ∷ 72 ∷ 74 ∷ 75 ∷ 76
    ∷ 58 ∷ 34 ∷ 126 ∷ 0 ∷ 124 ∷ 90 ∷ 88 ∷ 67 ∷ 86 ∷ 66 ∷ 78 ∷ 77 ∷ 60 ∷ 62 ∷ 63 ∷ 0 ∷ 42 ∷ 0 ∷ 32
    ∷ 0 ∷ 0 ∷ []

-- the statics of keyboard.c
pub record Keyboard : Type 0 where
  pub line_buf : ℕ → ℕ
  pub line_len : ℕ
  pub shift_down : Bool
  pub ready_line : ℕ → ℕ
  pub line_ready : Bool

-- `for (i = i; i <= line_len; i++) ready_line[i] = line_buf[i]`, with the rounds that are left
pub latch : ℕ → ℕ → (ℕ → ℕ) → (ℕ → ℕ) → ℕ → ℕ
latch zero i src dst = dst
latch (suc left) i src dst = latch left (i + 1) src (update dst i (src i))

-- what `keyboard_handle_scancode` does with a character, with what it prints
pub handle_char : Keyboard → ℕ → Keyboard × List ℕ
handle_char k c =
    let ended = update k.line_buf k.line_len 0 in
    if c == 0
    then (k, [])
    else if c == 10
    then (
      record k {
        line_buf = ended;
        ready_line = latch (k.line_len + 1) 0 ended k.ready_line;
        line_ready = true;
        line_len = 0;
      },
      10 ∷ [],
    )
    else if c == 8
    then (if ltb 0 k.line_len
        then (record k { line_len = k.line_len - 1 }, 8 ∷ 32 ∷ 8 ∷ [])
        else (k, []))
    else if ltb k.line_len (kb_buf_size - 1)
    then (record k { line_buf = update k.line_buf k.line_len c; line_len = k.line_len + 1 }, c ∷ [])
    else (k, [])

pub handle_scancode : Keyboard → ℕ → Keyboard × List ℕ
handle_scancode k scancode =
    let make = scancode % 128 in
    let c = get_or (if k.shift_down then kbd_map_shift else kbd_map) scancode 0 in
    if leb 128 scancode
    then ((if (make == 0x2a) || (make == 0x36) then record k { shift_down = false } else k), [])
    else if (scancode == 0x2a) || (scancode == 0x36)
    then (record k { shift_down = true }, [])
    else handle_char k c

-- the loop of `keyboard_poll_line`; `none` stands for more rounds than the fuel
pub poll_copy : ℕ → ℕ → (ℕ → ℕ) → ℕ → (ℕ → ℕ) → Option (ℕ × (ℕ → ℕ))
poll_copy zero i line out_size out = none
poll_copy (suc fuel) i line out_size out =
    let rest = poll_copy fuel (i + 1) line out_size (update out i (line i)) in
    if (line i != 0) && ltb i (sub32 out_size 1) then rest else some (i, out)

pub poll_line : ℕ → Keyboard → (ℕ → ℕ) → ℕ → Option (Bool × Keyboard × (ℕ → ℕ))
poll_line fuel k out out_size =
    let copied = poll_copy fuel 0 k.ready_line out_size out in
    if k.line_ready
    then (copied >>= λ r. some (true, record k { line_ready = false }, update r.1 r.0 0))
    else some (false, k, out)
