-- ===== src/Input/Tests.antt =====
-- The input devices at concrete states.
use revinix_os.Base.{pos}
use revinix_os.Base.{◌≡◌, refl, true, false, ◌||◌, if◌then◌else◌, leb, arith, has_bit}
use revinix_os.Input.Keyboard.{Keyboard, handle_scancode}
use revinix_os.Input.Keyboard.Line.{
  Latched, line_of, edited, key_char, is_shift, handle_scancode-edited,
}
use revinix_os.Input.Keyboard.Line as Line
use revinix_os.Input.Mouse.{Mouse, handle_irq, screen_w, screen_h}
use revinix_os.Input.Mouse.Position.{IsValid, handle_irq-IsValid}

-- the line "hi"
abbrev typed : Keyboard
typed = record {
  line_buf = λ i. if leb 1 i then 105 else 104;
  line_len = 2;
  shift_down = false;
  ready_line = λ i. 0;
  line_ready = false;
}

handle_scancode-edited_example :
    let k' = (handle_scancode typed 0x1c).0 in
    let c = key_char false 0x1c in
    Line.IsValid k'
    × (line_of k'
        ≡ (if leb 128 0x1c || is_shift 0x1c then line_of typed else edited (line_of typed) c))
    × (leb 128 0x1c || is_shift 0x1c ≡ false → c ≡ 10 → Latched k' (line_of typed))
handle_scancode-edited_example = handle_scancode-edited typed 0x1c (omega arith)

abbrev centred : Mouse
centred = record {
  mx = pos 320;
  my = pos 240;
  mbuttons = 0;
  mpackets = 0;
  mchanged = true;
  packet = λ i. 8;
  packet_idx = 2;
  ready = true;
  gfx_ready = false;
  gfx_width = 0;
  gfx_height = 0;
}

centred-IsValid : IsValid centred
unfolding screen_w screen_h has_bit
centred-IsValid = record {
  across = (refl, omega arith);
  down = (refl, omega arith);
  index = omega arith;
  first = λ pos. refl;
}

handle_irq-IsValid_example : IsValid (handle_irq centred 1 250)
handle_irq-IsValid_example = handle_irq-IsValid centred 1 250 centred-IsValid
