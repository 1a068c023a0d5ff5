-- ===== src/Input/Mouse.antt =====
-- kernel/drivers/mouse.c: the PS/2 packets and the position on the screen.
-- A port read is an argument of the operation; coordinates are C ints, modelled with a sign.
pub mod Position
pub mod Setup
use revinix_os.Base.{
  ℕ, zero, suc, ◌+◌, ◌-◌, ◌*◌, ◌/◌, ◌%◌, ◌^◌, Bool, true, false, not, ◌&&◌, ◌||◌, List, [], ◌∷◌,
  ltb, leb, ◌==◌, ◌!=◌, if◌then◌else◌, add32, update, has_bit, ℤ, pos, ◌+ℤ◌, ◌-ℤ◌, ltb_ℤ, leb_ℤ,
}

-- the statics of mouse.c, and what gfx.c says of the screen
pub record Mouse : Type 0 where
  pub mx : ℤ
  pub my : ℤ
  pub mbuttons : ℕ
  pub mpackets : ℕ
  pub mchanged : Bool
  pub packet : ℕ → ℕ
  pub packet_idx : ℕ
  pub ready : Bool
  pub gfx_ready : Bool
  pub gfx_width : ℕ
  pub gfx_height : ℕ

unfoldable pub screen_w : Mouse → ℕ
screen_w m = if m.gfx_ready then m.gfx_width else 640

unfoldable pub screen_h : Mouse → ℕ
screen_h m = if m.gfx_ready then m.gfx_height else 480

-- the last part of `mouse_init`, when the mouse has answered
pub mouse_ready : Mouse → Mouse
mouse_ready m = record m {
  mx = pos (screen_w m / 2);
  my = pos (screen_h m / 2);
  packet_idx = 0;
  ready = true;
}

-- `packet[i] - ((packet[0] << s) & 0x100)`: the sign bit of byte 0 takes away 256
unfoldable pub delta : ℕ → Bool → ℤ
delta byte sign = pos byte -ℤ pos (if sign then 256 else 0)

-- `if (v < 0) v = 0; if (v >= limit) v = limit - 1;`
unfoldable pub clamp : ℤ → ℕ → ℤ
clamp v limit =
    let at_least = (if ltb_ℤ v (pos 0) then pos 0 else v) in
    if leb_ℤ (pos limit) at_least then pos limit -ℤ pos 1 else at_least

-- what a whole packet does
pub apply_packet : Mouse → Mouse
apply_packet m =
    let first = m.packet 0 in
    let dx = delta (m.packet 1) (has_bit first 4) in
    let dy = delta (m.packet 2) (has_bit first 5) in
    if has_bit first 6 || has_bit first 7 then m else record m {
      mx = clamp (m.mx +ℤ dx) (screen_w m);
      my = clamp (m.my -ℤ dy) (screen_h m);
      mbuttons = first % 8;
      mpackets = add32 m.mpackets 1;
      mchanged = true;
    }

-- `mouse_handle_irq` once a byte is read and the mouse is ready
pub take_byte : Mouse → ℕ → Mouse
take_byte m b =
    let taken = record m {
      packet = update m.packet m.packet_idx b;
      packet_idx = m.packet_idx + 1;
    } in
    if (m.packet_idx == 0) && not (has_bit b 3)
    then m
    else if ltb taken.packet_idx 3
    then taken
    else apply_packet (record taken { packet_idx = 0 })

-- `mouse_handle_irq`, with the status byte and the data byte that the ports hold
pub handle_irq : Mouse → ℕ → ℕ → Mouse
handle_irq m status b =
    if not (has_bit status 0) then m else if not m.ready then m else take_byte m b

-- `struct mouse_state`
pub record MouseState : Type 0 where
  pub x : ℤ
  pub y : ℤ
  pub buttons : ℕ
  pub packets : ℕ

pub mouse_get : Mouse → MouseState
mouse_get m = record { x = m.mx; y = m.my; buttons = m.mbuttons; packets = m.mpackets }

pub mouse_poll : Mouse → Bool × MouseState × Mouse
mouse_poll m = (m.ready && m.mchanged, mouse_get m, record m { mchanged = false })
