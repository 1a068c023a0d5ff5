-- ===== src/Input/Mouse/Setup.antt =====
-- kernel/drivers/mouse.c: the dialogue with the 8042 controller, over a bus.
-- A result is `false` or `none` for -1; interrupts are off meanwhile.
use revinix_os.Base.{
  ℕ, zero, suc, Bool, true, false, Option, none, some, ◌==◌, if◌then◌else◌, has_bit, with_bit,
  without_bit,
}
use revinix_os.Ports.{Bus}
use revinix_os.Input.Mouse.{Mouse, mouse_ready}
use revinix_os.Cpu.{pic_clear_mask}

abbrev pub ps2_data : ℕ
ps2_data = 0x60

abbrev pub ps2_status : ℕ
ps2_status = 0x64

abbrev pub ps2_cmd : ℕ
ps2_cmd = 0x64

abbrev pub ps2_timeout : ℕ
ps2_timeout = 100000

-- the next step where the one before has answered 0
unfoldable pub and_then : {D : Type 0} → Bool × D → (D → Bool × D) → Bool × D
and_then (false, d) next = (false, d)
and_then (true, d) next = next d

unfoldable pub and_use : {D : Type 0} → Option ℕ × D → (ℕ → D → Bool × D) → Bool × D
and_use (none, d) next = (false, d)
and_use (some v, d) next = next v d

module _ {D : Type 0} (bus : Bus D) where
  -- The loops of `wait_write` and `wait_read`, with the rounds that are left.
  unfoldable pub wait_write : ℕ → D → Bool × D
  wait_write zero d = (false, d)
  wait_write (suc left) d =
      let d1 = bus.inb_next d ps2_status in
      elim (has_bit (bus.inb d ps2_status) 1) [ false ↦ (true, d1) | true ↦ wait_write left d1 ]

  unfoldable pub wait_read : ℕ → D → Bool × D
  wait_read zero d = (false, d)
  wait_read (suc left) d =
      let d1 = bus.inb_next d ps2_status in
      elim (has_bit (bus.inb d ps2_status) 0) [ true ↦ (true, d1) | false ↦ wait_read left d1 ]

  unfoldable pub ctrl_cmd : ℕ → D → Bool × D
  ctrl_cmd cmd d = and_then (wait_write ps2_timeout d) (λ e. (true, bus.outb e ps2_cmd cmd))

  unfoldable pub read_byte : Bool × D → Option ℕ × D
  read_byte (false, d) = (none, d)
  read_byte (true, d) = (some (bus.inb d ps2_data), bus.inb_next d ps2_data)

  pub read_config : D → Option ℕ × D
  read_config d = read_byte (and_then (ctrl_cmd 0x20 d) (wait_read ps2_timeout))

  pub write_config : ℕ → D → Bool × D
  write_config cfg d =
      and_then (and_then (ctrl_cmd 0x60 d) (wait_write ps2_timeout))
        (λ e. (true, bus.outb e ps2_data cfg))

  pub mouse_write : ℕ → D → Bool × D
  mouse_write b d = and_then (and_then (ctrl_cmd 0xD4 d) (wait_write ps2_timeout)) (λ e.
      and_use (read_byte (wait_read ps2_timeout (bus.outb e ps2_data b)))
        (λ answer f. (answer == 0xFA, f)))

  -- the loop that drops stale bytes
  unfoldable pub drop_stale : ℕ → D → D
  drop_stale zero d = d
  drop_stale (suc left) d =
      let d1 = bus.inb_next d ps2_status in
      elim (has_bit (bus.inb d ps2_status) 0) [
        | false ↦ d1
        | true ↦ drop_stale left (bus.inb_next d1 ps2_data)
      ]

  -- the chain of commands of `mouse_init`
  pub dialogue : D → Bool × D
  dialogue d = and_then (ctrl_cmd 0xA8 d) (λ d1. and_use (read_config d1) (λ cfg d2.
      and_then (write_config (without_bit cfg 5) d2) (λ d3. and_then (mouse_write 0xF6 d3) (λ d4.
        and_then (mouse_write 0xF4 d4)
          (λ d5. and_use (read_config d5) (λ cfg1 d6. write_config (with_bit cfg1 1) d6))))))

  unfoldable pub mouse_init : Mouse → D → Bool × Mouse × D
  mouse_init m d =
      let (ok, e) = dialogue (drop_stale 16 d) in
      if ok
      then (true, mouse_ready m, pic_clear_mask bus 12 (pic_clear_mask bus 2 e))
      else (false, m, e)
