-- ===== src/Serial.antt =====
-- kernel/drivers/serial.c: the serial port, over a bus.
-- The wait for the transmitter has no bound in the code; it takes fuel here, and `none` stands for a
-- wait that goes on.
use revinix_os.Base.{
  ℕ, zero, suc, true, false, Option, none, some, List, [], ◌∷◌, ◌==◌, if◌then◌else◌, has_bit, ◌>>=◌,
}
use revinix_os.Ports.{Bus}

abbrev pub com1 : ℕ
com1 = 0x3F8

module _ {D : Type 0} (bus : Bus D) where
  pub serial_init : D → D
  serial_init d =
      let d1 = bus.outb d 0x3F9 0x00 in
      let d2 = bus.outb d1 0x3FB 0x80 in
      let d3 = bus.outb d2 0x3F8 0x03 in
      let d4 = bus.outb d3 0x3F9 0x00 in
      let d5 = bus.outb d4 0x3FB 0x03 in let d6 = bus.outb d5 0x3FA 0xC7 in bus.outb d6 0x3FC 0x08

  -- `while (!is_transmit_empty())`
  unfoldable pub wait_transmit : ℕ → D → Option D
  wait_transmit zero d = none
  wait_transmit (suc fuel) d =
      let d1 = bus.inb_next d 0x3FD in
      elim (has_bit (bus.inb d 0x3FD) 5) [ true ↦ some d1 | false ↦ wait_transmit fuel d1 ]

  -- a character, sent once the transmitter is free
  unfoldable pub send : ℕ → ℕ → D → Option D
  send fuel c d = wait_transmit fuel d >>= λ e. some (bus.outb e com1 c)

  unfoldable pub serial_write_char : ℕ → ℕ → D → Option D
  serial_write_char fuel c d = (if c == 10 then send fuel 13 d else some d) >>= λ e. send fuel c e

  unfoldable pub serial_write_string : ℕ → List ℕ → D → Option D
  serial_write_string fuel [] d = some d
  serial_write_string fuel (c ∷ s) d =
      serial_write_char fuel c d >>= λ e. serial_write_string fuel s e
