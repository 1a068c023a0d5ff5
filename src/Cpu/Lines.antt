-- ===== src/Cpu/Lines.antt =====
-- kernel/arch/x86_64/pic.c and irq.c: the masks of the interrupt lines and their acknowledgement.
use revinix_os.Base.{
  ℕ, ◌+◌, ◌<◌, ◌≡◌, refl, ap, ◌∙◌, ◌⊎◌, inl, inr, Bool, leb, ◌==◌, if◌then◌else◌, has_bit,
  Bool-cases,
}
use revinix_os.Ports.{Bus}
use revinix_os.Input.Mouse.{Mouse}
use revinix_os.Cpu.{
  Interrupts, pic1_data, pic2_data, mask_port, mask_bit, pic_send_eoi, irq_of, mouse_irq,
  irq_handler,
}

-- A bus with the two interrupt controllers: the mask register that a data port reads and writes, and
-- how often a command port was told the end of an interrupt.
pub record Controllers {D : Type 0} (bus : Bus D) : Type 0 where
  pub mask : D → ℕ → ℕ
  pub ended : D → ℕ → ℕ
  pub mask_byte : (d : D) (port : ℕ) → mask d port < 256
  pub mask_read :
      (d : D) (port : ℕ) → (port ≡ pic1_data) ⊎ (port ≡ pic2_data) → bus.inb d port ≡ mask d port
  pub read_keeps :
      (d : D) (port q : ℕ)
      → (mask (bus.inb_next d port) q ≡ mask d q) × (ended (bus.inb_next d port) q ≡ ended d q)
  pub mask_write :
      (d : D) (port v q : ℕ)
      → v < 256
      → (port ≡ pic1_data) ⊎ (port ≡ pic2_data)
      → mask (bus.outb d port v) q ≡ (if q == port then v else mask d q)
  pub end_write :
      (d : D) (port q : ℕ)
      → (port ≡ 0x20) ⊎ (port ≡ 0xA0)
      → ended (bus.outb d port 0x20) q ≡ (if q == port then ended d q + 1 else ended d q)

module _ {D : Type 0} {bus : Bus D} (pics : Controllers bus) where
  -- the controllers hold the line back
  abbrev pub is_masked : D → ℕ → Bool
  is_masked d line = has_bit (pics.mask d (mask_port line)) (mask_bit line)

  ended_read :
      (d : D) (m : Mouse) (q : ℕ)
      → let (_, e) = mouse_irq bus m d in pics.ended e q ≡ pics.ended d q
  unfolding mouse_irq
  ended_read d m q = elim (Bool-cases (has_bit (bus.inb d 0x64) 0)) [
    | inl full ↦
        let (_, one) = pics.read_keeps d 0x64 q in
        let (_, two) = pics.read_keeps (bus.inb_next d 0x64) 0x60 q in
        rw (mouse_irq, full) (two ∙ one)
    | inr empty ↦ let (_, one) = pics.read_keeps d 0x64 q in rw (mouse_irq, empty) one
  ]

  -- what the controllers of a line are told
  abbrev pub Acknowledged : D → ℕ → D → Type 0
  Acknowledged d irq e =
      (pics.ended e 0x20 ≡ pics.ended d 0x20 + 1)
      × (pics.ended e 0xA0 ≡ (if leb 8 irq then pics.ended d 0xA0 + 1 else pics.ended d 0xA0))

  pic_send_eoi-Acknowledged :
      (d e : D) (irq : ℕ)
      → ((q : ℕ) → pics.ended e q ≡ pics.ended d q)
      → Acknowledged d irq (pic_send_eoi bus irq e)
  unfolding pic_send_eoi
  pic_send_eoi-Acknowledged d e irq same =
      let here = same 0x20 in
      let there = same 0xA0 in
      elim (Bool-cases (leb 8 irq)) [
        | inl slave ↦
            let e1 = bus.outb e 0xA0 0x20 in
            rw (pic_send_eoi, slave)
              (
                pics.end_write e1 0x20 0x20 (inl refl)
                    ∙ ap (λ (n : ℕ). n + 1) (pics.end_write e 0xA0 0x20 (inr refl) ∙ here),
                pics.end_write e1 0x20 0xA0 (inl refl)
                    ∙ pics.end_write e 0xA0 0xA0 (inr refl)
                    ∙ ap (λ (n : ℕ). n + 1) there,
              )
        | inr master ↦
            rw (pic_send_eoi, master)
              (
                pics.end_write e 0x20 0x20 (inl refl) ∙ ap (λ (n : ℕ). n + 1) here,
                pics.end_write e 0x20 0xA0 (inl refl) ∙ there,
              )
      ]

  -- For every vector, whatever its handler does, `irq_handler` tells the first controller the end of
  -- the interrupt exactly once, and the second one once just when the line is one of its own.
  pub irq_handler-Acknowledged :
      {S : Type 0} (schedule : S → S) (int_no : ℕ) (k : Interrupts S) (d : D)
      → let (after, e) = irq_handler bus schedule int_no k d in Acknowledged d (irq_of int_no) e
  unfolding irq_handler
  irq_handler-Acknowledged schedule int_no k d =
      let irq = irq_of int_no in
      elim (Bool-cases (irq == 0)) [
        | inl timer ↦ rw (irq_handler, timer) (pic_send_eoi-Acknowledged d d irq (λ q. refl))
        | inr other ↦ elim (Bool-cases (irq == 1)) [
          | inl key ↦
              rw (irq_handler, other, key)
                (pic_send_eoi-Acknowledged d (bus.inb_next d 0x60) irq
                  (λ q. let (_, e) = pics.read_keeps d 0x60 q in e))
          | inr other1 ↦ elim (Bool-cases (irq == 12)) [
            | inl moved ↦
                let (m, e) = mouse_irq bus k.mouse d in
                rw (irq_handler, other, other1, moved)
                  (pic_send_eoi-Acknowledged d e irq (λ q. ended_read d k.mouse q))
            | inr other2 ↦
                rw (irq_handler, other, other1, other2)
                  (pic_send_eoi-Acknowledged d d irq (λ q. refl))
          ]
        ]
      ]
