-- ===== src/Cpu/Tests.antt =====
-- The tables at concrete addresses, and two controllers that start with every line held back.
use revinix_os.Base.{pos}
use revinix_os.Base.{
  ℕ, ◌+◌, ◌*◌, ◌%◌, ◌<◌, ◌≡◌, refl, ◌⊎◌, false, ◌||◌, [], ◌==◌, if◌then◌else◌, update, arith,
}
use revinix_os.Ports.{Bus}
use revinix_os.Cpu.{Gdt, Idt, Interrupts, irq_of, irq_handler, pic1_data, pic2_data}
use revinix_os.Cpu.Tables.{IsGate, installed, stub_of, idt_init-IsGate}
use revinix_os.Cpu.Lines.{Controllers, Acknowledged, irq_handler-Acknowledged}

abbrev old_gdt : Gdt
old_gdt i = record {
  limit_low = 1;
  base_low = 2;
  base_mid = 3;
  access = 4;
  granularity = 5;
  base_high = 6;
}

abbrev old_idt : Idt
old_idt v = record {
  offset_low = 0;
  selector = 0;
  ist = 0;
  type_attr = 0;
  offset_mid = 0;
  offset_high = 0;
  reserved = 0;
}

abbrev stubs : ℕ → ℕ
stubs v = 0x100000 + v % 64 * 16

idt_init-IsGate_example : IsGate (installed stubs stubs 0x6000 old_idt 33) (stub_of stubs stubs 33)
idt_init-IsGate_example =
    idt_init-IsGate stubs stubs 0x6000 old_idt 33 (λ j. omega arith) (λ j. omega arith)
      (omega arith)

record Pics : Type 0 where
  masks : ℕ → ℕ
  ends : ℕ → ℕ

abbrev pics_bus : Bus Pics
pics_bus = record {
  inb = λ d p. d.masks p % 256;
  inb_next = λ d p. d;
  outb = λ d p v.
      if (p == pic1_data) || (p == pic2_data)
      then record d { masks = update d.masks p v }
      else record d { ends = update d.ends p (d.ends p + 1) };
  insw = λ d p i. 0;
  insw_next = λ d p. d;
  outsw = λ d p sent. d;
}

mask_write :
    (d : Pics) (port v q : ℕ)
    → v < 256
    → (port ≡ pic1_data) ⊎ (port ≡ pic2_data)
    → (pics_bus.outb d port v).masks q % 256 ≡ (if q == port then v else d.masks q % 256)
unfolding update
mask_write d port v q byte which = ground arith

end_write :
    (d : Pics) (port q : ℕ)
    → (port ≡ 0x20) ⊎ (port ≡ 0xA0)
    → (pics_bus.outb d port 0x20).ends q ≡ (if q == port then d.ends q + 1 else d.ends q)
unfolding update
end_write d port q which = ground arith

two_pics : Controllers pics_bus
two_pics = record {
  mask = λ d port. d.masks port % 256;
  ended = λ d q. d.ends q;
  mask_byte = λ d port. omega arith;
  mask_read = λ d port which. refl;
  read_keeps = λ d port q. (refl, refl);
  mask_write = mask_write;
  end_write = end_write;
}

abbrev all_masked : Pics
all_masked = record { masks = λ p. 255; ends = λ p. 0 }

abbrev running : Interrupts ℕ
running = record {
  timer_ticks = 41;
  tasks = 7;
  keyboard = record {
    line_buf = λ i. 0;
    line_len = 0;
    shift_down = false;
    ready_line = λ i. 0;
    line_ready = false;
  };
  mouse = record {
    mx = pos 0;
    my = pos 0;
    mbuttons = 0;
    mpackets = 0;
    mchanged = false;
    packet = λ i. 0;
    packet_idx = 0;
    ready = false;
    gfx_ready = false;
    gfx_width = 0;
    gfx_height = 0;
  };
  output = [];
}

irq_handler-Acknowledged_example :
    let (after, e) = irq_handler pics_bus (λ t. t + 1) 44 running all_masked in
    Acknowledged two_pics all_masked (irq_of 44) e
irq_handler-Acknowledged_example =
    irq_handler-Acknowledged two_pics (λ t. t + 1) 44 running all_masked
