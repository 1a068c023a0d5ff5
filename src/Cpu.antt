-- ===== src/Cpu.antt =====
-- kernel/arch/x86_64/gdt.c, idt.c, pic.c and irq.c: the descriptor tables and the interrupts.
-- The addresses of the tables and of the assembly stubs are arguments; loading the tables is left out.
pub mod Tables
pub mod Lines
mod Tests
use revinix_os.Base.{
  ℕ, zero, suc, ◌+◌, ◌-◌, ◌*◌, ◌/◌, ◌%◌, ◌^◌, Bool, true, false, not, ◌&&◌, List, ◌++◌, ltb, leb,
  ◌==◌, if◌then◌else◌, add64, update, has_bit, with_bit, without_bit,
}
use revinix_os.Ports.{Bus}
use revinix_os.Input.Keyboard.{Keyboard, handle_scancode}
use revinix_os.Input.Mouse.{Mouse, handle_irq}

pub record GdtEntry : Type 0 where
  pub limit_low : ℕ
  pub base_low : ℕ
  pub base_mid : ℕ
  pub access : ℕ
  pub granularity : ℕ
  pub base_high : ℕ

pub record TssDescriptor : Type 0 where
  pub limit_low : ℕ
  pub base_low : ℕ
  pub base_mid : ℕ
  pub access : ℕ
  pub granularity : ℕ
  pub base_high : ℕ
  pub base_upper : ℕ
  pub reserved : ℕ

pub record Tss : Type 0 where
  pub rsp0 : ℕ
  pub rsp1 : ℕ
  pub rsp2 : ℕ
  pub ist : ℕ → ℕ
  pub iopb_offset : ℕ

pub record TablePtr : Type 0 where
  pub limit : ℕ
  pub base : ℕ

abbrev pub Gdt : Type 0
Gdt = ℕ → GdtEntry

unfoldable pub set_entry : Gdt → ℕ → ℕ → ℕ → Gdt
set_entry gdt i access gran = update gdt i (record {
  limit_low = 0;
  base_low = 0;
  base_mid = 0;
  access = access;
  granularity = gran;
  base_high = 0;
})

-- `*(struct tss_descriptor*)&gdt[i] = d`: the descriptor lies over two slots, its last eight bytes
-- over the fields of the second in their order.
unfoldable pub store_descriptor : Gdt → ℕ → TssDescriptor → Gdt
store_descriptor gdt i d =
    update
      (update gdt i (record {
        limit_low = d.limit_low;
        base_low = d.base_low;
        base_mid = d.base_mid;
        access = d.access;
        granularity = d.granularity;
        base_high = d.base_high;
      }))
      (i + 1)
      (record {
        limit_low = d.base_upper % 2 ^ 16;
        base_low = d.base_upper / 2 ^ 16;
        base_mid = d.reserved % 2 ^ 8;
        access = d.reserved / 2 ^ 8 % 2 ^ 8;
        granularity = d.reserved / 2 ^ 16 % 2 ^ 8;
        base_high = d.reserved / 2 ^ 24;
      })

unfoldable pub set_tss : Gdt → ℕ → ℕ → ℕ → Gdt
set_tss gdt i base limit = store_descriptor gdt i (record {
  limit_low = limit % 2 ^ 16;
  base_low = base % 2 ^ 16;
  base_mid = base / 2 ^ 16 % 2 ^ 8;
  access = 0x89;
  granularity = limit / 2 ^ 16 % 2 ^ 4;
  base_high = base / 2 ^ 24 % 2 ^ 8;
  base_upper = base / 2 ^ 32 % 2 ^ 32;
  reserved = 0;
})

pub tss_set_rsp0 : Tss → ℕ → Tss
tss_set_rsp0 tss rsp0 = record tss { rsp0 = rsp0 }

pub tss_get_rsp0 : Tss → ℕ
tss_get_rsp0 tss = tss.rsp0

-- sizeof(tss), and the size of kernel_stack
abbrev pub tss_size : ℕ
tss_size = 104

abbrev pub kernel_stack_size : ℕ
kernel_stack_size = 16384

-- with the addresses of `kernel_stack`, `tss` and `gdt`
unfoldable pub gdt_init : ℕ → ℕ → ℕ → Gdt → Gdt × Tss × TablePtr
gdt_init kernel_stack tss_at gdt_at gdt =
    let g0 = set_entry gdt 0 0 0 in
    let g1 = set_entry g0 1 0x9A 0xA0 in
    let g2 = set_entry g1 2 0x92 0xC0 in
    let g3 = set_entry g2 3 0xFA 0xA0 in
    let g4 = set_entry g3 4 0xF2 0xC0 in
    (
      set_tss g4 5 tss_at (tss_size - 1),
      record {
        rsp0 = add64 kernel_stack kernel_stack_size;
        rsp1 = 0;
        rsp2 = 0;
        ist = λ i. 0;
        iopb_offset = tss_size;
      },
      record { limit = 7 * 8 - 1; base = gdt_at },
    )

pub record IdtEntry : Type 0 where
  pub offset_low : ℕ
  pub selector : ℕ
  pub ist : ℕ
  pub type_attr : ℕ
  pub offset_mid : ℕ
  pub offset_high : ℕ
  pub reserved : ℕ

abbrev pub Idt : Type 0
Idt = ℕ → IdtEntry

unfoldable pub set_gate : Idt → ℕ → ℕ → ℕ → Idt
set_gate idt vec handler type_attr = update idt vec (record {
  offset_low = handler % 2 ^ 16;
  selector = 0x08;
  ist = 0;
  type_attr = type_attr;
  offset_mid = handler / 2 ^ 16 % 2 ^ 16;
  offset_high = handler / 2 ^ 32 % 2 ^ 32;
  reserved = 0;
})

-- `for (i = i; i < n; i++) set_gate(first + i, stubs[i], 0x8E)`, with the rounds that are left
unfoldable pub set_gates : ℕ → ℕ → ℕ → (ℕ → ℕ) → Idt → Idt
set_gates zero first i stubs idt = idt
set_gates (suc left) first i stubs idt =
    set_gates left first (i + 1) stubs (set_gate idt (first + i) (stubs i) 0x8E)

unfoldable pub idt_init : (ℕ → ℕ) → ℕ → Idt → Idt × TablePtr
idt_init isr_stub_table idt_at idt =
    (set_gates 32 0 0 isr_stub_table idt, record { limit = 256 * 16 - 1; base = idt_at })

abbrev pub pic1_data : ℕ
pic1_data = 0x21

abbrev pub pic2_data : ℕ
pic2_data = 0xA1

-- the data port of the controller of a line, and the line's bit there
unfoldable pub mask_port : ℕ → ℕ
mask_port irq = if ltb irq 8 then pic1_data else pic2_data

unfoldable pub mask_bit : ℕ → ℕ
mask_bit irq = if leb 8 irq then irq - 8 else irq

-- what the handlers of the interrupts keep, with the scheduler's state and what was printed
pub record Interrupts (S : Type 0) : Type 0 where
  pub timer_ticks : ℕ
  pub tasks : S
  pub keyboard : Keyboard
  pub mouse : Mouse
  pub output : List ℕ

-- The line of a vector: `frame->int_no - 32` as a byte.
unfoldable pub irq_of : ℕ → ℕ
irq_of int_no = (int_no + 2 ^ 64 - 32) % 256

module _ {D : Type 0} (bus : Bus D) where
  -- a write and `io_wait`
  abbrev pub out_wait : ℕ → ℕ → D → D
  out_wait port v d = bus.outb (bus.outb d port v) 0x80 0

  pub pic_remap : D → D
  pic_remap d =
      let d1 = out_wait 0xA0 0x11 (out_wait 0x20 0x11 d) in
      let d2 = out_wait pic2_data 0x28 (out_wait pic1_data 0x20 d1) in
      let d3 = out_wait pic2_data 0x02 (out_wait pic1_data 0x04 d2) in
      let d4 = out_wait pic2_data 0x01 (out_wait pic1_data 0x01 d3) in
      bus.outb (bus.outb d4 pic1_data 0xFF) pic2_data 0xFF

  unfoldable pub pic_send_eoi : ℕ → D → D
  pic_send_eoi irq d =
      let d1 = (if leb 8 irq then bus.outb d 0xA0 0x20 else d) in bus.outb d1 0x20 0x20

  unfoldable pub pic_set_mask : ℕ → D → D
  pic_set_mask irq d =
      let port = mask_port irq in
      bus.outb (bus.inb_next d port) port (with_bit (bus.inb d port) (mask_bit irq))

  unfoldable pub pic_clear_mask : ℕ → D → D
  pic_clear_mask irq d =
      let port = mask_port irq in
      bus.outb (bus.inb_next d port) port (without_bit (bus.inb d port) (mask_bit irq))

  pub pit_init : ℕ → D → D
  pit_init hz d =
      let divisor = 1193182 / hz in
      let d1 = bus.outb d 0x43 0x36 in
      bus.outb (bus.outb d1 0x40 (divisor % 256)) 0x40 (divisor / 256 % 256)

  unfoldable pub irq_install : (ℕ → ℕ) → Idt → D → Idt × D
  irq_install irq_stub_table idt d =
      (set_gates 16 32 0 irq_stub_table idt, pic_clear_mask 1 (pic_clear_mask 0 (pit_init 100 d)))

  -- `mouse_handle_irq` with its port reads
  unfoldable pub mouse_irq : Mouse → D → Mouse × D
  mouse_irq m d =
      let status = bus.inb d 0x64 in
      let d1 = bus.inb_next d 0x64 in
      elim (has_bit status 0) [
        | false ↦ (m, d1)
        | true ↦ (handle_irq m status (bus.inb d1 0x60), bus.inb_next d1 0x60)
      ]

  -- `irq_handler`, with `schedule` of the scheduler; the message about the first tick in user mode is
  -- left out.
  unfoldable pub irq_handler : {S : Type 0} → (S → S) → ℕ → Interrupts S → D → Interrupts S × D
  irq_handler schedule int_no k d =
      let irq = irq_of int_no in
      if irq == 0
      then (
        record k { timer_ticks = add64 k.timer_ticks 1; tasks = schedule k.tasks },
        pic_send_eoi irq d,
      )
      else if irq == 1
      then (let (keyboard, echo) = handle_scancode k.keyboard (bus.inb d 0x60) in
          (
            record k { keyboard = keyboard; output = k.output ++ echo },
            pic_send_eoi irq (bus.inb_next d 0x60),
          ))
      else if irq == 12
      then (let (mouse, d1) = mouse_irq k.mouse d in
          (record k { mouse = mouse }, pic_send_eoi irq d1))
      else (k, pic_send_eoi irq d)
