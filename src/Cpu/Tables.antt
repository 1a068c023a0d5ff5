-- ===== src/Cpu/Tables.antt =====
-- kernel/arch/x86_64/gdt.c and idt.c: what the processor reads from the tables, by the layout of
-- segment, TSS and gate descriptors in long mode.
use revinix_os.Base.{
  ℕ, zero, suc, ◌+◌, ◌-◌, ◌*◌, ◌/◌, ◌%◌, ◌^◌, ◌<◌, ◌≤◌, ◌≡◌, refl, sym, ◌∙◌, inl, inr, ltb, ◌==◌,
  if◌then◌else◌, update, Bool-cases, ==_ne, ==_refl, arith,
}
use revinix_os.Cpu.{
  Gdt, IdtEntry, Idt, Tss, tss_size, kernel_stack_size, set_gate, set_gates, idt_init,
}

-- the base and the limit of the system segment in two slots
abbrev pub segment_base : Gdt → ℕ → ℕ
segment_base gdt i =
    (gdt i).base_low
    + 2 ^ 16 * (gdt i).base_mid
    + 2 ^ 24 * (gdt i).base_high
    + 2 ^ 32 * ((gdt (i + 1)).limit_low + 2 ^ 16 * (gdt (i + 1)).base_low)

abbrev pub segment_limit : Gdt → ℕ → ℕ
segment_limit gdt i = (gdt i).limit_low + 2 ^ 16 * ((gdt i).granularity % 16)

-- bits 5 and 6 of the access byte
abbrev pub privilege : Gdt → ℕ → ℕ
privilege gdt i = (gdt i).access / 2 ^ 5 % 4

-- bit 3: code and not data, and bit 5 of the flags: 64-bit code
abbrev pub is_code : Gdt → ℕ → ℕ
is_code gdt i = (gdt i).access / 2 ^ 3 % 2

abbrev pub is_long : Gdt → ℕ → ℕ
is_long gdt i = (gdt i).granularity / 2 ^ 5 % 2

-- What `gdt_init` sets up: kernel segments of ring 0 in slots 1 and 2, user segments of ring 3 in
-- 3 and 4, the TSS in 5 and 6.
pub record IsLoaded (gdt : Gdt) (tss : Tss) (kernel_stack tss_at : ℕ) : Type 0 where
  pub kernel : (privilege gdt 1 ≡ 0) × (privilege gdt 2 ≡ 0)
  pub user : (privilege gdt 3 ≡ 3) × (privilege gdt 4 ≡ 3)
  pub code : (is_code gdt 1 ≡ 1) × (is_code gdt 3 ≡ 1) × (is_long gdt 1 ≡ 1) × (is_long gdt 3 ≡ 1)
  pub plain : (is_code gdt 2 ≡ 0) × (is_code gdt 4 ≡ 0)
  pub base : segment_base gdt 5 ≡ tss_at
  pub limit : segment_limit gdt 5 ≡ tss_size - 1
  pub stack : tss.rsp0 ≡ kernel_stack + kernel_stack_size

-- the address in a gate
abbrev pub gate_offset : IdtEntry → ℕ
gate_offset e = e.offset_low + 2 ^ 16 * e.offset_mid + 2 ^ 32 * e.offset_high

-- present, ring 0, an interrupt gate of 64 bits, in the kernel's code segment
pub record IsGate (e : IdtEntry) (handler : ℕ) : Type 0 where
  pub offset : gate_offset e ≡ handler
  pub attributes : e.type_attr ≡ 0x8E
  pub segment : e.selector ≡ 8

set_gates-below :
    (left first i : ℕ) (stubs : ℕ → ℕ) (idt : Idt) (v : ℕ)
    → v < first + i
    → set_gates left first i stubs idt v ≡ idt v
unfolding set_gates set_gate update
set_gates-below zero first i stubs idt v lt = refl
set_gates-below (suc left) first i stubs idt v lt =
    set_gates-below left first (i + 1) stubs (set_gate idt (first + i) (stubs i) 0x8E) v
      (omega arith)
    ∙ rw (==_ne v (first + i) (omega arith)) refl

set_gates-above :
    (left first i : ℕ) (stubs : ℕ → ℕ) (idt : Idt) (v : ℕ)
    → first + i + left ≤ v
    → set_gates left first i stubs idt v ≡ idt v
unfolding set_gates set_gate update
set_gates-above zero first i stubs idt v le = refl
set_gates-above (suc left) first i stubs idt v le =
    set_gates-above left first (i + 1) stubs (set_gate idt (first + i) (stubs i) 0x8E) v
      (omega arith)
    ∙ rw (==_ne v (first + i) (omega arith)) refl

set_gate-IsGate :
    (idt : Idt) (v handler : ℕ) → handler < 2 ^ 64 → IsGate (set_gate idt v handler 0x8E v) handler
unfolding set_gate update
set_gate-IsGate idt v handler low =
    rw (==_refl v) (record { offset = omega arith; attributes = refl; segment = refl })

set_gates-IsGate :
    (left first i : ℕ) (stubs : ℕ → ℕ) (idt : Idt) (v : ℕ)
    → ((j : ℕ) → stubs j < 2 ^ 64)
    → i ≤ v
    → v < i + left
    → IsGate (set_gates left first i stubs idt (first + v)) (stubs v)
unfolding set_gates
set_gates-IsGate zero first i stubs idt v low lo hi = absurd (omega arith)
set_gates-IsGate (suc left) first i stubs idt v low lo hi = elim (Bool-cases (i == v)) [
  | inl on ↦
      let here : i ≡ v = ground arith in
      rw here (
        rw
          (set_gates-below left first (v + 1) stubs (set_gate idt (first + v) (stubs v) 0x8E)
            (first + v) (omega arith))
          (set_gate-IsGate idt (first + v) (stubs v) (low v)))
  | inr later ↦
      set_gates-IsGate left first (i + 1) stubs (set_gate idt (first + i) (stubs i) 0x8E) v low
        (ground arith) (omega arith)
]

-- `idt_init` and then `irq_install`, with the addresses of the stubs
abbrev pub installed : (ℕ → ℕ) → (ℕ → ℕ) → ℕ → Idt → Idt
installed isr_stub_table irq_stub_table idt_at idt =
    let (exceptions, p) = idt_init isr_stub_table idt_at idt in
    set_gates 16 32 0 irq_stub_table exceptions

-- the stub of a vector: an exception below 32, a line from there on
abbrev pub stub_of : (ℕ → ℕ) → (ℕ → ℕ) → ℕ → ℕ
stub_of isr_stub_table irq_stub_table v =
    if ltb v 32 then isr_stub_table v else irq_stub_table (v - 32)

-- For stubs in the 64-bit address space: once the tables are installed the processor finds, at each of
-- the vectors below 48, the stub of that exception, and from 32 on the stub of that line, in an
-- interrupt gate of the kernel.
pub idt_init-IsGate :
    (isr_stub_table irq_stub_table : ℕ → ℕ) (idt_at : ℕ) (idt : Idt) (v : ℕ)
    → ((j : ℕ) → isr_stub_table j < 2 ^ 64)
    → ((j : ℕ) → irq_stub_table j < 2 ^ 64)
    → v < 48
    → IsGate
        (installed isr_stub_table irq_stub_table idt_at idt v)
        (stub_of isr_stub_table irq_stub_table v)
unfolding idt_init
idt_init-IsGate isr_stub_table irq_stub_table idt_at idt v low low1 lt =
    let before = set_gates 32 0 0 isr_stub_table idt in
    elim (Bool-cases (ltb v 32)) [
      | inl on ↦
          let e : v ≡ 0 + v = omega arith in
          rw (on, set_gates-below 16 32 0 irq_stub_table before v (ground arith))
            (rw (sym e) at
              (set_gates-IsGate 32 0 0 isr_stub_table idt v low (omega arith) (ground arith)))
      | inr line ↦
          let e : v ≡ 32 + (v - 32) = ground arith in
          rw line (
            rw (sym e) at (
              set_gates-IsGate 16 32 0 irq_stub_table before (v - 32) low1 (omega arith)
                (ground arith)))
    ]
