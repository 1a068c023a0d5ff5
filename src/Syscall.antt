-- ===== src/Syscall.antt =====
-- kernel/mm/uaccess.c and kernel/syscall/syscall.c: user memory, and the system calls on it.
-- User memory is a byte to an address, a buffer a function from its index. The console is the list
-- of the characters printed by SYS_WRITE; the other messages of the kernel are left out.
pub mod Write
mod Tests
use revinix_os.Base.{
  ℕ, zero, suc, ◌+◌, ◌-◌, ◌*◌, ◌/◌, ◌%◌, ◌^◌, bit_and, Bool, true, false, not, Option, none, some,
  List, [], ◌∷◌, ◌++◌, ltb, leb, ◌==◌, ◌!=◌, if◌then◌else◌, add64, sub64, update,
}
use revinix_os.Mm.Vmm.{Tables, user_range_ok}

abbrev pub efault : ℕ
efault = sub64 0 14

abbrev pub einval : ℕ
einval = sub64 0 22

abbrev pub write_max : ℕ
write_max = 0x100000

abbrev pub write_chunk : ℕ
write_chunk = 256

-- the machine as the system calls see it: CR3, the page tables, user memory, and the console
pub record Machine : Type 0 where
  pub cr3 : ℕ
  pub tables : Tables
  pub mem : ℕ → ℕ
  pub console : List ℕ

unfoldable pub current_pml4 : Machine → ℕ
current_pml4 s = bit_and s.cr3 0x000ffffffffff000

unfoldable pub range_ok : Machine → ℕ → ℕ → Bool → Bool
range_ok s uaddr n write = user_range_ok s.tables (current_pml4 s) uaddr n write

-- `for (i = i; i < n; i++) d[to + i] = s[from + i]`, with the rounds that are left
unfoldable pub copy_user : ℕ → ℕ → ℕ → ℕ → (ℕ → ℕ) → (ℕ → ℕ) → ℕ → ℕ
copy_user zero i from to src dst = dst
copy_user (suc left) i from to src dst =
    copy_user left (i + 1) from to src (update dst (add64 to i) (src (add64 from i)))

-- the buffer at `dst` afterwards, `none` for -EFAULT
pub copy_from_user : Machine → (ℕ → ℕ) → ℕ → ℕ → Option (ℕ → ℕ)
copy_from_user s dst user_src n =
    if not (range_ok s user_src n false) then none else some (copy_user n 0 user_src 0 s.mem dst)

pub copy_to_user : Machine → ℕ → (ℕ → ℕ) → ℕ → Option Machine
copy_to_user s user_dst src n =
    if not (range_ok s user_dst n true)
    then none
    else some (record s { mem = copy_user n 0 0 user_dst src s.mem })

-- `for (i = i; i < n; i++) kprintf("%c", kbuf[i])`, with the rounds that are left
pub print_chars : ℕ → ℕ → (ℕ → ℕ) → List ℕ → List ℕ
print_chars zero i kbuf out = out
print_chars (suc left) i kbuf out = print_chars left (i + 1) kbuf (out ++ (kbuf i ∷ []))

-- The loop of `sys_write` with `done` bytes printed. What `kbuf` held before does not matter, since
-- the bytes that are printed have just been copied; `none` stands for more rounds than the fuel.
pub write_from : ℕ → ℕ → ℕ → ℕ → Machine → Option (ℕ × Machine)
write_from zero ubuf count done s = none
write_from (suc fuel) ubuf count done s =
    let left = sub64 count done in
    let n = (if ltb write_chunk left then write_chunk else left) in
    let copied = copy_from_user s (λ i. 0) (add64 ubuf done) n in
    let rest : Option (ℕ × Machine) = elim copied [
      | none ↦ some ((if done != 0 then done else efault), s)
      | some kbuf ↦
          write_from fuel ubuf count (add64 done n)
            (record s { console = print_chars n 0 kbuf s.console })
    ] in
    if ltb done count then rest else some (done, s)

pub sys_write : ℕ → Machine → ℕ → ℕ → Option (ℕ × Machine)
sys_write fuel s ubuf count =
    if ltb write_max count
    then some (einval, s)
    else if not (range_ok s ubuf count false)
    then some (efault, s)
    else write_from fuel ubuf count 0 s

-- the registers of `struct interrupt_frame` that the dispatcher uses
pub record Frame : Type 0 where
  pub rax : ℕ
  pub rdi : ℕ
  pub rsi : ℕ

-- A system call comes back with a frame, or ends the task with a code.
pub data Outcome : Type 0 where
  returned : Frame → Machine → Outcome
  exited : ℕ → Machine → Outcome

pub dispatch : ℕ → Machine → Frame → Option Outcome
dispatch fuel s frame =
    if frame.rax == 1
    then elim (sys_write fuel s frame.rdi frame.rsi) [
      | none ↦ none
      | some (ret, s') ↦ some (returned (record frame { rax = ret }) s')
    ]
    else if frame.rax == 2
    then some (exited frame.rdi s)
    else some (returned (record frame { rax = sub64 0 1 }) s)
