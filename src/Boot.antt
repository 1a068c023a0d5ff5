-- ===== src/Boot.antt =====
-- kernel/bootinfo.c: the framebuffer that the boot loader has set up.
-- Memory is a byte to an address; the walk takes fuel, and `none` stands for a walk that it does not
-- cover, which a tag of size 0 would need.
use revinix_os.Base.{
  ℕ, zero, suc, ◌+◌, ◌*◌, ◌/◌, ◌%◌, ◌^◌, Bool, true, Option, none, some, ltb, ◌==◌, if◌then◌else◌,
  read32, read64, add64,
}

-- `struct boot_framebuffer`, the positions and sizes of the colours included
pub record Framebuffer : Type 0 where
  pub addr : ℕ
  pub pitch : ℕ
  pub width : ℕ
  pub height : ℕ
  pub bpp : ℕ
  pub kind : ℕ
  pub red_pos : ℕ
  pub red_size : ℕ
  pub green_pos : ℕ
  pub green_size : ℕ
  pub blue_pos : ℕ
  pub blue_size : ℕ

-- the statics of bootinfo.c
pub record BootInfo : Type 0 where
  pub fb : Framebuffer
  pub have_fb : Bool

-- the fields of the tag of type 8 at `p`
pub read_framebuffer : (ℕ → ℕ) → ℕ → Framebuffer → Framebuffer
read_framebuffer m p old =
    let plain = record old {
      addr = read64 m (p + 8);
      pitch = read32 m (p + 16);
      width = read32 m (p + 20);
      height = read32 m (p + 24);
      bpp = m (p + 28);
      kind = m (p + 29);
    } in
    if m (p + 29) == 1
    then record plain {
      red_pos = m (p + 32);
      red_size = m (p + 33);
      green_pos = m (p + 34);
      green_size = m (p + 35);
      blue_pos = m (p + 36);
      blue_size = m (p + 37);
    }
    else plain

-- the loop over the tags at `p`
pub walk_info : ℕ → (ℕ → ℕ) → ℕ → ℕ → BootInfo → Option BootInfo
walk_info zero m end p b = none
walk_info (suc fuel) m end p b =
    let kind = read32 m p in
    let b' =
      (if kind == 8 then record b { fb = read_framebuffer m p b.fb; have_fb = true } else b) in
    let rest = walk_info fuel m end (add64 p ((read32 m (p + 4) + 7) % 2 ^ 32 / 8 * 8)) b' in
    if ltb p end then (if kind == 0 then some b else rest) else some b

pub bootinfo_init : ℕ → (ℕ → ℕ) → ℕ → BootInfo → Option BootInfo
bootinfo_init fuel m mb2_info b = walk_info fuel m (mb2_info + read32 m mb2_info) (mb2_info + 8) b

pub bootinfo_framebuffer : BootInfo → Option Framebuffer
bootinfo_framebuffer b = if b.have_fb then some b.fb else none
