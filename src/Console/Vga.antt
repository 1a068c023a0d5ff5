-- ===== src/Console/Vga.antt =====
-- kernel/drivers/vga.c: the text screen in its 80 by 25 cells.
-- The cells are a function from their index; the cursor registers of the hardware are left out. With
-- a graphics mode the framebuffer console takes the calls, and nothing here changes.
pub mod Cursor
use revinix_os.Base.{
  ℕ, zero, suc, ◌+◌, ◌-◌, ◌*◌, ◌/◌, ◌%◌, ◌^◌, bit_or, Bool, true, false, List, [], ◌∷◌, ltb, leb,
  ◌==◌, if◌then◌else◌, update,
}

abbrev pub vga_width : ℕ
vga_width = 80

abbrev pub vga_height : ℕ
vga_height = 25

-- the statics of vga.c, the cells, and whether `fbcon_active()`
pub record Vga : Type 0 where
  pub cells : ℕ → ℕ
  pub vga_ready : Bool
  pub cursor_row : ℕ
  pub cursor_col : ℕ
  pub fbcon_active : Bool

pub enable : Vga → Vga
enable v = record v { vga_ready = true }

-- `(uint16_t)c | (VGA_COLOR << 8)`, where `char` has a sign
pub entry : ℕ → ℕ
entry c = bit_or (if ltb c 128 then c else c + 0xff00) 0x0f00

-- `VGA_MEM[i] = vga_entry(' ')` for the cells from `i` on
unfoldable pub blank_from : ℕ → ℕ → (ℕ → ℕ) → ℕ → ℕ
blank_from zero i m = m
blank_from (suc left) i m = blank_from left (i + 1) (update m i (entry 32))

pub clear : Vga → Vga
clear v =
    if v.fbcon_active
    then v
    else if v.vga_ready
    then record v { cells = blank_from 2000 0 v.cells; cursor_row = 0; cursor_col = 0 }
    else v

-- the inner loop of `vga_scroll`, which copies row `r` up, from column `c` on
unfoldable pub copy_row : ℕ → ℕ → ℕ → (ℕ → ℕ) → ℕ → ℕ
copy_row zero c r m = m
copy_row (suc left) c r m =
    copy_row left (c + 1) r (update m ((r - 1) * vga_width + c) (m (r * vga_width + c)))

unfoldable pub copy_rows : ℕ → ℕ → (ℕ → ℕ) → ℕ → ℕ
copy_rows zero r m = m
copy_rows (suc left) r m = copy_rows left (r + 1) (copy_row vga_width 0 r m)

pub scroll : Vga → Vga
scroll v = record v {
  cells =
      blank_from vga_width ((vga_height - 1) * vga_width) (copy_rows (vga_height - 1) 1 v.cells);
  cursor_row = vga_height - 1;
  cursor_col = 0;
}

-- `if (cursor_col >= VGA_WIDTH) { cursor_col = 0; cursor_row++; }`
unfoldable pub wrap_line : Vga → Vga
wrap_line v =
    if leb vga_width v.cursor_col
    then record v { cursor_col = 0; cursor_row = v.cursor_row + 1 }
    else v

-- the character itself, before the test for a scroll
unfoldable pub place_char : Vga → ℕ → Vga
place_char v ch =
    if ch == 10
    then record v { cursor_col = 0; cursor_row = v.cursor_row + 1 }
    else if ch == 13
    then record v { cursor_col = 0 }
    else if ch == 8
    then (if ltb 0 v.cursor_col
        then record v {
          cursor_col = v.cursor_col - 1;
          cells = update v.cells (v.cursor_row * vga_width + (v.cursor_col - 1)) (entry 32);
        }
        else v)
    else if ch == 9
    then wrap_line (record v { cursor_col = (v.cursor_col + 4) / 4 * 4 })
    else wrap_line (record v {
      cells = update v.cells (v.cursor_row * vga_width + v.cursor_col) (entry ch);
      cursor_col = v.cursor_col + 1;
    })

pub putc : Vga → ℕ → Vga
putc v ch =
    let w = place_char v ch in
    if v.fbcon_active
    then v
    else if v.vga_ready
    then (if leb vga_height w.cursor_row then scroll w else w)
    else v

pub print : Vga → List ℕ → Vga
print v [] = v
print v (c ∷ cs) = print (putc v c) cs
