-- ===== src/Console/Cursor.antt =====
-- kernel/drivers/vga.c: text at a place, and the cursor of the hardware.
use revinix_os.Base.{ℕ, ◌+◌, ◌*◌, ◌/◌, ◌%◌, ◌^◌, List, [], ◌∷◌, update, if◌then◌else◌}
use revinix_os.Ports.{Bus}
use revinix_os.Console.Vga.{Vga, vga_width, entry}

-- the characters from the cell `offset` on
pub place_text : List ℕ → ℕ → (ℕ → ℕ) → ℕ → ℕ
place_text [] offset cells = cells
place_text (c ∷ s) offset cells = place_text s (offset + 1) (update cells offset (entry c))

-- `vga_print_at` for a place that is not negative, while the framebuffer console is off
pub print_at : Vga → List ℕ → ℕ → ℕ → Vga
print_at v s row col =
    if v.fbcon_active then v else record v { cells = place_text s (row * vga_width + col) v.cells }

pub update_hw_cursor : {D : Type 0} → Bus D → Vga → D → D
update_hw_cursor bus v d =
    let place = (v.cursor_row * vga_width + v.cursor_col) % 2 ^ 16 in
    let d1 = bus.outb (bus.outb d 0x3D4 14) 0x3D5 (place / 256) in
    bus.outb (bus.outb d1 0x3D4 15) 0x3D5 (place % 256)
