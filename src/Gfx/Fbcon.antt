-- ===== src/Gfx/Fbcon.antt =====
-- kernel/gfx/fbcon.c: the text console on the framebuffer.
-- Interrupts are off while a character is put. The sizes of the area are not negative, and it has a
-- row at least when a line ends.
pub mod Area
use revinix_os.Base.{
  ℕ, zero, suc, ◌+◌, ◌-◌, ◌*◌, ◌/◌, ◌%◌, Bool, true, false, not, ◌&&◌, ◌||◌, List, [], ◌∷◌, ltb,
  leb, ◌==◌, if◌then◌else◌, ℤ, pos, ◌+ℤ◌, ltb_ℤ, leb_ℤ, pos_part,
}
use revinix_os.Gfx.{Gfx, font_w, font_h, gfx_fill_rect, gfx_draw_char, gfx_scroll_up, gfx_present}

-- the statics of fbcon.c, and those of gfx.c
pub record Fbcon : Type 0 where
  pub active : Bool
  pub ox : ℤ
  pub oy : ℤ
  pub cols : ℕ
  pub rows : ℕ
  pub cx : ℕ
  pub cy : ℕ
  pub fg : ℕ
  pub bg : ℕ
  pub gfx : Gfx

-- the left and the top pixel of a cell
abbrev pub cell_x : Fbcon → ℕ → ℤ
cell_x f c = f.ox +ℤ pos (c * font_w)

abbrev pub cell_y : Fbcon → ℕ → ℤ
cell_y f r = f.oy +ℤ pos (r * font_h)

unfoldable pub present_cell : Fbcon → ℕ → ℕ → Fbcon
present_cell f c r = record f {
  gfx = gfx_present f.gfx (cell_x f c) (cell_y f r) (pos font_w) (pos font_h);
}

unfoldable pub draw_cursor : Fbcon → Bool → Fbcon
draw_cursor f on =
    let color = (if on then f.fg else f.bg) in
    present_cell
      (record f {
        gfx =
            gfx_fill_rect f.gfx (cell_x f f.cx) (f.oy +ℤ pos (f.cy * font_h + font_h - 2))
              (pos font_w) (pos 2) color;
      })
      f.cx f.cy

-- the whole area
unfoldable pub clear_area : Fbcon → Fbcon
clear_area f = record f {
  gfx = gfx_fill_rect f.gfx f.ox f.oy (pos (f.cols * font_w)) (pos (f.rows * font_h)) f.bg;
}

unfoldable pub present_area : Fbcon → Fbcon
present_area f = record f {
  gfx = gfx_present f.gfx f.ox f.oy (pos (f.cols * font_w)) (pos (f.rows * font_h));
}

pub fbcon_init : Fbcon → ℤ → ℤ → ℕ → ℕ → ℕ → ℕ → Fbcon
fbcon_init old x y w h fore back =
    let set = record old {
      ox = x;
      oy = y;
      cols = w / font_w;
      rows = h / font_h;
      fg = fore;
      bg = back;
      cx = 0;
      cy = 0;
    } in
    draw_cursor (record (clear_area set) { active = true }) true

unfoldable pub newline : Fbcon → Fbcon
newline f =
    let down = record f { cx = 0; cy = f.cy + 1 } in
    let scrolled = record down {
      gfx =
          gfx_scroll_up f.gfx f.ox f.oy (pos (f.cols * font_w)) (pos (f.rows * font_h)) font_h f.bg;
    } in
    if leb f.rows (f.cy + 1) then record (present_area scrolled) { cy = f.rows - 1 } else down

-- a character in the cell of the cursor
unfoldable pub put_glyph : (ℕ → ℕ → ℕ) → Fbcon → ℕ → Fbcon
put_glyph font f c =
    present_cell
      (record f { gfx = gfx_draw_char font f.gfx (cell_x f f.cx) (cell_y f f.cy) c f.fg f.bg }) f.cx
      f.cy

-- the end of a line that is full
unfoldable pub wrap_cell : Fbcon → Fbcon
wrap_cell f = if leb f.cols f.cx then newline f else f

-- `fbcon_putc` between the two times the cursor is drawn
unfoldable pub put_char : (ℕ → ℕ → ℕ) → Fbcon → ℕ → Fbcon
put_char font f c =
    if c == 10
    then newline f
    else if c == 13
    then record f { cx = 0 }
    else if c == 8
    then record f { cx = f.cx - 1 }
    else if c == 9
    then wrap_cell (record f { cx = (f.cx + 4) / 4 * 4 })
    else wrap_cell (record (put_glyph font f c) { cx = f.cx + 1 })

unfoldable pub fbcon_putc : (ℕ → ℕ → ℕ) → Fbcon → ℕ → Fbcon
fbcon_putc font f c =
    if not f.active then f else draw_cursor (put_char font (draw_cursor f false) c) true

pub fbcon_clear : Fbcon → Fbcon
fbcon_clear f =
    if not f.active
    then f
    else draw_cursor (record (present_area (clear_area f)) { cx = 0; cy = 0 }) true

-- the loop of `fbcon_write_at` from the column `col` on
unfoldable pub write_cells : (ℕ → ℕ → ℕ) → Fbcon → List ℕ → ℕ → ℕ → Fbcon
write_cells font f [] row col = f
write_cells font f (c ∷ s) row col =
    let put =
      present_cell
        (record f { gfx = gfx_draw_char font f.gfx (cell_x f col) (cell_y f row) c f.fg f.bg }) col
        row in
    let rest = write_cells font put s row (col + 1) in if ltb col f.cols then rest else f

-- for a column that is not negative
pub fbcon_write_at : (ℕ → ℕ → ℕ) → Fbcon → List ℕ → ℤ → ℕ → Fbcon
fbcon_write_at font f s row col =
    if not f.active || ltb_ℤ row (pos 0) || leb_ℤ (pos f.rows) row
    then f
    else write_cells font f s (pos_part row) col
