-- ===== src/Gfx/Tests.antt =====
-- The drawing operations on a small screen.
use revinix_os.Base.{ℕ, ◌≡◌, refl, true, ◌&&◌, if◌then◌else◌, pos, negsuc, pos_part, ◌-ℤ◌, arith}
use revinix_os.Gfx.{
  Gfx, font_w, font_h, glyph_of, gfx_fill_rect, gfx_draw_char, gfx_scroll_up, gfx_present, clip,
}
use revinix_os.Gfx.Clip.{covers, covered, Clipped, clip-Clipped}
use revinix_os.Gfx.Draw.{pixel, glyph_color, gfx_fill_rect-covered, gfx_draw_char-covered}
use revinix_os.Gfx.Scroll.{gfx_scroll_up-covered}
use revinix_os.Gfx.Screen.{shown, presented, gfx_present-presented}
use revinix_os.Gfx.Fbcon.{Fbcon, fbcon_putc}
use revinix_os.Gfx.Fbcon.Area.{IsInside, Moves, fbcon_putc-Moves}

-- 64 by 48 pixels of 24 bits, with the mouse at the left edge
abbrev small_screen : Gfx
small_screen = record {
  ready = true;
  width = 64;
  height = 48;
  pitch = 200;
  bytespp = 3;
  front = λ a. 0;
  back = λ i. i;
  cur_on = true;
  cur_x = negsuc 2;
  cur_y = pos 5;
}

clip-Clipped_example :
    Clipped small_screen
      (negsuc 4)
      (pos 40)
      (pos 20)
      (pos 20)
      (clip small_screen (negsuc 4) (pos 40) (pos 20) (pos 20))
clip-Clipped_example = clip-Clipped small_screen (negsuc 4) (pos 40) (pos 20) (pos 20)

gfx_fill_rect-covered_example :
    pixel (gfx_fill_rect small_screen (negsuc 4) (pos 40) (pos 20) (pos 20) 7) 3 41 ≡ (
      if covered small_screen (negsuc 4) (pos 40) (pos 20) (pos 20) 3 41
      then 7
      else pixel small_screen 3 41)
gfx_fill_rect-covered_example =
    gfx_fill_rect-covered small_screen (negsuc 4) (pos 40) (pos 20) (pos 20) 7 3 41 refl
      (omega arith)

-- a font of vertical stripes
abbrev stripes : ℕ → ℕ → ℕ
stripes glyph row = 0xAA

gfx_draw_char-covered_example :
    pixel (gfx_draw_char stripes small_screen (negsuc 2) (pos 3) 65 1 0) 2 4 ≡ (
      if covers (pos 3) (pos font_h) 4 && covers (negsuc 2) (pos font_w) 2
      then glyph_color (stripes (glyph_of 65) (pos_part (pos 4 -ℤ pos 3))) (negsuc 2) 1 0 2
      else pixel small_screen 2 4)
gfx_draw_char-covered_example =
    gfx_draw_char-covered stripes small_screen (negsuc 2) (pos 3) 65 1 0 2 4 refl (omega arith)
      (omega arith)

gfx_scroll_up-covered_example :
    pixel (gfx_scroll_up small_screen (pos 0) (pos 0) (pos 64) (pos 48) 16 9) 5 20 ≡ (
      if covered small_screen (pos 0) (pos 0) (pos 64) (pos 48) 5 20
      then (if covered small_screen (pos 0) (pos 0) (pos 64) (pos 48) 5 36
          then pixel small_screen 5 36
          else 9)
      else pixel small_screen 5 20)
gfx_scroll_up-covered_example =
    gfx_scroll_up-covered small_screen (pos 0) (pos 0) (pos 64) (pos 48) 16 9 5 20 refl
      (omega arith)

gfx_present-presented_example :
    shown small_screen (gfx_present small_screen (pos 0) (pos 0) (pos 64) (pos 48)).front 1 8 2 ≡ (
      if covered small_screen (pos 0) (pos 0) (pos 64) (pos 48) 1 8
      then presented small_screen 1 8 2
      else shown small_screen small_screen.front 1 8 2)
gfx_present-presented_example =
    gfx_present-presented small_screen (pos 0) (pos 0) (pos 64) (pos 48) 1 8 2 (omega arith) refl
      (omega arith) (omega arith)

-- a console of 6 by 2 cells with the cursor in the last one
abbrev console : Fbcon
console = record {
  active = true;
  ox = pos 8;
  oy = pos 10;
  cols = 6;
  rows = 2;
  cx = 5;
  cy = 1;
  fg = 1;
  bg = 0;
  gfx = small_screen;
}

fbcon_putc-Moves_example :
    Moves console (fbcon_putc stripes console 65) × IsInside (fbcon_putc stripes console 65)
fbcon_putc-Moves_example =
    fbcon_putc-Moves stripes console 65 refl refl (record { col = omega arith; row = omega arith })
