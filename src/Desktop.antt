-- ===== src/Desktop.antt =====
-- kernel/gui/desktop.c: the wallpaper, the taskbar with its clock, and the window of the console.
-- Coordinates are integers; the font is an argument, and the time is what `rtc_read` gave.
use revinix_os.Base.{
  ℕ, zero, suc, ◌+◌, ◌-◌, ◌*◌, ◌/◌, ◌%◌, not, ◌&&◌, ◌||◌, List, [], ◌∷◌, ◌++◌, leb, ◌==◌,
  if◌then◌else◌, get_or, ℤ, pos, ◌+ℤ◌, ◌-ℤ◌,
}
use revinix_os.Clock.{RtcTime}
use revinix_os.Input.Mouse.{Mouse, mouse_poll}
use revinix_os.Gfx.{Gfx, font_w, font_h, gfx_fill_rect, gfx_draw_text, gfx_present, gfx_cursor_set}
use revinix_os.Gfx.Fbcon.{Fbcon, fbcon_init}

abbrev pub taskbar_h : ℕ
taskbar_h = 36

abbrev pub titlebar_h : ℕ
titlebar_h = 28

-- RGB of gfx.h, for bytes
abbrev pub rgb : ℕ → ℕ → ℕ → ℕ
rgb r g b = r * 65536 + g * 256 + b

abbrev pub col_taskbar : ℕ
col_taskbar = 0x14141E

abbrev pub col_start : ℕ
col_start = 0x2D6CDF

abbrev pub col_text : ℕ
col_text = 0xF0F0F5

abbrev pub col_taskbtn : ℕ
col_taskbtn = 0x2A2A3C

abbrev pub col_frame : ℕ
col_frame = 0x3A3A55

abbrev pub col_title : ℕ
col_title = 0x26263A

abbrev pub col_con_bg : ℕ
col_con_bg = 0x1E1E2E

-- the statics of desktop.c, and the console with the screen
pub record Desktop : Type 0 where
  pub width : ℕ
  pub height : ℕ
  pub last_second : ℕ
  pub con : Fbcon

-- two digits
pub put2 : ℕ → List ℕ
put2 v = (48 + v / 10) % 256 ∷ (48 + v % 10) % 256 ∷ []

abbrev pub month_names : List (List ℕ)
month_names =
    (74 ∷ 97 ∷ 110 ∷ [])
    ∷ (70 ∷ 101 ∷ 98 ∷ [])
    ∷ (77 ∷ 97 ∷ 114 ∷ [])
    ∷ (65 ∷ 112 ∷ 114 ∷ [])
    ∷ (77 ∷ 97 ∷ 121 ∷ [])
    ∷ (74 ∷ 117 ∷ 110 ∷ [])
    ∷ (74 ∷ 117 ∷ 108 ∷ [])
    ∷ (65 ∷ 117 ∷ 103 ∷ [])
    ∷ (83 ∷ 101 ∷ 112 ∷ [])
    ∷ (79 ∷ 99 ∷ 116 ∷ [])
    ∷ (78 ∷ 111 ∷ 118 ∷ [])
    ∷ (68 ∷ 101 ∷ 99 ∷ [])
    ∷ []

-- the text of the clock
pub clock_text : RtcTime → List ℕ
clock_text t =
    let month =
      (if leb 1 t.month && leb t.month 12
        then get_or month_names (t.month - 1) []
        else (63 ∷ 63 ∷ 63 ∷ [])) in
    put2 t.hour
    ++ (58 ∷ [])
    ++ put2 t.minute
    ++ (58 ∷ [])
    ++ put2 t.second
    ++ (32 ∷ 32 ∷ [])
    ++ put2 t.day
    ++ (32 ∷ [])
    ++ month
    ++ (32 ∷ [])
    ++ put2 (t.year / 100)
    ++ put2 (t.year % 100)

module _ (font : ℕ → ℕ → ℕ) where
  pub draw_clock : Desktop → RtcTime → Gfx → Gfx
  draw_clock d t g =
      let w = 21 * font_w in
      let x = pos d.width -ℤ pos w -ℤ pos 14 in
      let y = pos d.height -ℤ pos taskbar_h +ℤ pos ((taskbar_h - font_h) / 2) in
      let g1 = gfx_fill_rect g (x -ℤ pos 4) y (pos (w + 8)) (pos font_h) col_taskbar in
      let g2 = gfx_draw_text font g1 x y (clock_text t) col_text col_taskbar in
      gfx_present g2 (x -ℤ pos 4) y (pos (w + 8)) (pos font_h)

  -- The rows of the gradient from `y` on; the green part falls, by a quotient rounded towards 0.
  pub wallpaper_rows : ℕ → ℕ → ℕ → ℕ → Gfx → Gfx
  wallpaper_rows zero width h y g = g
  wallpaper_rows (suc left) width h y g =
      let color =
        rgb (0x18 + (0x5A - 0x18) * y / h) (0x20 - (0x20 - 0x1C) * y / h)
          (0x6E + (0x8C - 0x6E) * y / h) in
      wallpaper_rows left width h (y + 1)
        (gfx_fill_rect g (pos 0) (pos y) (pos width) (pos 1) color)

  pub draw_wallpaper : Desktop → Gfx → Gfx
  draw_wallpaper d g = let h = d.height - taskbar_h in wallpaper_rows h d.width h 0 g

  pub draw_taskbar : Desktop → Gfx → Gfx
  draw_taskbar d g =
      let y = pos d.height -ℤ pos taskbar_h in
      let text_y = y +ℤ pos ((taskbar_h - font_h) / 2) in
      let button = y +ℤ pos 5 in
      let g1 = gfx_fill_rect g (pos 0) y (pos d.width) (pos taskbar_h) col_taskbar in
      let g2 = gfx_fill_rect g1 (pos 0) y (pos d.width) (pos 1) col_frame in
      let g3 =
        gfx_fill_rect g2 (pos 6) button (pos (11 * font_w + 16)) (pos (taskbar_h - 10)) col_start in
      let g4 =
        gfx_draw_text font g3 (pos 14) text_y
          (82 ∷ 101 ∷ 118 ∷ 105 ∷ 110 ∷ 105 ∷ 120 ∷ 79 ∷ 83 ∷ []) col_text col_start in
      let bx = 6 + 11 * font_w + 16 + 8 in
      let g5 =
        gfx_fill_rect g4 (pos bx) button (pos (10 * font_w + 16)) (pos (taskbar_h - 10))
          col_taskbtn in
      let g6 =
        gfx_fill_rect g5 (pos bx) (y +ℤ pos (taskbar_h - 7)) (pos (10 * font_w + 16)) (pos 2)
          col_start in
      gfx_draw_text font g6 (pos (bx + 8)) text_y (84 ∷ 101 ∷ 114 ∷ 109 ∷ 105 ∷ 110 ∷ 97 ∷ 108 ∷ [])
        0xB0B0C8 col_taskbtn

  -- The frame and the title bar of a window; the content is the rectangle from (x + 1, y + titlebar_h),
  -- of w - 2 by h - titlebar_h - 1.
  pub draw_window : ℤ → ℤ → ℤ → ℤ → List ℕ → Gfx → Gfx
  draw_window x y w h title g =
      let g1 = gfx_fill_rect g (x +ℤ pos 6) (y +ℤ pos 6) w h 0x0A0A14 in
      let g2 = gfx_fill_rect g1 x y w h col_frame in
      let g3 =
        gfx_fill_rect g2 (x +ℤ pos 1) (y +ℤ pos 1) (w -ℤ pos 2) (pos (titlebar_h - 1)) col_title in
      let g4 =
        gfx_draw_text font g3 (x +ℤ pos 12) (y +ℤ pos ((titlebar_h - font_h) / 2)) title col_text
          col_title in
      let right = x +ℤ w -ℤ pos 22 in
      let top = y +ℤ pos 8 in
      let g5 = gfx_fill_rect g4 right top (pos 12) (pos 12) 0xE05050 in
      let g6 = gfx_fill_rect g5 (right -ℤ pos 20) top (pos 12) (pos 12) 0xE6B432 in
      let g7 = gfx_fill_rect g6 (right -ℤ pos 40) top (pos 12) (pos 12) 0x5AC85A in
      gfx_fill_rect g7 (x +ℤ pos 1) (y +ℤ pos titlebar_h) (w -ℤ pos 2)
        (h -ℤ pos titlebar_h -ℤ pos 1) col_con_bg

  -- for a screen on which the console gets an area
  pub desktop_init : Desktop → RtcTime → Desktop
  desktop_init old t =
      let g = old.con.gfx in
      let d = record old { width = g.width; height = g.height } in
      let mx = d.width / 16 in
      let my = d.height / 18 in
      let w = d.width - 2 * mx in
      let h = d.height - taskbar_h - 2 * my in
      let g1 =
        draw_window (pos mx) (pos my) (pos w) (pos h)
          (84 ∷ 101 ∷ 114 ∷ 109 ∷ 105 ∷ 110 ∷ 97 ∷ 108 ∷ 32 ∷ 45 ∷ 32 ∷ 82 ∷ 101 ∷ 118 ∷ 105 ∷ 110
            ∷ 105 ∷ 120 ∷ 79 ∷ 83 ∷ 32 ∷ 115 ∷ 104 ∷ 101 ∷ 108 ∷ 108 ∷ [])
          (draw_taskbar d (draw_wallpaper d g)) in
      let g2 = gfx_present g1 (pos 0) (pos 0) (pos d.width) (pos d.height) in
      let con =
        fbcon_init (record old.con { gfx = g2 }) (pos (mx + 9)) (pos (my + titlebar_h + 6))
          (w - 2 - 16) (h - titlebar_h - 1 - 12) 0xE0E0E8 col_con_bg in
      record d { last_second = t.second; con = record con { gfx = draw_clock d t con.gfx } }

  pub desktop_tick : Desktop → Mouse → RtcTime → Desktop × Mouse
  desktop_tick d m t =
      let (moved, at, m1) = mouse_poll m in
      let g = d.con.gfx in
      let g1 = (if moved then gfx_cursor_set g at.x at.y else g) in
      let g2 = (if t.second == d.last_second then g1 else draw_clock d t g1) in
      if not g.ready || not d.con.active
      then (d, m)
      else (record d { last_second = t.second; con = record d.con { gfx = g2 } }, m1)
