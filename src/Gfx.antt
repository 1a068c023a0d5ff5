-- ===== src/Gfx.antt =====
-- kernel/gfx/gfx.c: drawing into the back buffer, and the copy of it to the framebuffer.
-- An `int` of the code is an integer without overflow. The back buffer is a colour to an index, the
-- framebuffer a byte to an offset. The font, a table of another project, is an argument.
pub mod Clip
pub mod Draw
pub mod Scroll
pub mod Screen
pub mod Redraw
pub mod Fbcon
mod Tests
use revinix_os.Base.{
  ℕ, zero, suc, ◌+◌, ◌-◌, ◌*◌, ◌/◌, ◌%◌, ◌^◌, Bool, true, false, not, ◌&&◌, ◌||◌, Option, none,
  some, List, [], ◌∷◌, ltb, leb, ◌==◌, ◌!=◌, if◌then◌else◌, mul64, add64, update, has_bit, get_or,
}
use revinix_os.Base.{ℤ, pos, pos_part, ◌+ℤ◌, ◌-ℤ◌, ltb_ℤ, leb_ℤ}
use revinix_os.Fs.Block.{Bytes}
use revinix_os.Boot.{Framebuffer}

abbrev pub font_w : ℕ
font_w = 8

abbrev pub font_h : ℕ
font_h = 16

-- the statics of gfx.c, with the memory of both buffers
pub record Gfx : Type 0 where
  pub ready : Bool
  pub width : ℕ
  pub height : ℕ
  pub pitch : ℕ
  pub bytespp : ℕ
  pub front : Bytes
  pub back : ℕ → ℕ
  pub cur_on : Bool
  pub cur_x : ℤ
  pub cur_y : ℤ

-- The colours of a pixel of the mouse cursor: none, black and white.
pub data Ink : Type 0 where
  clear : Ink
  dark : Ink
  light : Ink

abbrev pub cur_w : ℕ
cur_w = 11

abbrev pub cur_h : ℕ
cur_h = 17

abbrev pub cursor_shape : List (List Ink)
cursor_shape =
    (Ink.dark ∷ Ink.clear ∷ Ink.clear ∷ Ink.clear ∷ Ink.clear ∷ Ink.clear ∷ Ink.clear ∷ Ink.clear
      ∷ Ink.clear ∷ Ink.clear ∷ Ink.clear ∷ [])
    ∷ (Ink.dark ∷ Ink.dark ∷ Ink.clear ∷ Ink.clear ∷ Ink.clear ∷ Ink.clear ∷ Ink.clear ∷ Ink.clear
        ∷ Ink.clear ∷ Ink.clear ∷ Ink.clear ∷ [])
    ∷ (Ink.dark ∷ Ink.light ∷ Ink.dark ∷ Ink.clear ∷ Ink.clear ∷ Ink.clear ∷ Ink.clear ∷ Ink.clear
        ∷ Ink.clear ∷ Ink.clear ∷ Ink.clear ∷ [])
    ∷ (Ink.dark ∷ Ink.light ∷ Ink.light ∷ Ink.dark ∷ Ink.clear ∷ Ink.clear ∷ Ink.clear ∷ Ink.clear
        ∷ Ink.clear ∷ Ink.clear ∷ Ink.clear ∷ [])
    ∷ (Ink.dark ∷ Ink.light ∷ Ink.light ∷ Ink.light ∷ Ink.dark ∷ Ink.clear ∷ Ink.clear ∷ Ink.clear
        ∷ Ink.clear ∷ Ink.clear ∷ Ink.clear ∷ [])
    ∷ (Ink.dark ∷ Ink.light ∷ Ink.light ∷ Ink.light ∷ Ink.light ∷ Ink.dark ∷ Ink.clear ∷ Ink.clear
        ∷ Ink.clear ∷ Ink.clear ∷ Ink.clear ∷ [])
    ∷ (Ink.dark ∷ Ink.light ∷ Ink.light ∷ Ink.light ∷ Ink.light ∷ Ink.light ∷ Ink.dark ∷ Ink.clear
        ∷ Ink.clear ∷ Ink.clear ∷ Ink.clear ∷ [])
    ∷ (Ink.dark ∷ Ink.light ∷ Ink.light ∷ Ink.light ∷ Ink.light ∷ Ink.light ∷ Ink.light ∷ Ink.dark
        ∷ Ink.clear ∷ Ink.clear ∷ Ink.clear ∷ [])
    ∷ (Ink.dark ∷ Ink.light ∷ Ink.light ∷ Ink.light ∷ Ink.light ∷ Ink.light ∷ Ink.light ∷ Ink.light
        ∷ Ink.dark ∷ Ink.clear ∷ Ink.clear ∷ [])
    ∷ (Ink.dark ∷ Ink.light ∷ Ink.light ∷ Ink.light ∷ Ink.light ∷ Ink.light ∷ Ink.light ∷ Ink.light
        ∷ Ink.light ∷ Ink.dark ∷ Ink.clear ∷ [])
    ∷ (Ink.dark ∷ Ink.light ∷ Ink.light ∷ Ink.light ∷ Ink.light ∷ Ink.light ∷ Ink.dark ∷ Ink.dark
        ∷ Ink.dark ∷ Ink.dark ∷ Ink.dark ∷ [])
    ∷ (Ink.dark ∷ Ink.light ∷ Ink.light ∷ Ink.dark ∷ Ink.light ∷ Ink.light ∷ Ink.dark ∷ Ink.clear
        ∷ Ink.clear ∷ Ink.clear ∷ Ink.clear ∷ [])
    ∷ (Ink.dark ∷ Ink.light ∷ Ink.dark ∷ Ink.clear ∷ Ink.dark ∷ Ink.light ∷ Ink.light ∷ Ink.dark
        ∷ Ink.clear ∷ Ink.clear ∷ Ink.clear ∷ [])
    ∷ (Ink.dark ∷ Ink.dark ∷ Ink.clear ∷ Ink.clear ∷ Ink.dark ∷ Ink.light ∷ Ink.light ∷ Ink.dark
        ∷ Ink.clear ∷ Ink.clear ∷ Ink.clear ∷ [])
    ∷ (Ink.dark ∷ Ink.clear ∷ Ink.clear ∷ Ink.clear ∷ Ink.clear ∷ Ink.dark ∷ Ink.light ∷ Ink.light
        ∷ Ink.dark ∷ Ink.clear ∷ Ink.clear ∷ [])
    ∷ (Ink.clear ∷ Ink.clear ∷ Ink.clear ∷ Ink.clear ∷ Ink.clear ∷ Ink.dark ∷ Ink.light ∷ Ink.light
        ∷ Ink.dark ∷ Ink.clear ∷ Ink.clear ∷ [])
    ∷ (Ink.clear ∷ Ink.clear ∷ Ink.clear ∷ Ink.clear ∷ Ink.clear ∷ Ink.clear ∷ Ink.dark ∷ Ink.dark
        ∷ Ink.clear ∷ Ink.clear ∷ Ink.clear ∷ [])
    ∷ []

pub record Rect : Type 0 where
  pub x : ℕ
  pub y : ℕ
  pub w : ℕ
  pub h : ℕ

-- One axis of `clip`: a start below 0 is taken off the length, and an end behind the limit as well.
unfoldable pub clip_axis : ℤ → ℤ → ℕ → ℕ × ℤ
clip_axis start len limit =
    let len1 = (if ltb_ℤ start (pos 0) then len +ℤ start else len) in
    let start1 = pos_part start in
    (start1, if ltb_ℤ (pos limit) (pos start1 +ℤ len1) then pos limit -ℤ pos start1 else len1)

-- A rectangle that is left lies on the screen, so its numbers are not negative.
unfoldable pub clip : Gfx → ℤ → ℤ → ℤ → ℤ → Option Rect
clip g x y w h =
    let (x1, w1) = clip_axis x w g.width in
    let (y1, h1) = clip_axis y h g.height in
    if ltb_ℤ (pos 0) w1 && ltb_ℤ (pos 0) h1
    then some (record { x = x1; y = y1; w = pos_part w1; h = pos_part h1 })
    else none

-- the index of a pixel in the back buffer
abbrev pub at_pixel : ℕ → ℕ → ℕ → ℕ
at_pixel width row x = row * width + x

-- The loops over a row and over the rows, with the rounds that are left.
unfoldable pub fill_row : ℕ → ℕ → ℕ → (ℕ → ℕ) → ℕ → ℕ
fill_row zero p color back = back
fill_row (suc left) p color back = fill_row left (p + 1) color (update back p color)

unfoldable pub fill_rows : ℕ → ℕ → ℕ → ℕ → ℕ → ℕ → (ℕ → ℕ) → ℕ → ℕ
fill_rows zero width row x w color back = back
fill_rows (suc left) width row x w color back =
    fill_rows left width (row + 1) x w color (fill_row w (at_pixel width row x) color back)

unfoldable pub gfx_fill_rect : Gfx → ℤ → ℤ → ℤ → ℤ → ℕ → Gfx
gfx_fill_rect g x y w h color = if not g.ready then g else elim (clip g x y w h) [
  | none ↦ g
  | some r ↦ record g { back = fill_rows r.h g.width r.y r.x r.w color g.back }
]

-- `0 <= p && p < limit`
abbrev pub on_axis : ℤ → ℕ → Bool
on_axis p limit = leb_ℤ (pos 0) p && ltb_ℤ p (pos limit)

-- the columns of one row of a glyph, from `col` on
unfoldable pub draw_cols : ℕ → ℕ → ℕ → ℤ → ℕ → ℕ → ℕ → ℕ → (ℕ → ℕ) → ℕ → ℕ
draw_cols zero width py x col bits fg bg back = back
draw_cols (suc left) width py x col bits fg bg back =
    let px = x +ℤ pos col in
    draw_cols left width py x (col + 1) bits fg bg (
      if on_axis px width
      then update back (at_pixel width py (pos_part px)) (if has_bit bits (7 - col) then fg else bg)
      else back)

unfoldable pub draw_rows : ℕ → ℕ → ℕ → ℤ → ℤ → ℕ → (ℕ → ℕ) → ℕ → ℕ → (ℕ → ℕ) → ℕ → ℕ
draw_rows zero width height x y row glyph fg bg back = back
draw_rows (suc left) width height x y row glyph fg bg back =
    let py = y +ℤ pos row in
    draw_rows left width height x y (row + 1) glyph fg bg (
      if on_axis py height
      then draw_cols font_w width (pos_part py) x 0 (glyph row) fg bg back
      else back)

-- the number of the glyph of a character, `?` for those without one
abbrev pub glyph_of : ℕ → ℕ
glyph_of c = if ltb c 0x20 || ltb 0x7E c then 63 - 0x20 else c - 0x20

unfoldable pub gfx_draw_char : (ℕ → ℕ → ℕ) → Gfx → ℤ → ℤ → ℕ → ℕ → ℕ → Gfx
gfx_draw_char font g x y c fg bg = if not g.ready then g else record g {
  back = draw_rows font_h g.width g.height x y 0 (font (glyph_of c)) fg bg g.back;
}

-- a text as the list of its characters
pub gfx_draw_text : (ℕ → ℕ → ℕ) → Gfx → ℤ → ℤ → List ℕ → ℕ → ℕ → Gfx
gfx_draw_text font g x y [] fg bg = g
gfx_draw_text font g x y (c ∷ s) fg bg =
    gfx_draw_text font (gfx_draw_char font g x y c fg bg) (x +ℤ pos font_w) y s fg bg

-- `dst[i] = src[i]`
unfoldable pub copy_pixels : ℕ → ℕ → ℕ → (ℕ → ℕ) → ℕ → ℕ
copy_pixels zero dst src back = back
copy_pixels (suc left) dst src back =
    copy_pixels left (dst + 1) (src + 1) (update back dst (back src))

unfoldable pub move_rows : ℕ → ℕ → ℕ → ℕ → ℕ → ℕ → (ℕ → ℕ) → ℕ → ℕ
move_rows zero width row dy x w back = back
move_rows (suc left) width row dy x w back =
    move_rows left width (row + 1) dy x w
      (copy_pixels w (at_pixel width row x) (at_pixel width (row + dy) x) back)

-- for a distance that is not negative
unfoldable pub gfx_scroll_up : Gfx → ℤ → ℤ → ℤ → ℤ → ℕ → ℕ → Gfx
gfx_scroll_up g x y w h dy bg = if not g.ready then g else elim (clip g x y w h) [
  | none ↦ g
  | some r ↦
      if leb r.h dy
      then gfx_fill_rect g (pos r.x) (pos r.y) (pos r.w) (pos r.h) bg
      else gfx_fill_rect (record g { back = move_rows (r.h - dy) g.width r.y dy r.x r.w g.back })
          (pos r.x) (pos (r.y + r.h - dy)) (pos r.w) (pos dy) bg
]

-- the bytes of a colour at `off`, four or three of them by the size of a pixel
unfoldable pub store_pixel : ℕ → ℕ → ℕ → Bytes → Bytes
store_pixel bytespp off c front a =
    if leb off a && ltb a (off + (if bytespp == 4 then 4 else 3))
    then c / 256 ^ (a - off) % 256
    else front a

-- where a pixel is in the framebuffer
abbrev pub front_at : Gfx → ℕ → ℕ → ℕ
front_at g x y = y * g.pitch + x * (if g.bytespp == 4 then 4 else 3)

-- What is written to the framebuffer goes from its bytes to its bytes, with the statics of `g`.
unfoldable pub front_pixel : Gfx → ℕ → ℕ → ℕ → Bytes → Bytes
front_pixel g x y c front = store_pixel g.bytespp (front_at g x y) c front

-- One row of `gfx_present`: the pixels from `x` on.
unfoldable pub present_row : Gfx → ℕ → ℕ → ℕ → Bytes → Bytes
present_row g zero row x front = front
present_row g (suc left) row x front =
    present_row g left row (x + 1) (front_pixel g x row (g.back (at_pixel g.width row x)) front)

unfoldable pub present_rows : Gfx → ℕ → ℕ → ℕ → ℕ → Bytes → Bytes
present_rows g zero row x w front = front
present_rows g (suc left) row x w front =
    present_rows g left (row + 1) x w (present_row g w row x front)

unfoldable pub ink_at : ℕ → ℕ → Ink
ink_at row col = get_or (get_or cursor_shape row []) col Ink.clear

unfoldable pub ink_pixel : Gfx → Ink → ℕ → ℕ → Bytes → Bytes
ink_pixel g Ink.clear px py front = front
ink_pixel g Ink.dark px py front = front_pixel g px py 0 front
ink_pixel g Ink.light px py front = front_pixel g px py 0xFFFFFF front

-- the part of the cursor's shape for a pixel of the screen
abbrev pub cursor_ink : Gfx → ℕ → ℕ → Ink
cursor_ink g px py = ink_at (pos_part (pos py -ℤ g.cur_y)) (pos_part (pos px -ℤ g.cur_x))

unfoldable pub overlay_row : Gfx → ℕ → ℕ → ℕ → Bytes → Bytes
overlay_row g zero py px front = front
overlay_row g (suc left) py px front =
    overlay_row g left py (px + 1) (ink_pixel g (cursor_ink g px py) px py front)

unfoldable pub overlay_rows : Gfx → ℕ → ℕ → ℕ → ℕ → Bytes → Bytes
overlay_rows g zero py px w front = front
overlay_rows g (suc left) py px w front =
    overlay_rows g left (py + 1) px w (overlay_row g w py px front)

-- The part of the cursor on one axis: where it starts and how long it is.
unfoldable pub overlap_axis : ℕ → ℕ → ℤ → ℕ → ℕ × ℕ
overlap_axis start len cur size =
    let start1 = (if ltb_ℤ cur (pos start) then start else pos_part cur) in
    let last = cur +ℤ pos size in
    let end1 = (if ltb_ℤ (pos (start + len)) last then pos (start + len) else last) in
    (start1, pos_part (end1 -ℤ pos start1))

unfoldable pub overlay_cursor : Gfx → ℕ → ℕ → ℕ → ℕ → Bytes → Bytes
overlay_cursor g x y w h front =
    let (x0, columns) = overlap_axis x w g.cur_x cur_w in
    let (y0, rows) = overlap_axis y h g.cur_y cur_h in
    if not g.cur_on then front else overlay_rows g rows y0 x0 columns front

unfoldable pub gfx_present : Gfx → ℤ → ℤ → ℤ → ℤ → Gfx
gfx_present g x y w h = if not g.ready then g else elim (clip g x y w h) [
  | none ↦ g
  | some r ↦ record g {
    front = overlay_cursor g r.x r.y r.w r.h (present_rows g r.h r.y r.x r.w g.front);
  }
]

pub gfx_cursor_set : Gfx → ℤ → ℤ → Gfx
gfx_cursor_set g x y =
    let moved = record g { cur_x = x; cur_y = y; cur_on = true } in
    let left =
      (if g.cur_on then gfx_present moved g.cur_x g.cur_y (pos cur_w) (pos cur_h) else moved) in
    if not g.ready then g else gfx_present left x y (pos cur_w) (pos cur_h)

-- `gfx_init`, with what `pmm_alloc_contig` answers to a number of frames (0: no memory); the memory at
-- the framebuffer and at these frames is `front` and `back`.
unfoldable pub gfx_init : Option Framebuffer → (ℕ → ℕ) → Gfx → Bool × Gfx
gfx_init none contig g = (false, g)
gfx_init (some fb) contig g =
    let set = record g {
      width = fb.width;
      height = fb.height;
      pitch = fb.pitch;
      bytespp = fb.bpp / 8;
    } in
    let bytes = mul64 (mul64 fb.width fb.height) 4 in
    let frames = add64 bytes 4095 / 4096 in
    if (fb.kind != 1) || ((fb.bpp != 32) && (fb.bpp != 24))
    then (false, g)
    else if contig frames == 0
    then (false, set)
    else (true, record set { ready = true })
