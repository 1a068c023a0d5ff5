-- ===== src/Gfx/Draw.antt =====
-- kernel/gfx/gfx.c: what the drawing operations do to each pixel of the back buffer.
use revinix_os.Base.{
  ℕ, zero, suc, ◌+◌, ◌-◌, ◌*◌, ◌<◌, ◌≤◌, ◌≡◌, refl, ◌∙◌, inl, inr, Bool, true, false, ◌&&◌, ◌||◌,
  Option, none, some, ltb, ◌==◌, if◌then◌else◌, Bool-cases, update, has_bit, arith,
}
use revinix_os.Base.{ℤ, pos, pos_part, ◌+ℤ◌, ◌-ℤ◌, leb_ℤ}
use revinix_os.Gfx.{
  Gfx, Rect, clip, at_pixel, fill_row, fill_rows, gfx_fill_rect, on_axis, draw_cols, draw_rows,
  glyph_of, gfx_draw_char, font_w, font_h,
}
use revinix_os.Gfx.Clip.{covers, within, covered, Clipped, nothing, left, clip-Clipped}
use native.Mathlib.Nat.{mul-le-mul_right}

-- Two rows apart are a row's width apart.
rows_apart : (width low high : ℕ) → low < high → low * width + width ≤ high * width
rows_apart width low high lt = omega (arith, mul-le-mul_right width lt)

-- A piece of one row holds the pixels of that row only.
pub row_hit :
    (width row x w py px : ℕ)
    → x + w ≤ width
    → px < width
    → within (at_pixel width row x) w (at_pixel width py px) ≡ (row == py && within x w px)
row_hit width row x w py px fits on = elim (Bool-cases (row == py)) [
  | inl same ↦ let e : row ≡ py = ground arith in rw e (ground arith)
  | inr other ↦ elim (Bool-cases (ltb row py)) [
    | inl above ↦
        let apart = rows_apart width row py (ground arith) in rw other (ground (arith, apart))
    | inr below ↦
        let apart = rows_apart width py row (ground arith) in rw other (ground (arith, apart))
  ]
]

fill_row-at :
    (n p color : ℕ) (back : ℕ → ℕ) (a : ℕ)
    → fill_row n p color back a ≡ (if within p n a then color else back a)
unfolding fill_row update
fill_row-at zero p color back a = ground arith
fill_row-at (suc n) p color back a =
    fill_row-at n (p + 1) color (update back p color) a ∙ ground arith

fill_rows-at :
    (n width row x w color : ℕ) (back : ℕ → ℕ) (px py : ℕ)
    → x + w ≤ width
    → px < width
    → fill_rows n width row x w color back (at_pixel width py px)
      ≡ (if within x w px && within row n py then color else back (at_pixel width py px))
unfolding fill_rows
fill_rows-at zero width row x w color back px py fits on = ground arith
fill_rows-at (suc n) width row x w color back px py fits on =
    fill_rows-at n width (row + 1) x w color (fill_row w (at_pixel width row x) color back) px py
      fits on
    ∙ rw
        (
          fill_row-at w (at_pixel width row x) color back (at_pixel width py px),
          row_hit width row x w py px fits on,
        )
        (ground arith)

-- the colour of a pixel of the back buffer
abbrev pub pixel : Gfx → ℕ → ℕ → ℕ
pixel g px py = g.back (at_pixel g.width py px)

-- `clip` and the fill of what it leaves
fill_found :
    (g : Gfx) (x y w h : ℤ) (color px py : ℕ) (o : Option Rect)
    → g.ready ≡ true
    → clip g x y w h ≡ o
    → Clipped g x y w h o
    → px < g.width
    → pixel (gfx_fill_rect g x y w h color) px py
      ≡ (if covered g x y w h px py then color else pixel g px py)
unfolding gfx_fill_rect
fill_found g x y w h color px py none on found (nothing empty) lt =
    simp (gfx_fill_rect, on, found, empty px py)
fill_found g x y w h color px py (some r) on found (left fits low all) lt =
    simp (gfx_fill_rect, on, found, all px py)
      (fill_rows-at r.h g.width r.y r.x r.w color g.back px py fits lt)

-- With the screen ready, `gfx_fill_rect` gives the colour to exactly the pixels of the rectangle that
-- are on the screen, for a rectangle with coordinates and lengths of any sign.
pub gfx_fill_rect-covered :
    (g : Gfx) (x y w h : ℤ) (color px py : ℕ)
    → g.ready ≡ true
    → px < g.width
    → pixel (gfx_fill_rect g x y w h color) px py
      ≡ (if covered g x y w h px py then color else pixel g px py)
gfx_fill_rect-covered g x y w h color px py on lt =
    fill_found g x y w h color px py (clip g x y w h) on refl (clip-Clipped g x y w h) lt

pixel_hit :
    (width qy qx py px : ℕ)
    → qx < width
    → px < width
    → (at_pixel width py px == at_pixel width qy qx) ≡ (qy == py && qx == px)
pixel_hit width qy qx py px lt lt1 =
    let hit = row_hit width qy qx 1 py px (omega arith) lt1 in ground (arith, hit)

-- an integer that is the number `p`
abbrev is_at : ℤ → ℕ → Bool
is_at q p = leb_ℤ q (pos p) && leb_ℤ (pos p) q

covers_next :
    (x : ℤ) (col n px : ℕ)
    → covers (x +ℤ pos col) (pos (suc n)) px
      ≡ (is_at (x +ℤ pos col) px || covers (x +ℤ pos (col + 1)) (pos n) px)
unfolding covers ◌+ℤ◌
covers_next x col n px = ground arith

is_at_once :
    (x : ℤ) (col n px : ℕ)
    → is_at (x +ℤ pos col) px ≡ true
    → covers (x +ℤ pos (col + 1)) (pos n) px ≡ false
unfolding covers ◌+ℤ◌
is_at_once x col n px here = ground arith

is_at-pos_part :
    (q : ℤ) (px limit : ℕ) → px < limit → is_at q px ≡ (on_axis q limit && pos_part q == px)
is_at-pos_part q px limit lt = ground arith

distance : (x : ℤ) (col px : ℕ) → is_at (x +ℤ pos col) px ≡ true → pos_part (pos px -ℤ x) ≡ col
unfolding ◌+ℤ◌ ◌-ℤ◌
distance x col px here = ground arith

covers_none : (q : ℤ) (px : ℕ) → covers q (pos 0) px ≡ false
unfolding covers ◌+ℤ◌
covers_none q px = ground arith

draw_col-back :
    (width qy : ℕ) (q : ℤ) (v : ℕ) (back : ℕ → ℕ) (px py : ℕ)
    → px < width
    → (if on_axis q width then update back (at_pixel width qy (pos_part q)) v else back)
        (at_pixel width py px)
      ≡ (if qy == py && is_at q px then v else back (at_pixel width py px))
unfolding update
draw_col-back width qy q v back px py lt = elim (Bool-cases (on_axis q width)) [
  | inl on ↦
      rw
        (
          on,
          is_at-pos_part q px width lt,
          on,
          pixel_hit width qy (pos_part q) py px (ground arith) lt,
        )
        refl
  | inr off ↦ rw (off, is_at-pos_part q px width lt, off) (ground arith)
]

-- the colour that a row of a glyph gives to the column `px`
abbrev pub glyph_color : ℕ → ℤ → ℕ → ℕ → ℕ → ℕ
glyph_color bits x fg bg px = if has_bit bits (7 - pos_part (pos px -ℤ x)) then fg else bg

draw_cols-at :
    (n width qy : ℕ) (x : ℤ) (col bits fg bg : ℕ) (back : ℕ → ℕ) (px py : ℕ)
    → px < width
    → draw_cols n width qy x col bits fg bg back (at_pixel width py px) ≡ (
        if qy == py && covers (x +ℤ pos col) (pos n) px
        then glyph_color bits x fg bg px
        else back (at_pixel width py px))
unfolding draw_cols
draw_cols-at zero width qy x col bits fg bg back px py lt =
    rw (covers_none (x +ℤ pos col) px) (ground arith)
draw_cols-at (suc n) width qy x col bits fg bg back px py lt =
    let q = x +ℤ pos col in
    let v = (if has_bit bits (7 - col) then fg else bg) in
    draw_cols-at n width qy x (col + 1) bits fg bg
      (if on_axis q width then update back (at_pixel width qy (pos_part q)) v else back) px py lt
    ∙ rw (draw_col-back width qy q v back px py lt, covers_next x col n px)
        (elim (Bool-cases (is_at q px)) [
          | inl here ↦ rw (here, is_at_once x col n px here, distance x col px here) (ground arith)
          | inr there ↦ rw there (ground arith)
        ])

covers_from_zero : (x : ℤ) (n : ℤ) (px : ℕ) → covers (x +ℤ pos 0) n px ≡ covers x n px
unfolding covers ◌+ℤ◌
covers_from_zero x n px = ground arith

draw_row-back :
    (width height : ℕ) (x q : ℤ) (bits fg bg : ℕ) (back : ℕ → ℕ) (px py : ℕ)
    → px < width
    → py < height
    → (if on_axis q height then draw_cols font_w width (pos_part q) x 0 bits fg bg back else back)
        (at_pixel width py px)
      ≡ (if is_at q py && covers x (pos font_w) px
          then glyph_color bits x fg bg px
          else back (at_pixel width py px))
draw_row-back width height x q bits fg bg back px py lt lt1 = elim (Bool-cases (on_axis q height)) [
  | inl on ↦
      rw (on, is_at-pos_part q py height lt1, on, ← covers_from_zero x (pos font_w) px)
        (draw_cols-at font_w width (pos_part q) x 0 bits fg bg back px py lt)
  | inr off ↦ rw (off, is_at-pos_part q py height lt1, off) (ground arith)
]

draw_rows-at :
    (n width height : ℕ) (x y : ℤ) (row : ℕ) (glyph : ℕ → ℕ) (fg bg : ℕ) (back : ℕ → ℕ) (px py : ℕ)
    → px < width
    → py < height
    → draw_rows n width height x y row glyph fg bg back (at_pixel width py px) ≡ (
        if covers (y +ℤ pos row) (pos n) py && covers x (pos font_w) px
        then glyph_color (glyph (pos_part (pos py -ℤ y))) x fg bg px
        else back (at_pixel width py px))
unfolding draw_rows
draw_rows-at zero width height x y row glyph fg bg back px py lt lt1 =
    rw (covers_none (y +ℤ pos row) py) (ground arith)
draw_rows-at (suc n) width height x y row glyph fg bg back px py lt lt1 =
    let q = y +ℤ pos row in
    draw_rows-at n width height x y (row + 1) glyph fg bg
      (if on_axis q height
        then draw_cols font_w width (pos_part q) x 0 (glyph row) fg bg back
        else back)
      px py lt lt1
    ∙ rw
        (draw_row-back width height x q (glyph row) fg bg back px py lt lt1, covers_next y row n py)
        (elim (Bool-cases (is_at q py)) [
          | inl here ↦ rw (here, is_at_once y row n py here, distance y row py here) (ground arith)
          | inr there ↦ rw there (ground arith)
        ])

-- With the screen ready, `gfx_draw_char` gives each pixel of the screen in the 8 by 16 box at any
-- position the foreground or the background, by the bit of the glyph's row with the leftmost pixel in
-- bit 7, and no other pixel of the screen changes.
pub gfx_draw_char-covered :
    (font : ℕ → ℕ → ℕ) (g : Gfx) (x y : ℤ) (c fg bg px py : ℕ)
    → g.ready ≡ true
    → px < g.width
    → py < g.height
    → pixel (gfx_draw_char font g x y c fg bg) px py ≡ (
        if covers y (pos font_h) py && covers x (pos font_w) px
        then glyph_color (font (glyph_of c) (pos_part (pos py -ℤ y))) x fg bg px
        else pixel g px py)
unfolding gfx_draw_char
gfx_draw_char-covered font g x y c fg bg px py on lt lt1 =
    simp (gfx_draw_char, on, ← covers_from_zero y (pos font_h) py)
      (draw_rows-at font_h g.width g.height x y 0 (font (glyph_of c)) fg bg g.back px py lt lt1)
