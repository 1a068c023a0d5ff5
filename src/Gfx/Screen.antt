-- ===== src/Gfx/Screen.antt =====
-- kernel/gfx/gfx.c: what gfx_present leaves in the framebuffer, the mouse cursor included.
use revinix_os.Base.{
  ℕ, zero, suc, ◌+◌, ◌-◌, ◌*◌, ◌/◌, ◌%◌, ◌^◌, ◌<◌, ◌≤◌, ◌≡◌, refl, ◌∙◌, ◌⊎◌, inl, inr, Bool, true,
  ◌&&◌, Option, none, some, ltb, ◌==◌, if◌then◌else◌, Bool-cases, ==_refl, arith,
}
use revinix_os.Base.{ℤ, pos, ◌+ℤ◌, ◌-ℤ◌}
use revinix_os.Fs.Block.{Bytes}
use revinix_os.Gfx.{
  Gfx, Rect, Ink, clip, at_pixel, front_at, store_pixel, front_pixel, present_row, present_rows,
  ink_pixel, cursor_ink, overlay_row, overlay_rows, overlap_axis, overlay_cursor, gfx_present,
  cur_w, cur_h,
}
use revinix_os.Gfx.Clip.{covers, within, covered, Clipped, nothing, left, clip-Clipped}
use revinix_os.Gfx.Draw.{pixel}
use native.Mathlib.Nat.{mul-le-mul_right}

abbrev pub pixel_size : Gfx → ℕ
pixel_size g = if g.bytespp == 4 then 4 else 3

-- byte `k` of a colour, and of a pixel of the framebuffer
abbrev pub color_byte : ℕ → ℕ → ℕ
color_byte c k = c / 256 ^ k % 256

abbrev pub shown : Gfx → Bytes → ℕ → ℕ → ℕ → ℕ
shown g front px py k = front (front_at g px py + k)

-- Two pixels of the framebuffer share no byte.
byte_apart :
    (pitch size width qx qy px py k : ℕ)
    → (size ≡ 3) ⊎ (size ≡ 4)
    → width * size ≤ pitch
    → qx < width
    → px < width
    → k < size
    → within (qy * pitch + qx * size) size (py * pitch + px * size + k) ≡ (qx == px && qy == py)
byte_apart pitch size width qx qy px py k which wide lt lt1 small = elim (Bool-cases (ltb qy py)) [
  | inl above ↦
      let apart : suc qy * pitch ≤ py * pitch = mul-le-mul_right pitch (ground arith) in
      ground (arith, apart)
  | inr not_above ↦ elim (Bool-cases (ltb py qy)) [
    | inl below ↦
        let apart : suc py * pitch ≤ qy * pitch = mul-le-mul_right pitch (ground arith) in
        ground (arith, apart)
    | inr not_below ↦ let e : qy ≡ py = ground arith in rw (e, ==_refl py) (ground arith)
  ]
]

-- the bytes of the rows do not overlap
abbrev pub IsWide : Gfx → Type 0
IsWide g = g.width * pixel_size g ≤ g.pitch

front_pixel-shown :
    (g : Gfx) (qx qy c : ℕ) (front : Bytes) (px py k : ℕ)
    → IsWide g
    → qx < g.width
    → px < g.width
    → k < pixel_size g
    → shown g (front_pixel g qx qy c front) px py k
      ≡ (if qx == px && qy == py then color_byte c k else shown g front px py k)
unfolding front_pixel store_pixel
front_pixel-shown g qx qy c front px py k wide lt lt1 small =
    let size = pixel_size g in
    let which : (size ≡ 3) ⊎ (size ≡ 4) = ground arith in
    rw (byte_apart g.pitch size g.width qx qy px py k which wide lt lt1 small)
      (elim (Bool-cases (qx == px && qy == py)) [
        | inl here ↦
            let ex : qx ≡ px = ground arith in
            let ey : qy ≡ py = ground arith in
            let e : py * g.pitch + px * size + k - (py * g.pitch + px * size) ≡ k = omega arith in
            rw (here, ex, ey, e) refl
        | inr there ↦ rw there refl
      ])

-- the byte under a part of the cursor
abbrev pub ink_byte : Ink → ℕ → ℕ → ℕ
ink_byte Ink.clear k under = under
ink_byte Ink.dark k under = color_byte 0 k
ink_byte Ink.light k under = color_byte 0xFFFFFF k

ink_pixel-shown :
    (g : Gfx) (ink : Ink) (qx qy : ℕ) (front : Bytes) (px py k : ℕ)
    → IsWide g
    → qx < g.width
    → px < g.width
    → k < pixel_size g
    → shown g (ink_pixel g ink qx qy front) px py k ≡ (
        if qx == px && qy == py
        then ink_byte ink k (shown g front px py k)
        else shown g front px py k)
unfolding ink_pixel
ink_pixel-shown g Ink.clear qx qy front px py k wide lt lt1 small = ground arith
ink_pixel-shown g Ink.dark qx qy front px py k wide lt lt1 small =
    front_pixel-shown g qx qy 0 front px py k wide lt lt1 small
ink_pixel-shown g Ink.light qx qy front px py k wide lt lt1 small =
    front_pixel-shown g qx qy 0xFFFFFF front px py k wide lt lt1 small

module _ (g : Gfx) (px py k : ℕ) (wide : IsWide g) (lt : px < g.width)
    (small : k < pixel_size g) where
  present_row-shown :
      (n row x : ℕ) (front : Bytes)
      → x + n ≤ g.width
      → shown g (present_row g n row x front) px py k ≡ (
          if row == py && within x n px
          then color_byte (pixel g px py) k
          else shown g front px py k)
  unfolding present_row
  present_row-shown zero row x front fits = ground arith
  present_row-shown (suc n) row x front fits =
      present_row-shown n row (x + 1) (front_pixel g x row (g.back (at_pixel g.width row x)) front)
        (omega arith)
      ∙ rw
          (front_pixel-shown g x row (g.back (at_pixel g.width row x)) front px py k wide
            (omega arith) lt small)
          (elim (Bool-cases (x == px && row == py)) [
            | inl here ↦
                let ex : x ≡ px = ground arith in
                let ey : row ≡ py = ground arith in rw (ex, ey) (ground arith)
            | inr there ↦ ground arith
          ])

  present_rows-shown :
      (n row x w : ℕ) (front : Bytes)
      → x + w ≤ g.width
      → shown g (present_rows g n row x w front) px py k ≡ (
          if within x w px && within row n py
          then color_byte (pixel g px py) k
          else shown g front px py k)
  unfolding present_rows
  present_rows-shown zero row x w front fits = ground arith
  present_rows-shown (suc n) row x w front fits =
      present_rows-shown n (row + 1) x w (present_row g w row x front) fits
      ∙ rw (present_row-shown w row x front fits) (ground arith)

  overlay_row-shown :
      (n row x : ℕ) (front : Bytes)
      → (x + n ≤ g.width) ⊎ (n ≡ 0)
      → shown g (overlay_row g n row x front) px py k ≡ (
          if row == py && within x n px
          then ink_byte (cursor_ink g px py) k (shown g front px py k)
          else shown g front px py k)
  unfolding overlay_row
  overlay_row-shown zero row x front fits = ground arith
  overlay_row-shown (suc n) row x front fits =
      overlay_row-shown n row (x + 1) (ink_pixel g (cursor_ink g x row) x row front)
        (inl (omega arith))
      ∙ rw (ink_pixel-shown g (cursor_ink g x row) x row front px py k wide (omega arith) lt small)
          (elim (Bool-cases (x == px && row == py)) [
            | inl here ↦
                let ex : x ≡ px = ground arith in
                let ey : row ≡ py = ground arith in rw (ex, ey) (ground arith)
            | inr there ↦ rw there (ground arith)
          ])

  overlay_rows-shown :
      (n row x w : ℕ) (front : Bytes)
      → (x + w ≤ g.width) ⊎ (w ≡ 0)
      → shown g (overlay_rows g n row x w front) px py k ≡ (
          if within x w px && within row n py
          then ink_byte (cursor_ink g px py) k (shown g front px py k)
          else shown g front px py k)
  unfolding overlay_rows
  overlay_rows-shown zero row x w front fits = ground arith
  overlay_rows-shown (suc n) row x w front fits =
      overlay_rows-shown n (row + 1) x w (overlay_row g w row x front) fits
      ∙ rw (overlay_row-shown w row x front fits) (ground arith)

overlap_axis-within :
    (start len : ℕ) (cur : ℤ) (size p : ℕ)
    → let (start1, len1) = overlap_axis start len cur size in
      within start1 len1 p ≡ (within start len p && covers cur (pos size) p)
unfolding overlap_axis covers ◌+ℤ◌ ◌-ℤ◌
overlap_axis-within start len cur size p = ground arith

overlap_axis_fits :
    (start len limit : ℕ) (cur : ℤ) (size : ℕ)
    → start + len ≤ limit
    → let (start1, len1) = overlap_axis start len cur size in (start1 + len1 ≤ limit) ⊎ (len1 ≡ 0)
unfolding overlap_axis ◌+ℤ◌ ◌-ℤ◌
overlap_axis_fits start len limit cur size fits = ground arith

-- the mouse cursor's box
abbrev under_cursor : Gfx → ℕ → ℕ → Bool
under_cursor g px py = g.cur_on && covers g.cur_x (pos cur_w) px && covers g.cur_y (pos cur_h) py

overlay_cursor-shown :
    (g : Gfx) (x y w h : ℕ) (front : Bytes) (px py k : ℕ)
    → IsWide g
    → x + w ≤ g.width
    → px < g.width
    → k < pixel_size g
    → shown g (overlay_cursor g x y w h front) px py k ≡ (
        if (within x w px && within y h py) && under_cursor g px py
        then ink_byte (cursor_ink g px py) k (shown g front px py k)
        else shown g front px py k)
unfolding overlay_cursor
overlay_cursor-shown g x y w h front px py k wide fits lt small =
    let (x0, columns) = overlap_axis x w g.cur_x cur_w in
    let (y0, rows) = overlap_axis y h g.cur_y cur_h in
    elim (Bool-cases g.cur_on) [
      | inr off ↦ simp (overlay_cursor, off) (ground arith)
      | inl on ↦
          simp (overlay_cursor, on)
            (overlay_rows-shown g px py k wide lt small rows y0 x0 columns front
                (overlap_axis_fits x w g.width g.cur_x cur_w fits)
              ∙ rw
                  (
                    overlap_axis-within x w g.cur_x cur_w px,
                    overlap_axis-within y h g.cur_y cur_h py,
                  )
                  (ground arith))
    ]

-- the byte of a pixel that is presented: the back buffer's colour under the mouse cursor
abbrev pub presented : Gfx → ℕ → ℕ → ℕ → ℕ
presented g px py k =
    if g.cur_on && covers g.cur_x (pos cur_w) px && covers g.cur_y (pos cur_h) py
    then ink_byte (cursor_ink g px py) k (color_byte (pixel g px py) k)
    else color_byte (pixel g px py) k

present_found :
    (g : Gfx) (x y w h : ℤ) (px py k : ℕ) (o : Option Rect)
    → IsWide g
    → g.ready ≡ true
    → clip g x y w h ≡ o
    → Clipped g x y w h o
    → px < g.width
    → k < pixel_size g
    → shown g (gfx_present g x y w h).front px py k
      ≡ (if covered g x y w h px py then presented g px py k else shown g g.front px py k)
unfolding gfx_present
present_found g x y w h px py k none wide on found (nothing empty) lt small =
    simp (gfx_present, on, found, empty px py)
present_found g x y w h px py k (some r) wide on found (left fits low all) lt small =
    let copied = present_rows g r.h r.y r.x r.w g.front in
    simp (gfx_present, on, found, all px py)
      (overlay_cursor-shown g r.x r.y r.w r.h copied px py k wide fits lt small
        ∙ rw (present_rows-shown g px py k wide lt small r.h r.y r.x r.w g.front fits)
            (elim (Bool-cases (within r.x r.w px && within r.y r.h py)) [
              | inl here ↦ rw here refl
              | inr there ↦ rw there refl
            ]))

-- With the screen ready and rows of the framebuffer that do not overlap, after `gfx_present` each byte of
-- each pixel of the rectangle on the screen is that of the back buffer's colour, or of the mouse
-- cursor's where it covers the pixel, at both pixel sizes; the other pixels show what they showed.
pub gfx_present-presented :
    (g : Gfx) (x y w h : ℤ) (px py k : ℕ)
    → IsWide g
    → g.ready ≡ true
    → px < g.width
    → k < pixel_size g
    → shown g (gfx_present g x y w h).front px py k
      ≡ (if covered g x y w h px py then presented g px py k else shown g g.front px py k)
gfx_present-presented g x y w h px py k wide on lt small =
    present_found g x y w h px py k (clip g x y w h) wide on refl (clip-Clipped g x y w h) lt small
