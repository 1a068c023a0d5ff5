-- ===== src/Gfx/Scroll.antt =====
-- kernel/gfx/gfx.c: gfx_scroll_up moves the pixels of a rectangle up.
use revinix_os.Base.{
  ℕ, zero, suc, ◌+◌, ◌-◌, ◌*◌, ◌<◌, ◌≤◌, ◌≡◌, refl, ap, ◌∙◌, inl, inr, Bool, true, false, ◌&&◌,
  Option, none, some, leb, ◌==◌, if◌then◌else◌, Bool-cases, ==_ne, update, arith,
}
use revinix_os.Base.{ℤ, pos, ◌+ℤ◌}
use revinix_os.Gfx.{Gfx, Rect, clip, at_pixel, copy_pixels, move_rows, gfx_scroll_up}
use revinix_os.Gfx.Clip.{covers, within, covered, Clipped, nothing, left, clip-Clipped}
use revinix_os.Gfx.Draw.{pixel, row_hit, gfx_fill_rect-covered}
use native.Mathlib.Nat.{mul-le-mul_right}

-- A copy towards lower indices reads each pixel before it is overwritten.
copy_pixels-at :
    (n dst src : ℕ) (back : ℕ → ℕ) (a : ℕ)
    → dst ≤ src
    → copy_pixels n dst src back a ≡ (if within dst n a then back (src + (a - dst)) else back a)
unfolding copy_pixels update
copy_pixels-at zero dst src back a down = ground arith
copy_pixels-at (suc n) dst src back a down =
    copy_pixels-at n (dst + 1) (src + 1) (update back dst (back src)) a (omega arith)
    ∙ elim (Bool-cases (within (dst + 1) n a)) [
      | inl later ↦
          let e : src + 1 + (a - (dst + 1)) ≡ src + (a - dst) = ground arith in
          let all : within dst (suc n) a ≡ true = ground arith in
          rw (later, all, e, ==_ne (src + (a - dst)) dst (ground arith)) refl
      | inr now ↦ rw now (elim (Bool-cases (a == dst)) [
        | inl here ↦
            let all : within dst (suc n) a ≡ true = ground arith in
            let e : src ≡ src + (a - dst) = ground arith in rw (here, all) (ap back e)
        | inr there ↦ let all : within dst (suc n) a ≡ false = ground arith in rw (there, all) refl
      ])
    ]

copy_row-at :
    (width row dy x w : ℕ) (back : ℕ → ℕ) (px py : ℕ)
    → x + w ≤ width
    → px < width
    → copy_pixels w (at_pixel width row x) (at_pixel width (row + dy) x) back (at_pixel width py px)
      ≡ (if row == py && within x w px
          then back (at_pixel width (row + dy) px)
          else back (at_pixel width py px))
copy_row-at width row dy x w back px py fits lt =
    let down : row * width ≤ (row + dy) * width = mul-le-mul_right width (omega arith) in
    copy_pixels-at w (at_pixel width row x) (at_pixel width (row + dy) x) back
      (at_pixel width py px) (omega (arith, down))
    ∙ rw (row_hit width row x w py px fits lt) (elim (Bool-cases (row == py && within x w px)) [
      | inl here ↦
          let e : py ≡ row = ground arith in
          let at : at_pixel width (row + dy) x + (at_pixel width row px - at_pixel width row x)
              ≡ at_pixel width (row + dy) px =
            ground arith in
          rw (here, e) (ap back at)
      | inr there ↦ rw there refl
    ])

move_rows-at :
    (n width row dy x w : ℕ) (back : ℕ → ℕ) (px py : ℕ)
    → x + w ≤ width
    → px < width
    → move_rows n width row dy x w back (at_pixel width py px) ≡ (
        if within x w px && within row n py
        then back (at_pixel width (py + dy) px)
        else back (at_pixel width py px))
unfolding move_rows
move_rows-at zero width row dy x w back px py fits lt = ground arith
move_rows-at (suc n) width row dy x w back px py fits lt =
    move_rows-at n width (row + 1) dy x w
      (copy_pixels w (at_pixel width row x) (at_pixel width (row + dy) x) back) px py fits lt
    ∙ rw
        (
          copy_row-at width row dy x w back px py fits lt,
          copy_row-at width row dy x w back px (py + dy) fits lt,
        )
        (elim (Bool-cases (row == py)) [
          | inl here ↦ let e : row ≡ py = ground arith in rw e (ground arith)
          | inr there ↦ ground arith
        ])

covered_numbers :
    (g : Gfx) (x y w h px py : ℕ)
    → x + w ≤ g.width
    → y + h ≤ g.height
    → covered g (pos x) (pos y) (pos w) (pos h) px py ≡ (within x w px && within y h py)
unfolding covers ◌+ℤ◌
covered_numbers g x y w h px py fits low = ground arith

abbrev scrolled : Gfx → ℤ → ℤ → ℤ → ℤ → ℕ → ℕ → ℕ → ℕ → ℕ
scrolled g x y w h dy bg px py =
    if covered g x y w h px py
    then (if covered g x y w h px (py + dy) then pixel g px (py + dy) else bg)
    else pixel g px py

pick_far :
    (y h dy py : ℕ) (across : Bool) (old above bg : ℕ)
    → leb h dy ≡ true
    → (if across && within y h py then bg else old) ≡ (
        if across && within y h py
        then (if across && within y h (py + dy) then above else bg)
        else old)
pick_far y h dy py across old above bg far = ground arith

pick_near :
    (y h dy py : ℕ) (across : Bool) (old above bg : ℕ)
    → leb h dy ≡ false
    → (if across && within (y + h - dy) dy py
        then bg
        else if across && within y (h - dy) py
        then above
        else old)
      ≡ (if across && within y h py
          then (if across && within y h (py + dy) then above else bg)
          else old)
pick_near y h dy py true old above bg near = ground arith
pick_near y h dy py false old above bg near = refl

scroll_found :
    (g : Gfx) (x y w h : ℤ) (dy bg px py : ℕ) (o : Option Rect)
    → g.ready ≡ true
    → clip g x y w h ≡ o
    → Clipped g x y w h o
    → px < g.width
    → pixel (gfx_scroll_up g x y w h dy bg) px py ≡ scrolled g x y w h dy bg px py
unfolding gfx_scroll_up
scroll_found g x y w h dy bg px py none on found (nothing empty) lt =
    simp (gfx_scroll_up, on, found, empty px py)
scroll_found g x y w h dy bg px py (some r) on found (left fits low all) lt =
    elim (Bool-cases (leb r.h dy)) [
      | inl far ↦
          simp (gfx_scroll_up, on, found, far, all px py, all px (py + dy))
            (gfx_fill_rect-covered g (pos r.x) (pos r.y) (pos r.w) (pos r.h) bg px py on lt
              ∙ rw (covered_numbers g r.x r.y r.w r.h px py fits low)
                  (pick_far r.y r.h dy py (within r.x r.w px) _ _ bg far))
      | inr near ↦
          let moved = move_rows (r.h - dy) g.width r.y dy r.x r.w g.back in
          simp (gfx_scroll_up, on, found, near, all px py, all px (py + dy))
            (gfx_fill_rect-covered (record g { ready = true; back = moved }) (pos r.x)
                (pos (r.y + r.h - dy)) (pos r.w) (pos dy) bg px py refl lt
              ∙ rw
                  (
                    covered_numbers g r.x (r.y + r.h - dy) r.w dy px py fits (ground arith),
                    move_rows-at (r.h - dy) g.width r.y dy r.x r.w g.back px py fits lt,
                  )
                  (pick_near r.y r.h dy py (within r.x r.w px) _ _ bg near))
    ]

-- With the screen ready, `gfx_scroll_up` gives each pixel of the rectangle on the screen the old colour
-- of the pixel `dy` rows below it, or the background when that one is not in the rectangle on the
-- screen; the other pixels keep their colours.
pub gfx_scroll_up-covered :
    (g : Gfx) (x y w h : ℤ) (dy bg px py : ℕ)
    → g.ready ≡ true
    → px < g.width
    → pixel (gfx_scroll_up g x y w h dy bg) px py ≡ (
        if covered g x y w h px py
        then (if covered g x y w h px (py + dy) then pixel g px (py + dy) else bg)
        else pixel g px py)
gfx_scroll_up-covered g x y w h dy bg px py on lt =
    scroll_found g x y w h dy bg px py (clip g x y w h) on refl (clip-Clipped g x y w h) lt
