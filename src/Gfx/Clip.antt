-- ===== src/Gfx/Clip.antt =====
-- kernel/gfx/gfx.c: clipping against the screen, pixel by pixel.
use revinix_os.Base.{
  ℕ, ◌+◌, ◌≤◌, ◌≡◌, refl, inl, inr, Bool, true, false, ◌&&◌, Option, none, some, ltb, leb,
  Bool-cases, arith,
}
use revinix_os.Base.{ℤ, pos, pos_part, ◌+ℤ◌, ◌-ℤ◌, ltb_ℤ, leb_ℤ}
use revinix_os.Gfx.{Gfx, Rect, clip_axis, clip}

-- the integers from `start` on, `len` of them
unfoldable pub covers : ℤ → ℤ → ℕ → Bool
covers start len p = leb_ℤ start (pos p) && ltb_ℤ (pos p) (start +ℤ len)

-- the numbers from `start` on
abbrev pub within : ℕ → ℕ → ℕ → Bool
within start len p = leb start p && ltb p (start + len)

clip_axis-covers :
    (start len : ℤ) (limit p : ℕ)
    → let (start1, len1) = clip_axis start len limit in
      within start1 (pos_part len1) p ≡ (ltb p limit && covers start len p)
unfolding clip_axis covers ◌+ℤ◌ ◌-ℤ◌
clip_axis-covers start len limit p = ground arith

-- the pixel is on the screen and in the rectangle
abbrev pub covered : Gfx → ℤ → ℤ → ℤ → ℤ → ℕ → ℕ → Bool
covered g x y w h px py = ltb px g.width && covers x w px && (ltb py g.height && covers y h py)

-- What `clip` leaves of a rectangle: one on the screen with the same pixels there, or nothing when
-- it has none.
pub data Clipped (g : Gfx) (x y w h : ℤ) : Option Rect → Type 0 where
  nothing : ((px py : ℕ) → covered g x y w h px py ≡ false) → Clipped g x y w h none
  left :
      {r : Rect}
      → r.x + r.w ≤ g.width
      → r.y + r.h ≤ g.height
      → ((px py : ℕ) → covered g x y w h px py ≡ (within r.x r.w px && within r.y r.h py))
      → Clipped g x y w h (some r)

-- an empty axis covers nothing
within_nothing :
    (start : ℕ) (len : ℤ) (p : ℕ)
    → ltb_ℤ (pos 0) len ≡ false
    → within start (pos_part len) p ≡ false
within_nothing start len p none_ = ground arith

clip_axis_fits :
    (start len : ℤ) (limit : ℕ)
    → let (start1, len1) = clip_axis start len limit in
      ltb_ℤ (pos 0) len1 ≡ true → start1 + pos_part len1 ≤ limit
unfolding clip_axis ◌+ℤ◌ ◌-ℤ◌
clip_axis_fits start len limit some_ = ground arith

-- Of a rectangle with coordinates and lengths of any sign, `clip` leaves a rectangle on the screen that
-- has exactly the pixels of both, and nothing when there are none.
pub clip-Clipped : (g : Gfx) (x y w h : ℤ) → Clipped g x y w h (clip g x y w h)
unfolding clip
clip-Clipped g x y w h =
    let (x1, w1) = clip_axis x w g.width in
    let (y1, h1) = clip_axis y h g.height in
    let across = clip_axis-covers x w g.width in
    let down = clip_axis-covers y h g.height in
    elim (Bool-cases (ltb_ℤ (pos 0) w1)) [
      | inr narrow ↦
          rw (clip, narrow)
            (nothing (λ px py. rw (← across px, within_nothing x1 w1 px narrow) refl))
      | inl wide ↦ elim (Bool-cases (ltb_ℤ (pos 0) h1)) [
        | inr flat ↦
            rw (clip, wide, flat)
              (nothing (λ px py. rw (← down py, within_nothing y1 h1 py flat) (ground arith)))
        | inl tall ↦
            rw (clip, wide, tall)
              (left (clip_axis_fits x w g.width wide) (clip_axis_fits y h g.height tall)
                (λ px py. rw (across px, down py) refl))
      ]
    ]
