-- ===== src/Gfx/Redraw.antt =====
-- kernel/gfx/gfx.c: a drawing operation keeps the statics, and the pixels outside what it draws.
use revinix_os.Base.{
  ℕ, ◌+◌, ◌-◌, ◌<◌, ◌≡◌, refl, ap, ◌∙◌, inl, inr, Bool, true, false, ◌&&◌, Option, none, some, leb,
  Bool-cases,
}
use revinix_os.Base.{ℤ, pos}
use revinix_os.Fs.Block.{Bytes}
use revinix_os.Gfx.{
  Gfx, Rect, clip, at_pixel, font_w, font_h, gfx_fill_rect, gfx_draw_char, gfx_scroll_up,
  gfx_present, fill_rows, present_rows, overlay_cursor, move_rows, draw_rows, glyph_of,
}
use revinix_os.Gfx.Clip.{covers, covered}
use revinix_os.Gfx.Draw.{pixel, gfx_fill_rect-covered, gfx_draw_char-covered}
use revinix_os.Gfx.Scroll.{gfx_scroll_up-covered}

-- `after` differs from `g` in the two buffers, and in the back buffer only where `drawn` says so.
pub record Redrawn (g : Gfx) (drawn : ℕ → ℕ → Bool) (after : Gfx) : Type 0 where
  pub back : ℕ → ℕ
  pub front : Bytes
  pub same : after ≡ record g { back = back; front = front }
  pub outside :
      (px py : ℕ)
      → px < g.width
      → py < g.height
      → drawn px py ≡ false
      → back (at_pixel g.width py px) ≡ pixel g px py

fill_step :
    (g : Gfx) (x y w h : ℤ) (color : ℕ) (o : Option Rect)
    → g.ready ≡ true
    → clip g x y w h ≡ o
    → (back : ℕ → ℕ) × (gfx_fill_rect g x y w h color ≡ record g { back = back })
unfolding gfx_fill_rect
fill_step g x y w h color none on found =
    let e : gfx_fill_rect g x y w h color ≡ g = simp (gfx_fill_rect, on, found) in (g.back, e)
fill_step g x y w h color (some r) on found =
    (fill_rows r.h g.width r.y r.x r.w color g.back, simp (gfx_fill_rect, on, found))

present_step :
    (g : Gfx) (x y w h : ℤ) (o : Option Rect)
    → g.ready ≡ true
    → clip g x y w h ≡ o
    → (front : Bytes) × (gfx_present g x y w h ≡ record g { front = front })
unfolding gfx_present
present_step g x y w h none on found =
    let e : gfx_present g x y w h ≡ g = simp (gfx_present, on, found) in (g.front, e)
present_step g x y w h (some r) on found = (
  overlay_cursor g r.x r.y r.w r.h (present_rows g r.h r.y r.x r.w g.front),
  simp (gfx_present, on, found),
)

scroll_far :
    (g : Gfx) (x y w h : ℤ) (dy bg : ℕ) (r : Rect)
    → g.ready ≡ true
    → clip g x y w h ≡ some r
    → leb r.h dy ≡ true
    → gfx_scroll_up g x y w h dy bg ≡ gfx_fill_rect g (pos r.x) (pos r.y) (pos r.w) (pos r.h) bg
unfolding gfx_scroll_up
scroll_far g x y w h dy bg r on found far = simp (gfx_scroll_up, on, found, far)

scroll_near :
    (g : Gfx) (x y w h : ℤ) (dy bg : ℕ) (r : Rect)
    → g.ready ≡ true
    → clip g x y w h ≡ some r
    → leb r.h dy ≡ false
    → gfx_scroll_up g x y w h dy bg
      ≡ gfx_fill_rect
          (record g { back = move_rows (r.h - dy) g.width r.y dy r.x r.w g.back })
          (pos r.x)
          (pos (r.y + r.h - dy))
          (pos r.w)
          (pos dy)
          bg
unfolding gfx_scroll_up
scroll_near g x y w h dy bg r on found near = simp (gfx_scroll_up, on, found, near)

scroll_step :
    (g : Gfx) (x y w h : ℤ) (dy bg : ℕ) (o : Option Rect)
    → g.ready ≡ true
    → clip g x y w h ≡ o
    → (back : ℕ → ℕ) × (gfx_scroll_up g x y w h dy bg ≡ record g { back = back })
unfolding gfx_scroll_up
scroll_step g x y w h dy bg none on found =
    let e : gfx_scroll_up g x y w h dy bg ≡ g = simp (gfx_scroll_up, on, found) in (g.back, e)
scroll_step g x y w h dy bg (some r) on found = elim (Bool-cases (leb r.h dy)) [
  | inl far ↦
      let (b, e) =
        fill_step g (pos r.x) (pos r.y) (pos r.w) (pos r.h) bg
          (clip g (pos r.x) (pos r.y) (pos r.w) (pos r.h)) on refl in
      (b, scroll_far g x y w h dy bg r on found far ∙ e)
  | inr near ↦
      let moved = record g { back = move_rows (r.h - dy) g.width r.y dy r.x r.w g.back } in
      let (b, e) =
        fill_step moved (pos r.x) (pos (r.y + r.h - dy)) (pos r.w) (pos dy) bg
          (clip moved (pos r.x) (pos (r.y + r.h - dy)) (pos r.w) (pos dy)) on refl in
      (b, scroll_near g x y w h dy bg r on found near ∙ e)
]

redraw :
    (g after : Gfx) (drawn : ℕ → ℕ → Bool) (back : ℕ → ℕ) (front : Bytes)
    → after ≡ record g { back = back; front = front }
    → ((px py : ℕ)
        → px < g.width
        → py < g.height
        → drawn px py ≡ false
        → pixel after px py ≡ pixel g px py)
    → Redrawn g drawn after
redraw g after drawn back front e kept = record {
  back = back;
  front = front;
  same = e;
  outside = λ px py lt lt1 far. rw e at (kept px py lt lt1 far);
}

module _ (g : Gfx) (drawn : ℕ → ℕ → Bool) (on : g.ready ≡ true) where
  pub gfx_fill_rect-Redrawn :
      (x y w h : ℤ) (color : ℕ)
      → ((px py : ℕ) → drawn px py ≡ false → covered g x y w h px py ≡ false)
      → Redrawn g drawn (gfx_fill_rect g x y w h color)
  gfx_fill_rect-Redrawn x y w h color apart =
      let (b, e) = fill_step g x y w h color (clip g x y w h) on refl in
      redraw g (gfx_fill_rect g x y w h color) drawn b g.front e (λ px py lt lt1 far.
        gfx_fill_rect-covered g x y w h color px py on lt ∙ rw (apart px py far) refl)

  pub gfx_scroll_up-Redrawn :
      (x y w h : ℤ) (dy bg : ℕ)
      → ((px py : ℕ) → drawn px py ≡ false → covered g x y w h px py ≡ false)
      → Redrawn g drawn (gfx_scroll_up g x y w h dy bg)
  gfx_scroll_up-Redrawn x y w h dy bg apart =
      let (b, e) = scroll_step g x y w h dy bg (clip g x y w h) on refl in
      redraw g (gfx_scroll_up g x y w h dy bg) drawn b g.front e (λ px py lt lt1 far.
        gfx_scroll_up-covered g x y w h dy bg px py on lt ∙ rw (apart px py far) refl)

  pub gfx_present-Redrawn : (x y w h : ℤ) → Redrawn g drawn (gfx_present g x y w h)
  gfx_present-Redrawn x y w h =
      let (f, e) = present_step g x y w h (clip g x y w h) on refl in
      redraw g (gfx_present g x y w h) drawn g.back f e (λ px py lt lt1 far. rw e refl)

  pub gfx_draw_char-Redrawn :
      (font : ℕ → ℕ → ℕ) (x y : ℤ) (c fg bg : ℕ)
      → ((px py : ℕ)
          → drawn px py ≡ false
          → (covers y (pos font_h) py && covers x (pos font_w) px) ≡ false)
      → Redrawn g drawn (gfx_draw_char font g x y c fg bg)
  unfolding gfx_draw_char
  gfx_draw_char-Redrawn font x y c fg bg apart =
      redraw g (gfx_draw_char font g x y c fg bg) drawn
        (draw_rows font_h g.width g.height x y 0 (font (glyph_of c)) fg bg g.back) g.front
        (simp (gfx_draw_char, on))
        (λ px py lt lt1 far.
          gfx_draw_char-covered font g x y c fg bg px py on lt lt1 ∙ rw (apart px py far) refl)

-- One drawing after another.
pub drawing_again :
    {g mid after : Gfx} {drawn : ℕ → ℕ → Bool}
    → Redrawn g drawn mid
    → Redrawn mid drawn after
    → Redrawn g drawn after
drawing_again {g} {mid} {after} {drawn} first second =
    let e = first.same in
    let e1 : after ≡ record g { back = second.back; front = second.front } =
      second.same ∙ ap (λ (s : Gfx). record s { back = second.back; front = second.front }) e in
    record {
      back = second.back;
      front = second.front;
      same = e1;
      outside = λ px py lt lt1 far.
          let inner = second.outside px py (rw e lt) (rw e lt1) far in
          (rw e at inner) ∙ first.outside px py lt lt1 far;
    }

pub undrawn : (g : Gfx) (drawn : ℕ → ℕ → Bool) → Redrawn g drawn g
undrawn g drawn = record {
  back = g.back;
  front = g.front;
  same = refl;
  outside = λ px py lt lt1 far. refl;
}
