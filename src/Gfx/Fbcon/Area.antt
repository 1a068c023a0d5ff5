-- ===== src/Gfx/Fbcon/Area.antt =====
-- kernel/gfx/fbcon.c: the cursor stays in the console's area, and so does what is drawn.
use revinix_os.Base.{
  ℕ, ◌+◌, ◌-◌, ◌*◌, ◌/◌, ◌<◌, ◌≤◌, ◌≡◌, refl, ap, ◌∙◌, inl, inr, Bool, true, false, ◌&&◌, leb, ◌==◌,
  if◌then◌else◌, Bool-cases, arith,
}
use revinix_os.Base.{ℤ, pos, ◌+ℤ◌}
use revinix_os.Gfx.{Gfx, font_w, font_h, gfx_fill_rect, gfx_scroll_up, gfx_draw_char, gfx_present}
use revinix_os.Gfx.Clip.{covers, covered}
use revinix_os.Gfx.Redraw.{
  Redrawn, gfx_fill_rect-Redrawn, gfx_scroll_up-Redrawn, gfx_present-Redrawn, gfx_draw_char-Redrawn,
  drawing_again, undrawn,
}
use revinix_os.Gfx.Fbcon.{
  Fbcon, cell_x, cell_y, present_cell, draw_cursor, present_area, newline, put_glyph, wrap_cell,
  put_char, fbcon_putc,
}

-- the pixels of the console's area
abbrev pub in_area : Fbcon → ℕ → ℕ → Bool
in_area f px py = covers f.ox (pos (f.cols * font_w)) px && covers f.oy (pos (f.rows * font_h)) py

-- the cursor is in a cell of the area
pub record IsInside (f : Fbcon) : Type 0 where
  pub col : f.cx < f.cols
  pub row : f.cy < f.rows

-- The cursor and the screen are all that changes, and the back buffer only in the area.
pub record Moves (f after : Fbcon) : Type 0 where
  pub kept : after ≡ record f { gfx = after.gfx; cx = after.cx; cy = after.cy }
  pub drawn : Redrawn f.gfx (in_area f) after.gfx

moved_again : {f mid after : Fbcon} → Moves f mid → Moves mid after → Moves f after
moved_again {f} {mid} {after} first second =
    let area : in_area mid ≡ in_area f = ap in_area first.kept in
    record {
      kept =
          second.kept
          ∙ ap (λ (s : Fbcon). record s { gfx = after.gfx; cx = after.cx; cy = after.cy })
              first.kept;
      drawn = drawing_again first.drawn (rw area at second.drawn);
    }

still_ready : {f after : Fbcon} → Moves f after → f.gfx.ready ≡ true → after.gfx.ready ≡ true
still_ready moves on = let e = moves.drawn.same in ap (λ (g : Gfx). g.ready) e ∙ on

-- A part of an interval covers nothing outside of it.
part_outside :
    (start : ℤ) (total off len p : ℕ)
    → off + len ≤ total
    → covers start (pos total) p ≡ false
    → covers (start +ℤ pos off) (pos len) p ≡ false
unfolding covers ◌+ℤ◌
part_outside start total off len p fits far = ground arith

-- A box in the area has none of the pixels outside of it.
box_outside :
    (f : Fbcon) (across down w h px py : ℕ)
    → across + w ≤ f.cols * font_w
    → down + h ≤ f.rows * font_h
    → in_area f px py ≡ false
    → (covers (f.oy +ℤ pos down) (pos h) py && covers (f.ox +ℤ pos across) (pos w) px) ≡ false
box_outside f across down w h px py fits low far =
    elim (Bool-cases (covers f.ox (pos (f.cols * font_w)) px)) [
      | inr off ↦ rw (part_outside f.ox (f.cols * font_w) across w px fits off) (ground arith)
      | inl on ↦
          let below : covers f.oy (pos (f.rows * font_h)) py ≡ false = ground arith in
          rw (part_outside f.oy (f.rows * font_h) down h py low below) refl
    ]

covered_outside :
    (f : Fbcon) (across down w h px py : ℕ)
    → across + w ≤ f.cols * font_w
    → down + h ≤ f.rows * font_h
    → in_area f px py ≡ false
    → covered f.gfx (f.ox +ℤ pos across) (f.oy +ℤ pos down) (pos w) (pos h) px py ≡ false
covered_outside f across down w h px py fits low far =
    let apart = box_outside f across down w h px py fits low far in ground (arith, apart)

draw_cursor-Moves :
    (f : Fbcon) (on : Bool) → f.gfx.ready ≡ true → IsInside f → Moves f (draw_cursor f on)
unfolding draw_cursor present_cell
draw_cursor-Moves f on ready inside =
    let color = (if on then f.fg else f.bg) in
    let x = f.cx * font_w in
    let y = f.cy * font_h + font_h - 2 in
    let fill =
      gfx_fill_rect-Redrawn f.gfx (in_area f) ready (cell_x f f.cx) (f.oy +ℤ pos y) (pos font_w)
        (pos 2) color
        (λ px py far.
          covered_outside f x y font_w 2 px py (omega (arith, inside.col))
            (omega (arith, inside.row)) far) in
    let filled = record f {
      gfx = gfx_fill_rect f.gfx (cell_x f f.cx) (f.oy +ℤ pos y) (pos font_w) (pos 2) color;
    } in
    let first : Moves f filled = record { kept = refl; drawn = fill } in
    record {
      kept = refl;
      drawn = drawing_again fill (
          gfx_present-Redrawn filled.gfx (in_area f) (still_ready first ready) (cell_x f f.cx)
            (cell_y f f.cy) (pos font_w) (pos font_h));
    }

newline_next :
    (f : Fbcon) → leb f.rows (f.cy + 1) ≡ false → newline f ≡ record f { cx = 0; cy = f.cy + 1 }
unfolding newline
newline_next f room = rw (newline, room) refl

-- the area scrolled and presented
abbrev scrolled_gfx : Fbcon → Gfx
scrolled_gfx f =
    gfx_scroll_up f.gfx f.ox f.oy (pos (f.cols * font_w)) (pos (f.rows * font_h)) font_h f.bg

newline_scrolls :
    (f : Fbcon)
    → leb f.rows (f.cy + 1) ≡ true
    → newline f ≡ record f {
      cx = 0;
      cy = f.rows - 1;
      gfx = gfx_present (scrolled_gfx f) f.ox f.oy (pos (f.cols * font_w)) (pos (f.rows * font_h));
    }
unfolding newline present_area
newline_scrolls f full = rw (newline, full) refl

newline-Moves :
    (f : Fbcon)
    → f.gfx.ready ≡ true
    → 0 < f.cols
    → f.cy < f.rows
    → Moves f (newline f) × IsInside (newline f)
newline-Moves f ready some_ low = elim (Bool-cases (leb f.rows (f.cy + 1))) [
  | inr room ↦ rw (newline_next f room) (
    record { kept = refl; drawn = undrawn f.gfx (in_area f) },
    record { col = some_; row = ground arith },
  )
  | inl full ↦
      let scroll =
        gfx_scroll_up-Redrawn f.gfx (in_area f) ready f.ox f.oy (pos (f.cols * font_w))
          (pos (f.rows * font_h)) font_h f.bg (λ px py far. ground (arith, far)) in
      let first : Moves f (record f { gfx = scrolled_gfx f }) = record {
        kept = refl;
        drawn = scroll;
      } in
      rw (newline_scrolls f full) (
        record {
          kept = refl;
          drawn = drawing_again scroll (
              gfx_present-Redrawn (scrolled_gfx f) (in_area f) (still_ready first ready) f.ox f.oy
                (pos (f.cols * font_w)) (pos (f.rows * font_h)));
        },
        record { col = some_; row = omega arith },
      )
]

wrap_cell-Moves :
    (f : Fbcon)
    → f.gfx.ready ≡ true
    → 0 < f.cols
    → f.cy < f.rows
    → Moves f (wrap_cell f) × IsInside (wrap_cell f)
unfolding wrap_cell
wrap_cell-Moves f ready some_ low = elim (Bool-cases (leb f.cols f.cx)) [
  | inl full ↦ rw (wrap_cell, full) (newline-Moves f ready some_ low)
  | inr room ↦
      rw (wrap_cell, room)
        (
          record { kept = refl; drawn = undrawn f.gfx (in_area f) },
          record { col = ground arith; row = low },
        )
]

put_glyph-Moves :
    (font : ℕ → ℕ → ℕ) (f : Fbcon) (c cx : ℕ)
    → f.gfx.ready ≡ true
    → IsInside f
    → Moves f (record (put_glyph font f c) { cx = cx })
unfolding put_glyph present_cell
put_glyph-Moves font f c cx ready inside =
    let drawn =
      gfx_draw_char-Redrawn f.gfx (in_area f) ready font (cell_x f f.cx) (cell_y f f.cy) c f.fg f.bg
        (λ px py far.
          box_outside f (f.cx * font_w) (f.cy * font_h) font_w font_h px py
            (omega (arith, inside.col)) (omega (arith, inside.row)) far) in
    let after = gfx_draw_char font f.gfx (cell_x f f.cx) (cell_y f f.cy) c f.fg f.bg in
    let first : Moves f (record f { gfx = after }) = record { kept = refl; drawn = drawn } in
    record {
      kept = refl;
      drawn = drawing_again drawn (
          gfx_present-Redrawn after (in_area f) (still_ready first ready) (cell_x f f.cx)
            (cell_y f f.cy) (pos font_w) (pos font_h));
    }

wrap_glyph :
    (font : ℕ → ℕ → ℕ) (f : Fbcon) (c : ℕ)
    → f.gfx.ready ≡ true
    → IsInside f
    → let put = record (put_glyph font f c) { cx = f.cx + 1 } in
      Moves put (wrap_cell put) × IsInside (wrap_cell put)
unfolding put_glyph present_cell
wrap_glyph font f c ready inside =
    let put = record (put_glyph font f c) { cx = f.cx + 1 } in
    wrap_cell-Moves put (still_ready (put_glyph-Moves font f c (f.cx + 1) ready inside) ready)
      (omega (arith, inside.col)) inside.row

put_char-Moves :
    (font : ℕ → ℕ → ℕ) (f : Fbcon) (c : ℕ)
    → f.gfx.ready ≡ true
    → IsInside f
    → Moves f (put_char font f c) × IsInside (put_char font f c)
unfolding put_char
put_char-Moves font f c ready inside =
    let some_ : 0 < f.cols = omega (arith, inside.col) in
    let still = undrawn f.gfx (in_area f) in
    elim (Bool-cases (c == 10)) [
      | inl line ↦ rw (put_char, line) (newline-Moves f ready some_ inside.row)
      | inr c1 ↦ elim (Bool-cases (c == 13)) [
        | inl start ↦
            rw (put_char, c1, start)
              (record { kept = refl; drawn = still }, record { col = some_; row = inside.row })
        | inr c2 ↦ elim (Bool-cases (c == 8)) [
          | inl back ↦
              rw (put_char, c1, c2, back)
                (
                  record { kept = refl; drawn = still },
                  record { col = omega (arith, inside.col); row = inside.row },
                )
          | inr c3 ↦ elim (Bool-cases (c == 9)) [
            | inl tab ↦
                let moved : Fbcon = record f { cx = (f.cx + 4) / 4 * 4 } in
                let (moves, ends) = wrap_cell-Moves moved ready some_ inside.row in
                let first : Moves f moved = record { kept = refl; drawn = still } in
                rw (put_char, c1, c2, c3, tab) (moved_again first moves, ends)
            | inr c4 ↦
                let first = put_glyph-Moves font f c (f.cx + 1) ready inside in
                let (moves, ends) = wrap_glyph font f c ready inside in
                rw (put_char, c1, c2, c3, c4) (moved_again first moves, ends)
          ]
        ]
      ]
    ]

draw_cursor-IsInside : (f : Fbcon) (on : Bool) → IsInside f → IsInside (draw_cursor f on)
unfolding draw_cursor present_cell
draw_cursor-IsInside f on inside = record { col = inside.col; row = inside.row }

-- While the console is active and the screen ready, `fbcon_putc` of any character keeps the cursor in a
-- cell of the area and draws in the area only: every other pixel of the screen keeps its colour in
-- the back buffer, and the geometry of the console stays.
pub fbcon_putc-Moves :
    (font : ℕ → ℕ → ℕ) (f : Fbcon) (c : ℕ)
    → f.active ≡ true
    → f.gfx.ready ≡ true
    → IsInside f
    → Moves f (fbcon_putc font f c) × IsInside (fbcon_putc font f c)
unfolding fbcon_putc
fbcon_putc-Moves font f c active ready inside =
    let f0 = draw_cursor f false in
    let first = draw_cursor-Moves f false ready inside in
    let ready0 = still_ready first ready in
    let (second, inside1) = put_char-Moves font f0 c ready0 (draw_cursor-IsInside f false inside) in
    let f1 = put_char font f0 c in
    let third = draw_cursor-Moves f1 true (still_ready second ready0) inside1 in
    simp (fbcon_putc, active)
      (moved_again (moved_again first second) third, draw_cursor-IsInside f1 true inside1)
