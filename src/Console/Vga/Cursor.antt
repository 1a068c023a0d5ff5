-- ===== src/Console/Vga/Cursor.antt =====
-- The cursor stays on the screen, and no cell behind the screen is written.
use revinix_os.Base.{
  ℕ, zero, suc, ◌+◌, ◌-◌, ◌*◌, ◌/◌, ◌≤◌, ◌<◌, ◌≡◌, refl, ◌∙◌, inl, inr, List, [], ◌∷◌, arith, ltb,
  leb, ◌==◌, Bool-cases, ==_ne, update,
}
use revinix_os.Console.Vga.{
  Vga, vga_width, vga_height, entry, blank_from, copy_row, copy_rows, scroll, wrap_line, place_char,
  putc, print,
}

pub record IsValid (v : Vga) : Type 0 where
  pub row : v.cursor_row < vga_height
  pub col : v.cursor_col < vga_width

blank_from-past : (n i a : ℕ) (m : ℕ → ℕ) → i + n ≤ a → blank_from n i m a ≡ m a
unfolding blank_from update
blank_from-past zero i a m hi = refl
blank_from-past (suc n) i a m hi =
    blank_from-past n (i + 1) a (update m i (entry 32)) (omega arith)
    ∙ rw (==_ne a i (omega arith)) refl

copy_row-past :
    (n c r a : ℕ) (m : ℕ → ℕ) → (r - 1) * vga_width + c + n ≤ a → copy_row n c r m a ≡ m a
unfolding copy_row update
copy_row-past zero c r a m hi = refl
copy_row-past (suc n) c r a m hi =
    copy_row-past n (c + 1) r a (update m ((r - 1) * vga_width + c) (m (r * vga_width + c)))
      (omega arith)
    ∙ rw (==_ne a ((r - 1) * vga_width + c) (omega arith)) refl

copy_rows-past : (n r a : ℕ) (m : ℕ → ℕ) → (r + n) * vga_width ≤ a → copy_rows n r m a ≡ m a
unfolding copy_rows
copy_rows-past zero r a m hi = refl
copy_rows-past (suc n) r a m hi =
    copy_rows-past n (r + 1) a (copy_row vga_width 0 r m) (omega arith)
    ∙ copy_row-past vga_width 0 r a m (omega arith)

-- What a step may do: the cursor stays on the screen or goes to the row below it, and only cells of
-- the screen are written.
record Stepped (v w : Vga) : Type 0 where
  row : w.cursor_row ≤ vga_height
  col : w.cursor_col < vga_width
  past : (a : ℕ) → 2000 ≤ a → w.cells a ≡ v.cells a

wrap_line-Stepped :
    (v u : Vga)
    → u.cursor_row < vga_height
    → u.cursor_col ≤ vga_width
    → ((a : ℕ) → 2000 ≤ a → u.cells a ≡ v.cells a)
    → Stepped v (wrap_line u)
unfolding wrap_line
wrap_line-Stepped v u row col past = elim (Bool-cases (leb vga_width u.cursor_col)) [
  | inl on ↦ rw on (record { row = omega arith; col = omega arith; past = past })
  | inr off ↦ rw off (record { row = omega arith; col = ground arith; past = past })
]

place_char-Stepped : (v : Vga) (ch : ℕ) → IsValid v → Stepped v (place_char v ch)
unfolding place_char update
place_char-Stepped v ch ok = elim (Bool-cases (ch == 10)) [
  | inl e ↦ rw e (record { row = omega (arith, ok.row); col = omega arith; past = λ a hi. refl })
  | inr n1 ↦ elim (Bool-cases (ch == 13)) [
    | inl e ↦
        rw (n1, e) (record { row = omega (arith, ok.row); col = omega arith; past = λ a hi. refl })
    | inr n2 ↦ elim (Bool-cases (ch == 8)) [
      | inl e ↦ elim (Bool-cases (ltb 0 v.cursor_col)) [
        | inl on ↦
            rw (n1, n2, e, on)
              (record {
                row = omega (arith, ok.row);
                col = omega (arith, ok.col);
                past = λ a hi.
                    rw
                      (==_ne a (v.cursor_row * vga_width + (v.cursor_col - 1))
                        (omega (arith, ok.row, ok.col)))
                      refl;
              })
        | inr off ↦
            rw (n1, n2, e, off)
              (record { row = omega (arith, ok.row); col = ok.col; past = λ a hi. refl })
      ]
      | inr n3 ↦ elim (Bool-cases (ch == 9)) [
        | inl e ↦
            rw (n1, n2, n3, e)
              (wrap_line-Stepped v (record v { cursor_col = (v.cursor_col + 4) / 4 * 4 }) ok.row
                (omega (arith, ok.col)) (λ a hi. refl))
        | inr n4 ↦
            rw (n1, n2, n3, n4)
              (wrap_line-Stepped v
                (record v {
                  cells = update v.cells (v.cursor_row * vga_width + v.cursor_col) (entry ch);
                  cursor_col = v.cursor_col + 1;
                })
                ok.row (omega (arith, ok.col))
                (λ a hi.
                  rw
                    (==_ne a (v.cursor_row * vga_width + v.cursor_col)
                      (omega (arith, ok.row, ok.col)))
                    refl))
      ]
    ]
  ]
]

scroll-past : (v : Vga) (a : ℕ) → 2000 ≤ a → (scroll v).cells a ≡ v.cells a
unfolding scroll
scroll-past v a hi =
    blank_from-past vga_width ((vga_height - 1) * vga_width) a
      (copy_rows (vga_height - 1) 1 v.cells) (omega arith)
    ∙ copy_rows-past (vga_height - 1) 1 a v.cells (omega arith)

putc-kept :
    (v : Vga) (ch : ℕ)
    → IsValid v
    → IsValid (putc v ch) × ((a : ℕ) → 2000 ≤ a → (putc v ch).cells a ≡ v.cells a)
unfolding putc
putc-kept v ch ok =
    let s = place_char-Stepped v ch ok in
    elim (Bool-cases v.fbcon_active) [
      | inl on ↦ simp on (ok, λ a hi. refl)
      | inr off ↦ elim (Bool-cases v.vga_ready) [
        | inr down ↦ simp (off, down) (ok, λ a hi. refl)
        | inl up ↦ elim (Bool-cases (leb vga_height (place_char v ch).cursor_row)) [
          | inl low ↦
              simp (off, up, low)
                (
                  unfold scroll in record { row = omega arith; col = omega arith },
                  λ a hi. scroll-past (place_char v ch) a hi ∙ s.past a hi,
                )
          | inr in_ ↦ simp (off, up, in_) (record { row = ground arith; col = s.col }, s.past)
        ]
      ]
    ]

-- Whatever text is printed, on a screen whose cursor is on it: the cursor stays on the 80 by 25
-- screen, and memory behind its 2000 cells is not written.
pub print-IsValid :
    (v : Vga) (text : List ℕ)
    → IsValid v
    → IsValid (print v text) × ((a : ℕ) → 2000 ≤ a → (print v text).cells a ≡ v.cells a)
unfolding print
print-IsValid v [] ok = (ok, λ a hi. refl)
print-IsValid v (c ∷ cs) ok =
    let one = putc-kept v c ok in
    let more = print-IsValid (putc v c) cs one.0 in (more.0, λ a hi. more.1 a hi ∙ one.1 a hi)
