-- ===== src/Console/Tests.antt =====
-- The log and the screen at concrete states.
use revinix_os.Base.{
  ℕ, ◌+◌, ◌-◌, ◌%◌, ◌<◌, ◌≤◌, ◌≡◌, refl, true, false, [], ◌∷◌, arith, ltb, if◌then◌else◌,
}
use revinix_os.Console.Log.{Log, klog_snapshot}
use revinix_os.Console.Log.Snapshot.{Holds, LineStart, klog_snapshot-Holds}
use revinix_os.Console.Vga.{Vga, print}
use revinix_os.Console.Vga.Cursor.{IsValid, print-IsValid}

-- a ring that has wrapped around, with the text whose character `i` is `i % 16384`
abbrev full : Log
full = record { klog_buf = λ a. a; klog_total = 20000; shown = [] }

abbrev text : ℕ → ℕ
text i = i % 16384

full-Holds : Holds full text
full-Holds = record { bounded = omega arith; recent = λ i lt near. refl }

klog_snapshot-Holds_example :
    let (count, out) = klog_snapshot full (λ i. 0) 100 in
    (s : ℕ) × LineStart text 20000 s
    × (count ≡ (if ltb 100 (20000 - s) then 100 else 20000 - s))
    × (count ≤ 20000)
    × ((i : ℕ) → i < count → out i ≡ text (20000 - count + i))
klog_snapshot-Holds_example = klog_snapshot-Holds full text (λ i. 0) 100 full-Holds

-- the cursor in the last column of the last row
abbrev corner : Vga
corner = record {
  cells = λ a. 0;
  vga_ready = true;
  cursor_row = 24;
  cursor_col = 79;
  fbcon_active = false;
}

corner-IsValid : IsValid corner
corner-IsValid = record { row = omega arith; col = omega arith }

print-IsValid_example :
    IsValid (print corner (72 ∷ 73 ∷ 10 ∷ []))
    × ((a : ℕ) → 2000 ≤ a → (print corner (72 ∷ 73 ∷ 10 ∷ [])).cells a ≡ 0)
print-IsValid_example = print-IsValid corner (72 ∷ 73 ∷ 10 ∷ []) corner-IsValid
