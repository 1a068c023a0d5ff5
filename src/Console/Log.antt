-- ===== src/Console/Log.antt =====
-- kernel/kprintf.c: the log ring and the printing of numbers.
-- `emit_char` also shows the character on the screen and the serial line; the list is what is shown.
pub mod Snapshot
use revinix_os.Base.{
  ℕ, zero, suc, ◌+◌, ◌-◌, ◌*◌, ◌/◌, ◌%◌, ◌^◌, Bool, true, false, ◌&&◌, List, [], ◌∷◌, ◌++◌, ltb,
  leb, ◌==◌, ◌!=◌, if◌then◌else◌, get_or, update, add64, sub64, Option, none, some,
}

abbrev pub klog_size : ℕ
klog_size = 16384

-- the statics of kprintf.c, and what was shown
pub record Log : Type 0 where
  pub klog_buf : ℕ → ℕ
  pub klog_total : ℕ
  pub shown : List ℕ

unfoldable pub emit_char : Log → ℕ → Log
emit_char l c = record l {
  klog_buf = update l.klog_buf (l.klog_total % klog_size) c;
  klog_total = add64 l.klog_total 1;
  shown = l.shown ++ (c ∷ []);
}

pub emit_str : Log → List ℕ → Log
emit_str l [] = l
emit_str l (c ∷ cs) = emit_str (emit_char l c) cs

-- `console_write` from `i` on: shown and not recorded
pub console_write : ℕ → ℕ → (ℕ → ℕ) → Log → Log
console_write zero i s l = l
console_write (suc left) i s l =
    console_write left (i + 1) s (record l { shown = l.shown ++ (s i ∷ []) })

pub klog_wrapped : Log → Bool
klog_wrapped l = ltb klog_size l.klog_total

-- the loop that looks for the first newline, as `start` and `count`
pub skip_line : ℕ → ℕ → (ℕ → ℕ) → ℕ × ℕ
skip_line zero start buf = (start, 0)
skip_line (suc count) start buf =
    let rest = skip_line count (start + 1) buf in
    if buf (start % klog_size) != 10 then rest else (start, suc count)

-- `if (count > 0) { start++; count--; }`
abbrev pub skip_one : ℕ × ℕ → ℕ × ℕ
skip_one w = if ltb 0 w.1 then (w.0 + 1, w.1 - 1) else w

-- `if (count > max) { start += count - max; count = max; }`
abbrev pub keep_last : ℕ → ℕ × ℕ → ℕ × ℕ
keep_last max w = if ltb max w.1 then (w.0 + (w.1 - max), max) else w

-- where the copy of `klog_snapshot` starts, and its length
pub window : Log → ℕ → ℕ × ℕ
window l max =
    let total = l.klog_total in
    let count = (if ltb total klog_size then total else klog_size) in
    let start = total - count in
    keep_last max
      (if ltb klog_size total then skip_one (skip_line count start l.klog_buf) else (start, count))

-- `dst[i] = klog_buf[(start + i) % KLOG_SIZE]` from `i` on, with the rounds that are left
unfoldable pub copy_log : ℕ → ℕ → ℕ → (ℕ → ℕ) → (ℕ → ℕ) → ℕ → ℕ
copy_log zero i start buf dst = dst
copy_log (suc left) i start buf dst =
    copy_log left (i + 1) start buf (update dst i (buf ((start + i) % klog_size)))

-- the length, and the buffer afterwards
pub klog_snapshot : Log → (ℕ → ℕ) → ℕ → ℕ × (ℕ → ℕ)
klog_snapshot l dst max =
    let (start, count) = window l max in (count, copy_log count 0 start l.klog_buf dst)

abbrev pub hex_digits : List ℕ
hex_digits = 48 ∷ 49 ∷ 50 ∷ 51 ∷ 52 ∷ 53 ∷ 54 ∷ 55 ∷ 56 ∷ 57 ∷ 97 ∷ 98 ∷ 99 ∷ 100 ∷ 101 ∷ 102 ∷ []

-- the first loop of `print_uint` for base 10 or 16; `none` stands for more digits than the fuel
pub gen_digits : ℕ → Bool → ℕ → ℕ → (ℕ → ℕ) → Option (ℕ × (ℕ → ℕ))
gen_digits zero hex value i buf = none
gen_digits (suc fuel) hex value i buf =
    let digit = (if hex then value % 16 else value % 10) in
    let value' = (if hex then value / 16 else value / 10) in
    let rest = gen_digits fuel hex value' (i + 1) (update buf i (get_or hex_digits digit 0)) in
    if ltb 0 value then rest else some (i, buf)

-- the second loop
pub emit_back : ℕ → (ℕ → ℕ) → Log → Log
emit_back zero buf l = l
emit_back (suc i) buf l = emit_back i buf (emit_char l (buf i))

pub print_uint : ℕ → Log → ℕ → Bool → Option Log
print_uint fuel l value hex =
    let digits = gen_digits fuel hex value 0 (λ i. 0) in
    if value == 0
    then some (emit_char l 48)
    else elim digits [ none ↦ none | some (i, buf) ↦ some (emit_back i buf l) ]

-- a 64-bit two's complement number
pub print_int : ℕ → Log → ℕ → Option Log
print_int fuel l value =
    if leb (2 ^ 63) value
    then print_uint fuel (emit_char l 45) (sub64 0 value) false
    else print_uint fuel l value false
