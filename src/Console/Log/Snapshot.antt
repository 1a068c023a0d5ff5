-- ===== src/Console/Log/Snapshot.antt =====
-- A snapshot of the log is a piece of what was logged, up to its end.
use revinix_os.Base.{
  ℕ, zero, suc, ◌+◌, ◌-◌, ◌%◌, ◌^◌, ◌≤◌, ◌<◌, ◌≡◌, ◌≢◌, refl, sym, ◌∙◌, inl, inr, true, arith, ltb,
  ◌==◌, ◌!=◌, if◌then◌else◌, Bool-cases, ==_refl, ==_ne, update,
}
use revinix_os.Console.Log.{
  Log, klog_size, skip_line, skip_one, keep_last, window, copy_log, klog_snapshot,
}

-- The ring holds the last 16384 characters of the text logged so far, `text` by its index.
pub record Holds (l : Log) (text : ℕ → ℕ) : Type 0 where
  pub bounded : l.klog_total < 2 ^ 63
  pub recent :
      (i : ℕ)
      → i < l.klog_total
      → l.klog_total ≤ i + klog_size
      → l.klog_buf (i % klog_size) ≡ text i

copy_log-below :
    (n i start : ℕ) (buf dst : ℕ → ℕ) (j : ℕ) → j < i → copy_log n i start buf dst j ≡ dst j
unfolding copy_log update
copy_log-below zero i start buf dst j lo = refl
copy_log-below (suc n) i start buf dst j lo =
    copy_log-below n (i + 1) start buf (update dst i (buf ((start + i) % klog_size))) j
      (omega arith)
    ∙ rw (==_ne j i (omega arith)) refl

copy_log-at :
    (n i start : ℕ) (buf dst : ℕ → ℕ) (j : ℕ)
    → i ≤ j
    → j < i + n
    → copy_log n i start buf dst j ≡ buf ((start + j) % klog_size)
unfolding copy_log update
copy_log-at zero i start buf dst j lo hi = absurd (omega arith)
copy_log-at (suc n) i start buf dst j lo hi = elim (Bool-cases (i == j)) [
  | inl on ↦
      let same : j ≡ i = ground arith in
      rw same (
        copy_log-below n (i + 1) start buf (update dst i (buf ((start + i) % klog_size))) i
          (omega arith)
        ∙ rw (==_refl i) refl)
  | inr off ↦
      copy_log-at n (i + 1) start buf (update dst i (buf ((start + i) % klog_size))) j
        (ground arith) (omega arith)
]

-- Where a snapshot begins in a text of `total` characters: at the start while all of it is in the
-- ring, else behind the first newline that the ring still holds, or at the end without one.
pub data LineStart (text : ℕ → ℕ) (total : ℕ) : ℕ → Type 0 where
  whole : total ≤ klog_size → LineStart text total 0
  line :
      (j : ℕ)
      → klog_size < total
      → total ≤ j + klog_size
      → j < total
      → text j ≡ 10
      → ((i : ℕ) → total ≤ i + klog_size → i < j → text i ≢ 10)
      → LineStart text total (j + 1)
  no_line :
      klog_size < total
      → ((i : ℕ) → total ≤ i + klog_size → i < total → text i ≢ 10)
      → LineStart text total total

-- The first newline of the `count` characters from `start` on in the ring, or their end.
record Skipped (buf : ℕ → ℕ) (start count : ℕ) (w : ℕ × ℕ) : Type 0 where
  end : w.0 + w.1 ≡ start + count
  from : start ≤ w.0
  newline : 0 < w.1 → buf (w.0 % klog_size) ≡ 10
  before : (i : ℕ) → start ≤ i → i < w.0 → buf (i % klog_size) ≢ 10

skip_line-Skipped :
    (count start : ℕ) (buf : ℕ → ℕ) → Skipped buf start count (skip_line count start buf)
unfolding skip_line
skip_line-Skipped zero start buf = record {
  end = refl;
  from = omega arith;
  newline = λ more. absurd (omega arith);
  before = λ i lo hi. absurd (omega arith);
}
skip_line-Skipped (suc count) start buf = elim (Bool-cases (buf (start % klog_size) != 10)) [
  | inl on ↦
      let rest = skip_line-Skipped count (start + 1) buf in
      rw on (record {
        end = omega (arith, rest.end);
        from = omega (arith, rest.from);
        newline = rest.newline;
        before = λ i lo hi. elim (Bool-cases (i == start)) [
          | inl here ↦ let e : i ≡ start = ground arith in rw e (λ c. ground (arith, c, on))
          | inr later ↦ rest.before i (ground arith) hi
        ];
      })
  | inr off ↦ rw off (record {
    end = refl;
    from = omega arith;
    newline = λ more. ground arith;
    before = λ i lo hi. absurd (omega arith);
  })
]

-- the part of the text that a window covers
record Covers (text : ℕ → ℕ) (total : ℕ) (w : ℕ × ℕ) : Type 0 where
  end : w.0 + w.1 ≡ total
  from : total ≤ w.0 + klog_size
  start : LineStart text total w.0

skip_one-Covers :
    (l : Log) (text : ℕ → ℕ) (w : ℕ × ℕ)
    → Holds l text
    → klog_size < l.klog_total
    → Skipped l.klog_buf (l.klog_total - klog_size) klog_size w
    → Covers text l.klog_total (skip_one w)
skip_one-Covers l text (a, zero) h wrapped skipped =
    let at_end : a ≡ l.klog_total = omega (arith, skipped.end) in
    record {
      end = omega arith;
      from = omega arith;
      start = rw at_end (
          no_line wrapped
            (λ i near lt e. skipped.before i (omega arith) (omega arith) (h.recent i lt near ∙ e)));
    }
skip_one-Covers l text (a, suc b) h wrapped skipped =
    let end = skipped.end in
    let from = skipped.from in
    let more : ltb 0 (suc b) ≡ true = ground arith in
    rw more (record {
      end = omega arith;
      from = omega arith;
      start =
          line a wrapped (omega arith) (omega arith)
            (sym (h.recent a (omega arith) (omega arith)) ∙ skipped.newline (omega arith))
            (λ i near lt e. skipped.before i (omega arith) lt (h.recent i (omega arith) near ∙ e));
    })

-- A window that ends with the text, as long as the line start and the room allow.
record IsRecent (text : ℕ → ℕ) (total max : ℕ) (w : ℕ × ℕ) : Type 0 where
  end : w.0 + w.1 ≡ total
  from : total ≤ w.0 + klog_size
  start :
      (s : ℕ) × LineStart text total s × (w.1 ≡ (if ltb max (total - s) then max else total - s))

keep_last-IsRecent :
    (text : ℕ → ℕ) (total max : ℕ) (w : ℕ × ℕ)
    → Covers text total w
    → IsRecent text total max (keep_last max w)
keep_last-IsRecent text total max (a, b) c =
    let end = c.end in
    let from = c.from in
    record { end = ground arith; from = ground arith; start = (a, c.start, ground arith) }

window-IsRecent :
    (l : Log) (text : ℕ → ℕ) (max : ℕ)
    → Holds l text
    → IsRecent text l.klog_total max (window l max)
unfolding window
window-IsRecent l text max h = elim (Bool-cases (ltb klog_size l.klog_total)) [
  | inl on ↦
      let full : (if ltb l.klog_total klog_size then l.klog_total else klog_size) ≡ klog_size =
        ground arith in
      let w : ℕ × ℕ = skip_line klog_size (l.klog_total - klog_size) l.klog_buf in
      rw (on, full)
        (keep_last-IsRecent text l.klog_total max (skip_one w) (
          skip_one-Covers l text w h (ground arith)
            (skip_line-Skipped klog_size (l.klog_total - klog_size) l.klog_buf)))
  | inr off ↦
      let count : (if ltb l.klog_total klog_size then l.klog_total else klog_size) ≡ l.klog_total =
        ground arith in
      let start : l.klog_total - l.klog_total ≡ 0 = omega arith in
      rw (off, count, start)
        (keep_last-IsRecent text l.klog_total max (0, l.klog_total)
          (record { end = omega arith; from = ground arith; start = whole (ground arith) }))
]

-- A snapshot of a ring that holds the end of a text begins at the start of the text while the ring
-- holds all of it, else behind the first newline in the ring, or at the end without one; but not more
-- than `max` characters before the end. The answer is the number of characters from there to the end
-- of the text, and the buffer begins with just these.
pub klog_snapshot-Holds :
    (l : Log) (text dst : ℕ → ℕ) (max : ℕ)
    → Holds l text
    → let (count, out) = klog_snapshot l dst max in
      (s : ℕ) × LineStart text l.klog_total s
      × (count ≡ (if ltb max (l.klog_total - s) then max else l.klog_total - s))
      × (count ≤ l.klog_total)
      × ((i : ℕ) → i < count → out i ≡ text (l.klog_total - count + i))
unfolding klog_snapshot
klog_snapshot-Holds l text dst max h =
    let w = window-IsRecent l text max h in
    let (s, start, length_) = w.start in
    (
      s,
      start,
      length_,
      omega (arith, w.end),
      λ i lt.
          let at : l.klog_total - (window l max).1 + i ≡ (window l max).0 + i =
            omega (arith, w.end) in
          rw at (
            copy_log-at (window l max).1 0 (window l max).0 l.klog_buf dst i (omega arith)
              (omega arith)
            ∙ h.recent ((window l max).0 + i) (omega (arith, w.end)) (omega (arith, w.from))),
    )
