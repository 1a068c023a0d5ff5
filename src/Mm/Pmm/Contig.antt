-- ===== src/Mm/Pmm/Contig.antt =====
-- `pmm_alloc_contig` finds the first run of free frames that is long enough.
use revinix_os.Base.{
  ℕ, zero, suc, ◌+◌, ◌-◌, ◌*◌, ◌≤◌, ◌<◌, ◌≡◌, refl, ◌≢◌, ◌⊎◌, inl, inr, Bool, true, false, ◌&&◌,
  ◌||◌, arith, ◌==◌, leb, ltb, Bool-cases, add64, sub64, mul64,
}
use revinix_os.Mm.Pmm.{Pmm, frame_size, bitmap_test, mark_used, mark_run, contig_scan, alloc_contig}
use revinix_os.Mm.Pmm.Bitmap.{IsValid, count-le}
use revinix_os.Mm.Pmm.Marks.{
  mark_used-SameStatics, test-mark_used, mark_used-IsValid, used-mark_used,
}

-- the frames `[f, f + n)` as a test
abbrev pub within : ℕ → ℕ → ℕ → Bool
within f n g = leb f g && ltb g (f + n)

abbrev pub IsFree : Pmm → ℕ → ℕ → Type 0
IsFree p f n = (g : ℕ) → f ≤ g → g < f + n → bitmap_test p g ≡ false

-- every run of `n` frames in `[1, hi)` has a used frame
abbrev pub NoRun : Pmm → ℕ → ℕ → Type 0
NoRun p n hi =
    (f : ℕ) → 1 ≤ f → f + n ≤ hi → (g : ℕ) × (f ≤ g) × (g < f + n) × (bitmap_test p g ≡ true)

-- The run `[f, f + n)` is taken: used and counted now, nothing else changed.
pub record RunTaken (p : Pmm) (f n : ℕ) (q : Pmm) : Type 0 where
  pub valid : IsValid q
  pub used : (g : ℕ) → bitmap_test q g ≡ (within f n g || bitmap_test p g)
  pub counted : q.used_frames ≡ p.used_frames + n
  pub total : q.total_frames ≡ p.total_frames

pub mark_run-RunTaken :
    (n f : ℕ) (p : Pmm)
    → IsValid p
    → f + n ≤ p.total_frames
    → IsFree p f n
    → RunTaken p f n (mark_run n f p)
unfolding mark_run
mark_run-RunTaken zero f p v fits free = record {
  valid = v;
  used = λ g. ground arith;
  counted = omega arith;
  total = refl;
}
mark_run-RunTaken (suc n) f p v fits free =
    let p' = mark_used p f in
    let total' = (mark_used-SameStatics p f).total in
    let v' = mark_used-IsValid p f v (omega arith) in
    let free' : IsFree p' (f + 1) n =
      λ g lo hi. ground (arith, test-mark_used p f g v.bytes, free g) in
    let rest = mark_run-RunTaken n (f + 1) p' v' (omega arith) free' in
    record {
      valid = rest.valid;
      used = λ g. ground (arith, rest.used g, test-mark_used p f g v.bytes);
      counted = ground (
        arith,
        rest.counted,
        used-mark_used p f,
        free f,
        v.counted,
        v.fits,
        count-le (bitmap_test p) p.total_frames,
      );
      total = ground (arith, rest.total);
    }

-- What a search for `n` frames may answer.
abbrev pub RunFit : Pmm → ℕ → ℕ × Pmm → Type 0
RunFit p n out =
    ((out ≡ (0, p)) × NoRun p n p.total_frames)
    ⊎ ((f : ℕ) × (1 ≤ f)
        × (f + n ≤ p.total_frames)
        × IsFree p f n
        × NoRun p n (f + n - 1)
        × (out.0 ≡ f * frame_size)
        × RunTaken p f n out.1)

-- The loop has seen `run` free frames below `i`, the frame before them is used or frame 0, and no
-- run that is long enough lies below `i`.
record Seen (p : Pmm) (n i run : ℕ) : Type 0 where
  short : run < n
  room : run + 1 ≤ i
  free : (g : ℕ) → i ≤ g + run → g < i → bitmap_test p g ≡ false
  edge : (run + 1 ≡ i) ⊎ ((run + 1 < i) × (bitmap_test p (i - run - 1) ≡ true))
  before : NoRun p n i

Seen-used : (p : Pmm) (n i run : ℕ) → Seen p n i run → bitmap_test p i ≡ true → Seen p n (i + 1) 0
Seen-used p n i run s on = record {
  short = omega (arith, s.short);
  room = omega (arith, s.room);
  free = λ g lo hi. absurd (omega arith);
  edge = inr (omega (arith, s.room), ground arith);
  before = λ f lo hi. elim (Bool-cases (leb (f + n) i)) [
    | inl early ↦ s.before f lo (ground arith)
    | inr late ↦ (i, ground (arith, s.short), ground arith, on)
  ];
}

Seen-free :
    (p : Pmm) (n i run : ℕ)
    → Seen p n i run
    → bitmap_test p i ≡ false
    → run + 1 ≢ n
    → Seen p n (i + 1) (run + 1)
Seen-free p n i run s off ne = record {
  short = omega (arith, s.short);
  room = omega (arith, s.room);
  free = λ g lo hi. ground (arith, s.free g);
  edge = elim s.edge [
    | inl e ↦ inl (omega arith)
    | inr (lt, on) ↦
        let same : i + 1 - (run + 1) - 1 ≡ i - run - 1 = omega arith in
        inr (omega arith, rw same on)
  ];
  before = λ f lo hi. elim (Bool-cases (leb (f + n) i)) [
    | inl early ↦ s.before f lo (ground arith)
    | inr late ↦ elim s.edge [
      | inl e ↦ absurd (ground (arith, s.short))
      | inr (lt, on) ↦ (i - run - 1, ground (arith, s.short), ground arith, on)
    ]
  ];
}

-- The branch of the loop that returns: the run ends at `i`.
Seen-found :
    (p : Pmm) (n i run : ℕ)
    → IsValid p
    → i < p.total_frames
    → Seen p n i run
    → bitmap_test p i ≡ false
    → run + 1 ≡ n
    → let first = add64 (sub64 i n) 1 in
      RunFit p n (mul64 first frame_size, mark_run (i + 1 - first) first p)
Seen-found p n i run v in_total s off e =
    let f : ℕ = i + 1 - n in
    let first : add64 (sub64 i n) 1 ≡ f = omega (arith, s.room, v.fits) in
    let rounds : i + 1 - f ≡ n = omega (arith, s.room) in
    let free : IsFree p f n = λ g lo hi. ground (arith, s.free g, s.room) in
    rw (first, rounds)
      (inr (
        f,
        omega (arith, s.room),
        omega (arith, s.room),
        free,
        λ g lo hi. s.before g lo (omega (arith, s.room)),
        omega (arith, s.room, v.fits),
        mark_run-RunTaken n f p v (omega (arith, s.room)) free,
      ))

contig_scan-RunFit :
    (n left i run : ℕ) (p : Pmm)
    → IsValid p
    → i + left ≡ p.total_frames
    → Seen p n i run
    → RunFit p n (contig_scan n left i run p)
unfolding contig_scan
contig_scan-RunFit n zero i run p v end s = inl (refl, λ f lo hi. s.before f lo (omega arith))
contig_scan-RunFit n (suc left) i run p v end s = elim (Bool-cases (bitmap_test p i)) [
  | inl on ↦
      rw on (contig_scan-RunFit n left (i + 1) 0 p v (omega arith) (Seen-used p n i run s on))
  | inr off ↦
      let next : add64 run 1 ≡ run + 1 = omega (arith, s.room, v.fits) in
      rw (off, next)
        (elim (Bool-cases (run + 1 == n)) [
          | inl e ↦ rw e (Seen-found p n i run v (omega arith) s off (ground arith))
          | inr e ↦ rw e (
              contig_scan-RunFit n left (i + 1) (run + 1) p v (omega arith)
                (Seen-free p n i run s off (ground arith)))
        ])
]

-- `pmm_alloc_contig` for `n ≥ 1` frames, in a valid state with a frame to spare, answers 0 and
-- changes nothing exactly when every run of `n` frames in `[1, total_frames)` has a used frame;
-- else it answers the address of the first run of free frames, and takes just these.
pub alloc_contig-RunFit :
    (p : Pmm) (n : ℕ) → IsValid p → 1 ≤ n → 1 ≤ p.total_frames → RunFit p n (alloc_contig p n)
unfolding alloc_contig
alloc_contig-RunFit p n v pos total =
    contig_scan-RunFit n (p.total_frames - 1) 1 0 p v (omega arith) (record {
      short = omega arith;
      room = omega arith;
      free = λ g lo hi. absurd (omega arith);
      edge = inl (omega arith);
      before = λ f lo hi. absurd (omega arith);
    })
