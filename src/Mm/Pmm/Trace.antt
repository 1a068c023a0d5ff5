-- ===== src/Mm/Pmm/Trace.antt =====
-- Clients of the allocator over time: the frames that they hold after any run of calls.
use revinix_os.Base.{
  ℕ, zero, suc, ◌+◌, ◌-◌, ◌*◌, ◌/◌, ◌≤◌, ◌<◌, ◌≡◌, refl, ap, ◌≢◌, ◌⊎◌, inl, inr, Bool, true, false,
  ◌||◌, List, [], ◌∷◌, arith, ◌==◌, if◌then◌else◌, Bool-cases,
}
use revinix_os.Mm.Pmm.{Pmm, frame_size, bitmap_test, alloc_frame, free_frame, alloc_contig}
use revinix_os.Mm.Pmm.Contig.{within, IsFree, RunTaken, alloc_contig-RunFit}
use revinix_os.Mm.Pmm.Bitmap.{IsValid}
use revinix_os.Mm.Pmm.Marks.{mark_free-IsValid, mark_free-SameStatics, test-mark_free}
use revinix_os.Mm.Pmm.Alloc.{FirstFree, Taken, alloc_frame-Taken, free_frame-address}

abbrev pub holds : List ℕ → ℕ → Bool
holds [] f = false
holds (h ∷ hs) f = h == f || holds hs f

abbrev pub release : List ℕ → ℕ → List ℕ
release [] f = []
release (h ∷ hs) f = if h == f then hs else h ∷ release hs f

abbrev pub Distinct : List ℕ → Type 0
Distinct [] = Unit
Distinct (h ∷ hs) = (holds hs h ≡ false) × Distinct hs

-- the `n` frames from `f` on beside those held
abbrev pub with_run : ℕ → ℕ → List ℕ → List ℕ
with_run zero f hs = hs
with_run (suc n) f hs = f ∷ with_run n (f + 1) hs

-- One call: a client is handed a frame or a run of at least one, is refused, or gives back a frame
-- that is held. `pmm_free_frame` does not test that the frame is held, clients see to it.
pub data Call : Pmm × List ℕ → Pmm × List ℕ → Type 0 where
  take_frame :
      (p : Pmm) (hs : List ℕ)
      → (alloc_frame p).0 ≢ 0
      → Call (p, hs) ((alloc_frame p).1, ((alloc_frame p).0 / frame_size) ∷ hs)
  refused : (p : Pmm) (hs : List ℕ) → (alloc_frame p).0 ≡ 0 → Call (p, hs) ((alloc_frame p).1, hs)
  take_run :
      (p : Pmm) (hs : List ℕ) (n : ℕ)
      → 1 ≤ n
      → (alloc_contig p n).0 ≢ 0
      → Call (p, hs) ((alloc_contig p n).1, with_run n ((alloc_contig p n).0 / frame_size) hs)
  no_run :
      (p : Pmm) (hs : List ℕ) (n : ℕ)
      → 1 ≤ n
      → (alloc_contig p n).0 ≡ 0
      → Call (p, hs) ((alloc_contig p n).1, hs)
  give_back :
      (p : Pmm) (hs : List ℕ) (f : ℕ)
      → holds hs f ≡ true
      → Call (p, hs) (free_frame p (f * frame_size), release hs f)

pub data Calls (s : Pmm × List ℕ) : Pmm × List ℕ → Type 0 where
  none_yet : Calls s s
  then_call : {t u : Pmm × List ℕ} → Calls s t → Call t u → Calls s u

-- The allocator is valid; the held frames are distinct, lie in `[1, total_frames)` and are used.
pub record IsSound (s : Pmm × List ℕ) : Type 0 where
  pub valid : IsValid s.0
  pub distinct : Distinct s.1
  pub reserved :
      (f : ℕ) → holds s.1 f ≡ true → (1 ≤ f) × (f < s.0.total_frames) × (bitmap_test s.0 f ≡ true)

holds-release_self : (hs : List ℕ) (f : ℕ) → Distinct hs → holds (release hs f) f ≡ false
holds-release_self [] f d = refl
holds-release_self (h ∷ hs) f (out, d) = ground (arith, holds-release_self hs f d)

holds-release : (hs : List ℕ) (f g : ℕ) → holds (release hs f) g ≡ true → holds hs g ≡ true
holds-release [] f g e = e
holds-release (h ∷ hs) f g e = ground (arith, holds-release hs f g)

Distinct-release : (hs : List ℕ) (f : ℕ) → Distinct hs → Distinct (release hs f)
Distinct-release [] f d = tt
Distinct-release (h ∷ hs) f (out, d) = elim (Bool-cases (h == f)) [
  | inl e ↦ rw e d
  | inr e ↦ rw e (ground (arith, holds-release hs f h), Distinct-release hs f d)
]

IsSound-Taken :
    (p : Pmm) (hs : List ℕ) (f : ℕ) (q : Pmm)
    → IsSound (p, hs)
    → FirstFree p 1 f
    → Taken p f q
    → IsSound (q, f ∷ hs)
IsSound-Taken p hs f q s found taken = record {
  valid = taken.valid;
  distinct = (ground (arith, s.reserved f, found.free), s.distinct);
  reserved = λ g h.
      ground (arith, s.reserved g, taken.used g, taken.statics.total, found.above, found.below);
}

holds-with_run :
    (n f : ℕ) (hs : List ℕ) (g : ℕ) → holds (with_run n f hs) g ≡ (within f n g || holds hs g)
holds-with_run zero f hs g = ground arith
holds-with_run (suc n) f hs g = ground (arith, holds-with_run n (f + 1) hs g)

Distinct-with_run :
    (n f : ℕ) (hs : List ℕ)
    → ((g : ℕ) → within f n g ≡ true → holds hs g ≡ false)
    → Distinct hs
    → Distinct (with_run n f hs)
Distinct-with_run zero f hs apart d = d
Distinct-with_run (suc n) f hs apart d = (
  ground (arith, holds-with_run n (f + 1) hs f, apart f),
  Distinct-with_run n (f + 1) hs (λ g on. apart g (ground arith)) d,
)

IsSound-RunTaken :
    (p : Pmm) (hs : List ℕ) (f n : ℕ) (q : Pmm)
    → IsSound (p, hs)
    → 1 ≤ f
    → f + n ≤ p.total_frames
    → IsFree p f n
    → RunTaken p f n q
    → IsSound (q, with_run n f hs)
IsSound-RunTaken p hs f n q s above below free taken = record {
  valid = taken.valid;
  distinct = Distinct-with_run n f hs (λ g on. ground (arith, s.reserved g, free g)) s.distinct;
  reserved =
      λ g h. ground (arith, holds-with_run n f hs g, s.reserved g, taken.used g, taken.total);
}

alloc_contig-empty : (p : Pmm) (n : ℕ) → p.total_frames ≡ 0 → alloc_contig p n ≡ (0, p)
unfolding alloc_contig
alloc_contig-empty p n none_ = let rounds : p.total_frames - 1 ≡ 0 = omega arith in rw rounds refl

-- What a call for a run may answer, in any valid state.
alloc_contig-answer :
    (p : Pmm) (n : ℕ)
    → IsValid p
    → 1 ≤ n
    → (alloc_contig p n ≡ (0, p))
      ⊎ ((f : ℕ) × (1 ≤ f)
          × (f + n ≤ p.total_frames)
          × IsFree p f n
          × ((alloc_contig p n).0 ≡ f * frame_size)
          × RunTaken p f n (alloc_contig p n).1)
alloc_contig-answer p n v pos = elim (Bool-cases (p.total_frames == 0)) [
  | inl none_ ↦ inl (alloc_contig-empty p n (ground arith))
  | inr some_ ↦ elim (alloc_contig-RunFit p n v pos (ground arith)) [
    | inl (e, all) ↦ inl e
    | inr (f, above, below, free, first, e, taken) ↦ inr (f, above, below, free, e, taken)
  ]
]

Call-IsSound : {s t : Pmm × List ℕ} → Call s t → IsSound s → IsSound t
Call-IsSound (take_frame p hs ne) s = elim (alloc_frame-Taken p s.valid) [
  | inl (e, all) ↦ absurd (ne (ap (λ (out : ℕ × Pmm). out.0) e))
  | inr (f, found, e, taken) ↦
      let same : (alloc_frame p).0 / frame_size ≡ f = omega arith in
      rw same (IsSound-Taken p hs f (alloc_frame p).1 s found taken)
]
Call-IsSound (refused p hs e) s = elim (alloc_frame-Taken p s.valid) [
  | inl (same, all) ↦ rw same s
  | inr (f, found, e', taken) ↦ absurd (omega (arith, found.above))
]
Call-IsSound (take_run p hs n pos ne) s = elim (alloc_contig-answer p n s.valid pos) [
  | inl e ↦ absurd (ne (ap (λ (out : ℕ × Pmm). out.0) e))
  | inr (f, above, below, free, e, taken) ↦
      let same : (alloc_contig p n).0 / frame_size ≡ f = omega arith in
      rw same (IsSound-RunTaken p hs f n (alloc_contig p n).1 s above below free taken)
]
Call-IsSound (no_run p hs n pos e) s = elim (alloc_contig-answer p n s.valid pos) [
  | inl same ↦ rw same s
  | inr (f, above, below, free, e', taken) ↦ absurd (omega arith)
]
Call-IsSound (give_back p hs f held) s =
    let (lo, hi, on) = s.reserved f held in
    rw free_frame-address (record {
      valid = mark_free-IsValid p f s.valid hi;
      distinct = Distinct-release hs f s.distinct;
      reserved = λ g h. ground (
        arith,
        s.reserved g,
        holds-release hs f g h,
        holds-release_self hs f s.distinct,
        test-mark_free p f g s.valid.bytes,
        (mark_free-SameStatics p f).total,
      );
    })

-- Clients take single frames and runs of at least one frame, and give back only frames that they hold,
-- in any order. From a sound state every such sequence of calls leads to a sound one, so no frame is
-- handed out while it is held.
pub Calls-IsSound : {s t : Pmm × List ℕ} → Calls s t → IsSound s → IsSound t
Calls-IsSound none_yet s = s
Calls-IsSound (then_call cs c) s = Call-IsSound c (Calls-IsSound cs s)
