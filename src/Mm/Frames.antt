-- ===== src/Mm/Frames.antt =====
-- What paging asks of the frame allocator of kernel/mm/pmm.c: the operations that vmm.c calls, and
-- the laws that it relies on. `Pmm` fills this interface in Mm/Pmm/Frames.
use revinix_os.Base.{ℕ, ◌*◌, ◌^◌, ◌<◌, ◌≡◌, ◌≢◌, Bool, false, ◌||◌, ◌==◌}

pub record Allocator : Type 1 where
  pub State : Type 0
  pub alloc : State → ℕ × State
  pub free : State → ℕ → State
  pub total : State → ℕ
  -- a frame, by its address, that is in use
  pub used : State → ℕ → Bool
  pub Valid : State → Type 0
  pub alloc_valid : (s : State) → Valid s → Valid (alloc s).1
  pub alloc_aligned : (s : State) → Valid s → (f : ℕ) × ((alloc s).0 ≡ f * 4096) × (f < 2 ^ 40)
  pub alloc_fresh : (s : State) → Valid s → (alloc s).0 ≢ 0 → used s (alloc s).0 ≡ false
  pub alloc_used :
      (s : State) (a : ℕ)
      → Valid s
      → (alloc s).0 ≢ 0
      → used (alloc s).1 a ≡ ((alloc s).0 == a || used s a)
