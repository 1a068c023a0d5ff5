-- ===== src/Mm/Vmm/User.antt =====
-- kernel/mm/vmm.c: the user half of an address space that shares no table and no frame.
pub mod Step
pub mod Walk
pub mod Leaf
pub mod Page
pub mod Create
use revinix_os.Base.{
  ℕ, zero, suc, ◌+◌, ◌-◌, ◌*◌, ◌^◌, ◌≤◌, ◌<◌, ◌≡◌, refl, ◌≢◌, ◌⊎◌, inl, inr, Bool, true, false,
  ◌&&◌, ◌||◌, ltb, ◌==◌, if◌then◌else◌, Bool-cases, update, arith, ap, ◌∙◌, sym,
}
use revinix_os.Mm.Frames.{Allocator}
use revinix_os.Mm.Vmm.{Tables, Vmm, entry_addr, is_huge, is_present, next_level}
use revinix_os.Mm.Vmm.Entries.{table_entry, table_entry_lem}
use revinix_os.Mm.Vmm.Tree.{
  Extends, grown, grown_lem, next_level-present, next_level-absent, zero-absent,
}

-- an entry of the user half: `rank` is 4 for the PML4 down to 1 for page tables, 0 for other tables
abbrev pub inside : (ℕ → ℕ) → ℕ → ℕ → Bool
inside rank t i = ltb 0 (rank t) && ltb i 512 && (ltb (rank t) 4 || ltb i 256)

-- The tables of the user half lie in used frames. Entries above the last level lead one level down
-- and are not huge, every entry leads to a used frame, and no two to the same one.
pub record IsPrivate (A : Allocator) (v : Vmm A.State) (rank : ℕ → ℕ) : Type 0 where
  pub valid : A.Valid v.frames
  pub null : rank 0 ≡ 0
  pub owned : (t : ℕ) → rank t ≢ 0 → A.used v.frames t ≡ true
  pub links :
      (t i : ℕ)
      → inside rank t i ≡ true
      → 2 ≤ rank t
      → is_present (v.tables t i) ≡ true
      → (is_huge (v.tables t i) ≡ false) × (rank (entry_addr (v.tables t i)) + 1 ≡ rank t)
  pub taken :
      (t i : ℕ)
      → inside rank t i ≡ true
      → is_present (v.tables t i) ≡ true
      → A.used v.frames (entry_addr (v.tables t i)) ≡ true
  pub single :
      (t i s j : ℕ)
      → inside rank t i ≡ true
      → inside rank s j ≡ true
      → is_present (v.tables t i) ≡ true
      → is_present (v.tables s j) ≡ true
      → entry_addr (v.tables t i) ≡ entry_addr (v.tables s j)
      → (t ≡ s) × (i ≡ j)

-- no entry of the user half leads to `f`
abbrev pub Avoids : Tables → (ℕ → ℕ) → ℕ → Type 0
Avoids m rank f =
    (t i : ℕ) → inside rank t i ≡ true → is_present (m t i) ≡ true → entry_addr (m t i) ≢ f

-- entries that are present stay as they are
abbrev pub Keeps : Tables → (ℕ → ℕ) → Tables → Type 0
Keeps m rank m' = (t i : ℕ) → rank t ≢ 0 → is_present (m t i) ≡ true → m' t i ≡ m t i

module _ (A : Allocator) where
  -- `n` allocations in a row succeed
  unfoldable pub Plenty : A.State → ℕ → Type 0
  Plenty s zero = Unit
  Plenty s (suc n) = ((A.alloc s).0 ≢ 0) × Plenty (A.alloc s).1 n

  pub still_more : (n k : ℕ) (s : A.State) → Plenty s (n + k) → Plenty s n
  unfolding Plenty
  still_more zero k s enough = tt
  still_more (suc n) k s enough =
      let e : suc n + k ≡ suc (n + k) = omega arith in
      let (got, rest) = rw e at enough in (got, still_more n k (A.alloc s).1 rest)

  pub fewer : (n : ℕ) (s : A.State) → Plenty s (suc n) → Plenty s n
  fewer n s enough = let e : suc n ≡ n + 1 = omega arith in still_more n 1 s (rw e at enough)

  -- An allocation with nothing stored yet.
  pub alloc-IsPrivate :
      (v : Vmm A.State) (rank : ℕ → ℕ)
      → IsPrivate A v rank
      → (A.alloc v.frames).0 ≢ 0
      → IsPrivate A (record v { frames = (A.alloc v.frames).1 }) rank
  alloc-IsPrivate v rank p got = record {
    valid = A.alloc_valid v.frames p.valid;
    null = p.null;
    owned = λ t h. ground (arith, A.alloc_used v.frames t p.valid got, p.owned t h);
    links = p.links;
    taken = λ t i h on.
        ground
          (arith, A.alloc_used v.frames (entry_addr (v.tables t i)) p.valid got, p.taken t i h on);
    single = p.single;
  }

  -- What `next_level` with `create` leaves behind.
  pub record Stepped (v : Vmm A.State) (rank : ℕ → ℕ) (t i : ℕ) (out : ℕ × Vmm A.State)
      (rank' : ℕ → ℕ) : Type 0 where
    pub private : IsPrivate A out.1 rank'
    pub extends : Extends rank rank'
    pub below : rank' out.0 + 1 ≡ rank t
    pub entry : entry_addr (out.1.tables t i) ≡ out.0
    pub present : is_present (out.1.tables t i) ≡ true
    pub small : is_huge (out.1.tables t i) ≡ false
    pub keeps : Keeps v.tables rank out.1.tables
    pub spares :
        (f : ℕ)
        → A.used v.frames f ≡ true
        → Avoids v.tables rank f
        → Avoids out.1.tables rank' f × (A.used out.1.frames f ≡ true)
    pub plenty : (n : ℕ) → Plenty v.frames (suc n) → Plenty out.1.frames n
