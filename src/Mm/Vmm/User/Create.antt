-- ===== src/Mm/Vmm/User/Create.antt =====
-- kernel/mm/vmm.c: the user half of an address space that vmm_create_address_space has made.
use revinix_os.Base.{ℕ, zero, suc, ◌+◌, ◌<◌, ◌≡◌, ◌≢◌, refl, ◌∙◌, Bool, true, false, update, arith}
use revinix_os.Mm.Frames.{Allocator}
use revinix_os.Mm.Vmm.{
  Tables, Vmm, is_present, store, zero_table, copy_entries, create_address_space,
}
use revinix_os.Mm.Vmm.Tree.{zero_from_lem, zero-absent}
use revinix_os.Mm.Vmm.User.{inside, IsPrivate}

-- the copied entries lie from `i` on
copied_above :
    (left i dst src : ℕ) (m : Tables) (b : ℕ)
    → b < i
    → copy_entries left i dst src m dst b ≡ m dst b
unfolding copy_entries store
copied_above zero i dst src m b lo = refl
copied_above (suc left) i dst src m b lo =
    copied_above left (i + 1) dst src (store m dst i (m src i)) b (omega arith) ∙ ground arith

cleared : (t b : ℕ) (m : Tables) → b < 512 → zero_table t m t b ≡ 0
unfolding zero_table
cleared t b m lt = ground (arith, zero_from_lem 512 0 t m t b)

module _ (A : Allocator) where
  -- the ranks in a new address space: there is just the PML4
  abbrev pub only_root : ℕ → ℕ → ℕ
  only_root pml4 = update (λ t. 0) pml4 4

  pub create_address_space_frames :
      (v : Vmm A.State) → (create_address_space A v).1.frames ≡ (A.alloc v.frames).1
  unfolding create_address_space
  create_address_space_frames v = refl

  -- A new address space has an empty user half, unless the allocation fails.
  pub create_address_space-IsPrivate :
      (v : Vmm A.State)
      → A.Valid v.frames
      → (A.alloc v.frames).0 ≢ 0
      → let (pml4, v') = create_address_space A v in
        IsPrivate A v' (only_root pml4) × (only_root pml4 pml4 ≡ 4)
  unfolding create_address_space update
  create_address_space-IsPrivate v valid got =
      let root : ℕ = (A.alloc v.frames).0 in
      let m : Tables = copy_entries 256 256 root v.kernel_pml4 (zero_table root v.tables) in
      let empty_half : (t i : ℕ) → inside (only_root root) t i ≡ true → is_present (m t i) ≡ false =
        λ t i here.
          let at : t ≡ root = ground arith in
          let low : i < 256 = ground arith in
          let zero_ : m root i ≡ 0 =
            copied_above 256 256 root v.kernel_pml4 (zero_table root v.tables) i low
            ∙ cleared root i v.tables (omega arith) in
          rw (at, zero_) zero-absent in
      (
        record {
          valid = A.alloc_valid v.frames valid;
          null = ground arith;
          owned = λ t h. ground (arith, A.alloc_used v.frames t valid got);
          links = λ t i h up on. absurd (clash (empty_half t i h) on);
          taken = λ t i h on. absurd (clash (empty_half t i h) on);
          single = λ t i s j h k on on1 same. absurd (clash (empty_half t i h) on);
        },
        ground arith,
      )
    where
      clash : {b : Bool} → b ≡ false → b ≡ true → ⊥
      clash off on = ground (arith, off, on)
