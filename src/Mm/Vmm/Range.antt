-- ===== src/Mm/Vmm/Range.antt =====
-- `vmm_user_range_ok` accepts just the ranges whose every byte the paging hardware lets Ring 3 access.
use revinix_os.Base.{
  ℕ, zero, suc, ◌+◌, ◌-◌, ◌*◌, ◌/◌, ◌%◌, ◌^◌, ◌≤◌, ◌<◌, ◌≡◌, refl, ◌⊎◌, inl, inr, ◌↔◌, bit_and,
  Bool, true, false, not, leb, if◌then◌else◌, Bool-cases, add64, has_bit, arith, bit_and_step,
  bit_and-zero, has_bit_lem,
}
use revinix_os.Mm.Vmm.{
  Tables, entry_addr, pml4_index, pdpt_index, pd_index, pt_index, is_huge, page_of, user_space_end,
  allows, user_page_ok, user_pages_ok, user_range_ok,
}

-- What the processor demands of the entry at one level for an access from Ring 3.
pub record Grants (write : Bool) (e : ℕ) : Type 0 where
  pub present : has_bit e 0 ≡ true
  pub user : has_bit e 2 ≡ true
  pub writable : write ≡ true → has_bit e 1 ≡ true

and_five : (e : ℕ) → bit_and e 5 ≡ e % 2 + 4 * (e / 4 % 2)
and_five e = omega (
  arith,
  bit_and_step e 5,
  bit_and_step (e / 2) 2,
  bit_and_step (e / 2 / 2) 1,
  bit_and-zero (e / 2 / 2 / 2),
)

and_seven : (e : ℕ) → bit_and e 7 ≡ e % 8
and_seven e = omega (
  arith,
  bit_and_step e 7,
  bit_and_step (e / 2) 3,
  bit_and_step (e / 2 / 2) 1,
  bit_and-zero (e / 2 / 2 / 2),
)

pub allows_iff : (write : Bool) (e : ℕ) → (allows write e ≡ true) ↔ Grants write e
unfolding allows
allows_iff true e = ground (arith, and_seven e, has_bit_lem e 0, has_bit_lem e 1, has_bit_lem e 2)
allows_iff false e = ground (arith, and_five e, has_bit_lem e 0, has_bit_lem e 2)

-- The four-level walk of the processor for the address `a`; it stops early at a 1 GB or 2 MB page.
abbrev pub UserAccess : Tables → ℕ → Bool → ℕ → Type 0
UserAccess m pml4 write a =
    let e4 = m pml4 (pml4_index a) in
    let e3 = m (entry_addr e4) (pdpt_index a) in
    let e2 = m (entry_addr e3) (pd_index a) in
    let e1 = m (entry_addr e2) (pt_index a) in
    Grants write e4
    × Grants write e3
    × ((is_huge e3 ≡ true) ⊎ (Grants write e2 × ((is_huge e2 ≡ true) ⊎ Grants write e1)))

ladder :
    (b4 b3 b2 b1 h3 h2 : Bool)
    → ((if not b4
          then false
          else if not b3
          then false
          else if h3
          then true
          else if not b2
          then false
          else if h2
          then true
          else b1)
        ≡ true)
      ↔ ((b4 ≡ true) × (b3 ≡ true) × ((h3 ≡ true) ⊎ ((b2 ≡ true) × ((h2 ≡ true) ⊎ (b1 ≡ true)))))
ladder b4 b3 b2 b1 h3 h2 = ground arith

tail-map : {A D B C B' C' : Type 0} → (B → B') → (C → C') → A ⊎ (B × (D ⊎ C)) → A ⊎ (B' × (D ⊎ C'))
tail-map g h (inl a) = inl a
tail-map g h (inr (b, inl d)) = inr (g b, inl d)
tail-map g h (inr (b, inr c)) = inr (g b, inr (h c))

module _ (m : Tables) (pml4 : ℕ) (write : Bool) where
  user_page_ok_iff : (a : ℕ) → (user_page_ok m pml4 a write ≡ true) ↔ UserAccess m pml4 write a
  unfolding user_page_ok
  user_page_ok_iff a =
      let e4 : ℕ = m pml4 (pml4_index a) in
      let e3 : ℕ = m (entry_addr e4) (pdpt_index a) in
      let e2 : ℕ = m (entry_addr e3) (pd_index a) in
      let e1 : ℕ = m (entry_addr e2) (pt_index a) in
      let steps =
        ladder (allows write e4) (allows write e3) (allows write e2) (allows write e1) (is_huge e3)
          (is_huge e2) in
      (
        λ h.
            let (a4, a3, low) = steps.0 h in
            (
              (allows_iff write e4).0 a4,
              (allows_iff write e3).0 a3,
              tail-map (allows_iff write e2).0 (allows_iff write e1).0 low,
            ),
        λ (g4, g3, low). steps.1 (
          (allows_iff write e4).1 g4,
          (allows_iff write e3).1 g3,
          tail-map (allows_iff write e2).1 (allows_iff write e1).1 low,
        ),
      )

  -- The indices of an address are those of its page.
  user_page_ok-page_of :
      (a : ℕ) → user_page_ok m pml4 (page_of a) write ≡ user_page_ok m pml4 a write
  unfolding user_page_ok
  user_page_ok-page_of a =
      let i4 : pml4_index (page_of a) ≡ pml4_index a = omega arith in
      let i3 : pdpt_index (page_of a) ≡ pdpt_index a = omega arith in
      let i2 : pd_index (page_of a) ≡ pd_index a = omega arith in
      let i1 : pt_index (page_of a) ≡ pt_index a = omega arith in rw (i4, i3, i2, i1)

  user_pages_ok_sound :
      (left k : ℕ)
      → user_pages_ok left m pml4 (k * 4096) write ≡ true
      → (a : ℕ) → k * 4096 ≤ a
      → a < (k + left) * 4096
      → user_page_ok m pml4 a write ≡ true
  unfolding user_pages_ok
  user_pages_ok_sound zero k h a lo hi = absurd (omega arith)
  user_pages_ok_sound (suc left) k h a lo hi = elim (Bool-cases (leb ((k + 1) * 4096) a)) [
    | inl later ↦
        let next : k * 4096 + 4096 ≡ (k + 1) * 4096 = omega arith in
        user_pages_ok_sound left (k + 1) (rw (← next) (ground arith)) a (ground arith) (omega arith)
    | inr here ↦
        let same : page_of a ≡ k * 4096 = ground arith in
        rw (← user_page_ok-page_of a, same) (ground arith)
  ]

  user_pages_ok_complete :
      (left k : ℕ)
      → ((j : ℕ) → k ≤ j → j < k + left → user_page_ok m pml4 (j * 4096) write ≡ true)
      → user_pages_ok left m pml4 (k * 4096) write ≡ true
  unfolding user_pages_ok
  user_pages_ok_complete zero k h = refl
  user_pages_ok_complete (suc left) k h =
      let next : k * 4096 + 4096 ≡ (k + 1) * 4096 = omega arith in
      rw (next, h k (omega arith) (omega arith))
        (user_pages_ok_complete left (k + 1) (λ j lo hi. h j (omega arith) (omega arith)))

  -- `vmm_user_range_ok`, for a nonempty range given by 64-bit numbers, says yes exactly when the
  -- range does not leave the user half and the page tables grant Ring 3 every byte of it.
  pub user_range_ok_iff :
      (va len : ℕ)
      → va < 2 ^ 64
      → 0 < len
      → len < 2 ^ 64
      → (user_range_ok m pml4 va len write ≡ true) ↔ (
          (va + len ≤ user_space_end)
          × ((a : ℕ) → va ≤ a → a < va + len → UserAccess m pml4 write a))
  unfolding user_range_ok
  user_range_ok_iff va len small pos wide = (
    λ h. (
      ground arith,
      λ a lo hi.
          let fits : va + len ≤ user_space_end = ground arith in
          let end : add64 va len ≡ va + len = omega arith in
          let pages : user_pages_ok ((va + len - page_of va + 4095) / 4096) m pml4 (page_of va)
                write
              ≡ true =
            ground arith in
          (user_page_ok_iff a).0 (
            user_pages_ok_sound ((va + len - page_of va + 4095) / 4096) (va / 4096) pages a
              (omega arith) (omega arith)),
    ),
    λ (fits, all).
        let pages : user_pages_ok ((va + len - page_of va + 4095) / 4096) m pml4 (page_of va) write
            ≡ true =
          user_pages_ok_complete ((va + len - page_of va + 4095) / 4096) (va / 4096) (λ j lo hi.
            elim (Bool-cases (leb va (j * 4096))) [
              | inl in_range ↦
                  (user_page_ok_iff (j * 4096)).1 (all (j * 4096) (ground arith) (omega arith))
              | inr first ↦
                  let same : j * 4096 ≡ page_of va = ground arith in
                  rw (same, user_page_ok-page_of va)
                    ((user_page_ok_iff va).1 (all va (omega arith) (omega arith)))
            ]) in
        let end : add64 va len ≡ va + len = omega arith in rw end (ground arith),
  )

pub user_range_ok-empty :
    (m : Tables) (pml4 va : ℕ) (write : Bool) → user_range_ok m pml4 va 0 write ≡ true
unfolding user_range_ok
user_range_ok-empty m pml4 va write = refl
