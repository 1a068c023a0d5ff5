-- ===== src/Mm/Vmm/User/Walk.antt =====
-- kernel/mm/vmm.c: the walk of vmm_get_phys_in over the user half.
use revinix_os.Base.{
  ℕ, ◌%◌, ◌^◌, ◌<◌, ◌≡◌, refl, ◌≢◌, inl, inr, true, false, ◌==◌, Bool-cases, arith, ◌∙◌, sym,
}
use revinix_os.Mm.Frames.{Allocator}
use revinix_os.Mm.Vmm.{
  Tables, Vmm, entry_addr, is_huge, is_present, pml4_index, pdpt_index, pd_index, pt_index,
  peek_level, get_phys_in,
}
use revinix_os.Mm.Vmm.Entries.{entry_addr_lem}
use revinix_os.Mm.Vmm.Tree.{Extends}
use revinix_os.Mm.Vmm.Map.{peek-present, get_phys_walk}
use revinix_os.Mm.Vmm.User.{IsPrivate, Keeps}

-- a page of the user half
abbrev pub IsPage : ℕ → Type 0
IsPage page = (page % 4096 ≡ 0) × (page < 2 ^ 47)

-- The tables `a3`, `a2` and `a1` on the way to the last entry for `q`.
pub record Route (m : Tables) (rank : ℕ → ℕ) (pml4 q a3 a2 a1 : ℕ) : Type 0 where
  pub on4 : is_present (m pml4 (pml4_index q)) ≡ true
  pub to3 : entry_addr (m pml4 (pml4_index q)) ≡ a3
  pub rank3 : rank a3 ≡ 3
  pub on3 : is_present (m a3 (pdpt_index q)) ≡ true
  pub to2 : entry_addr (m a3 (pdpt_index q)) ≡ a2
  pub rank2 : rank a2 ≡ 2
  pub on2 : is_present (m a2 (pd_index q)) ≡ true
  pub flat : is_huge (m a2 (pd_index q)) ≡ false
  pub to1 : entry_addr (m a2 (pd_index q)) ≡ a1
  pub rank1 : rank a1 ≡ 1

pub Route-Keeps :
    (m m' : Tables) (rank rank' : ℕ → ℕ) (pml4 q a3 a2 a1 : ℕ)
    → rank pml4 ≡ 4
    → Keeps m rank m'
    → Extends rank rank'
    → Route m rank pml4 q a3 a2 a1
    → Route m' rank' pml4 q a3 a2 a1
Route-Keeps m m' rank rank' pml4 q a3 a2 a1 top keeps extends p =
    let r3 = p.rank3 in
    let r2 = p.rank2 in
    let r1 = p.rank1 in
    let e4 = keeps pml4 (pml4_index q) (omega arith) p.on4 in
    let e3 = keeps a3 (pdpt_index q) (omega arith) p.on3 in
    let e2 = keeps a2 (pd_index q) (omega arith) p.on2 in
    record {
      on4 = rw e4 p.on4;
      to3 = rw e4 p.to3;
      rank3 = extends a3 (omega arith) ∙ r3;
      on3 = rw e3 p.on3;
      to2 = rw e3 p.to2;
      rank2 = extends a2 (omega arith) ∙ r2;
      on2 = rw e2 p.on2;
      flat = rw e2 p.flat;
      to1 = rw e2 p.to1;
      rank1 = extends a1 (omega arith) ∙ r1;
    }

entry_addr-whole : (e : ℕ) → (entry_addr e % 4096 ≡ 0) × (entry_addr e < 2 ^ 52)
entry_addr-whole e = (omega (arith, entry_addr_lem e), omega (arith, entry_addr_lem e))

no_first :
    (m : Tables) (pml4 q : ℕ)
    → is_present (m pml4 (pml4_index q)) ≡ false
    → get_phys_in m pml4 q ≡ 0
unfolding get_phys_in peek_level
no_first m pml4 q off = rw off refl

no_second :
    (m : Tables) (pml4 q : ℕ)
    → is_present (m pml4 (pml4_index q)) ≡ true
    → is_present (m (entry_addr (m pml4 (pml4_index q))) (pdpt_index q)) ≡ false
    → get_phys_in m pml4 q ≡ 0
unfolding get_phys_in peek_level
no_second m pml4 q on off = rw (on, off) (ground arith)

no_third :
    (m : Tables) (pml4 q : ℕ)
    → let a3 = entry_addr (m pml4 (pml4_index q)) in
      let a2 = entry_addr (m a3 (pdpt_index q)) in
      is_present (m pml4 (pml4_index q)) ≡ true
      → is_present (m a3 (pdpt_index q)) ≡ true
      → is_present (m a2 (pd_index q)) ≡ false
      → get_phys_in m pml4 q ≡ 0
unfolding get_phys_in peek_level
no_third m pml4 q on on1 off = rw (on, on1, off) (ground arith)

no_fourth :
    (m : Tables) (pml4 q : ℕ)
    → let a3 = entry_addr (m pml4 (pml4_index q)) in
      let a2 = entry_addr (m a3 (pdpt_index q)) in
      let a1 = entry_addr (m a2 (pd_index q)) in
      is_present (m pml4 (pml4_index q)) ≡ true
      → is_present (m a3 (pdpt_index q)) ≡ true
      → is_huge (m a2 (pd_index q)) ≡ false
      → is_present (m a1 (pt_index q)) ≡ false
      → get_phys_in m pml4 q ≡ 0
unfolding get_phys_in peek_level
no_fourth m pml4 q on on1 flat off = rw (on, on1, flat, off) (ground arith)

module _ (A : Allocator) (v : Vmm A.State) (rank : ℕ → ℕ) (pml4 : ℕ) (p : IsPrivate A v rank)
    (top : rank pml4 ≡ 4) where
  -- The frame of a page by the last entry for it.
  pub get_phys-Route :
      (q a3 a2 a1 : ℕ)
      → q % 4096 ≡ 0
      → Route v.tables rank pml4 q a3 a2 a1
      → is_present (v.tables a1 (pt_index q)) ≡ true
      → get_phys_in v.tables pml4 q ≡ entry_addr (v.tables a1 (pt_index q))
  get_phys-Route q a3 a2 a1 start w on1 =
      let (whole, small) = entry_addr-whole (v.tables a1 (pt_index q)) in
      let r3 = w.rank3 in
      let r2 = w.rank2 in
      let null = p.null in
      get_phys_walk v.tables pml4 a3 a2 a1 q
        (peek-present v.tables pml4 (pml4_index q) w.on4 ∙ w.to3)
        (λ e. let z = rw e at r3 in omega arith)
        (peek-present v.tables a3 (pdpt_index q) w.on3 ∙ w.to2)
        (λ e. let z = rw e at r2 in omega arith) w.on2 w.flat w.to1 on1
      ∙ omega arith

  -- A page that is mapped has a path and an entry.
  pub way_there :
      (q : ℕ)
      → q < 2 ^ 47
      → get_phys_in v.tables pml4 q ≢ 0
      → (a3 a2 a1 : ℕ) × Route v.tables rank pml4 q a3 a2 a1
        × (is_present (v.tables a1 (pt_index q)) ≡ true)
  way_there q low there =
      let a3 = entry_addr (v.tables pml4 (pml4_index q)) in
      let a2 = entry_addr (v.tables a3 (pdpt_index q)) in
      let a1 = entry_addr (v.tables a2 (pd_index q)) in
      elim (Bool-cases (is_present (v.tables pml4 (pml4_index q)))) [
        | inr off ↦ absurd (there (no_first v.tables pml4 q off))
        | inl on4 ↦
            let (_, d3) = p.links pml4 (pml4_index q) (ground arith) (omega arith) on4 in
            elim (Bool-cases (is_present (v.tables a3 (pdpt_index q)))) [
              | inr off ↦ absurd (there (no_second v.tables pml4 q on4 off))
              | inl on3 ↦
                  let (_, d2) = p.links a3 (pdpt_index q) (ground arith) (omega arith) on3 in
                  elim (Bool-cases (is_present (v.tables a2 (pd_index q)))) [
                    | inr off ↦ absurd (there (no_third v.tables pml4 q on4 on3 off))
                    | inl on2 ↦
                        let (flat, d1) = p.links a2 (pd_index q) (ground arith) (omega arith) on2 in
                        elim (Bool-cases (is_present (v.tables a1 (pt_index q)))) [
                          | inr off ↦ absurd (there (no_fourth v.tables pml4 q on4 on3 flat off))
                          | inl on1 ↦ (
                            a3,
                            a2,
                            a1,
                            record {
                              on4 = on4;
                              to3 = refl;
                              rank3 = omega arith;
                              on3 = on3;
                              to2 = refl;
                              rank2 = omega arith;
                              on2 = on2;
                              flat = flat;
                              to1 = refl;
                              rank1 = omega arith;
                            },
                            on1,
                          )
                        ]
                  ]
            ]
      ]

  -- Only one page has a given last entry.
  pub same_entry :
      (q r a3 a2 a1 b3 b2 b1 : ℕ)
      → IsPage q
      → IsPage r
      → Route v.tables rank pml4 q a3 a2 a1
      → Route v.tables rank pml4 r b3 b2 b1
      → a1 ≡ b1
      → pt_index q ≡ pt_index r
      → q ≡ r
  same_entry q r a3 a2 a1 b3 b2 b1 (start, low) (start1, low1) w u e1 i1 =
      let r2 = w.rank2 in
      let s2 = u.rank2 in
      let r3 = w.rank3 in
      let s3 = u.rank3 in
      let (e2, i2) =
        p.single a2 (pd_index q) b2 (pd_index r) (ground arith) (ground arith) w.on2 u.on2
          (w.to1 ∙ e1 ∙ sym u.to1) in
      let (e3, i3) =
        p.single a3 (pdpt_index q) b3 (pdpt_index r) (ground arith) (ground arith) w.on3 u.on3
          (w.to2 ∙ e2 ∙ sym u.to2) in
      let (_, i4) =
        p.single pml4 (pml4_index q) pml4 (pml4_index r) (ground arith) (ground arith) w.on4 u.on4
          (w.to3 ∙ e3 ∙ sym u.to3) in
      omega arith

  -- Frames of pages are whole, and no two pages share one.
  pub get_phys-whole : (q : ℕ) → IsPage q → get_phys_in v.tables pml4 q % 4096 ≡ 0
  get_phys-whole q (start, low) = elim (Bool-cases (get_phys_in v.tables pml4 q == 0)) [
    | inl absent ↦ ground arith
    | inr there ↦
        let (a3, a2, a1, w, on1) = way_there q low (ground arith) in
        let e = get_phys-Route q a3 a2 a1 start w on1 in
        let (whole, _) = entry_addr-whole (v.tables a1 (pt_index q)) in omega arith
  ]

  pub get_phys-apart :
      (q r : ℕ)
      → IsPage q
      → IsPage r
      → get_phys_in v.tables pml4 q ≢ 0
      → get_phys_in v.tables pml4 q ≡ get_phys_in v.tables pml4 r
      → q ≡ r
  get_phys-apart q r (start, low) (start1, low1) there same =
      let (a3, a2, a1, w, on) = way_there q low there in
      let (b3, b2, b1, u, on') = way_there r low1 (λ z. there (same ∙ z)) in
      let r1 = w.rank1 in
      let s1 = u.rank1 in
      let (e1, i1) = p.single a1 (pt_index q) b1 (pt_index r) (ground arith) (ground arith) on on' (
        sym (get_phys-Route q a3 a2 a1 start w on)
        ∙ same
        ∙ get_phys-Route r b3 b2 b1 start1 u on') in
      same_entry q r a3 a2 a1 b3 b2 b1 (start, low) (start1, low1) w u e1 i1
