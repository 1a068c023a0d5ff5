-- ===== src/Mm/Vmm/Map.antt =====
-- A translation after `vmm_map_page_in`.
use revinix_os.Base.{
  ℕ, ◌+◌, ◌/◌, ◌%◌, ◌^◌, ◌<◌, ◌≡◌, ap, ◌∙◌, ◌≢◌, ◌⊎◌, inl, bit_or, true, false, add64, arith,
  has_bit_lem,
}
use revinix_os.Mm.Frames.{Allocator}
use revinix_os.Mm.Vmm.{
  Tables, Vmm, entry_addr, pml4_index, pdpt_index, pd_index, pt_index, is_huge, is_present, page_of,
  peek_level, get_phys_in, store, next_level, map_page_in,
}
use revinix_os.Mm.Vmm.Entries.{entry_addr-or, entry_addr-frame, has_bit-or}
use revinix_os.Mm.Vmm.Tree.{IsTree, Extends, Descended, next_level-Descended}

pub peek-present :
    (m : Tables) (t i : ℕ) → is_present (m t i) ≡ true → peek_level m t i ≡ entry_addr (m t i)
unfolding peek_level
peek-present m t i on = rw on

-- The walk of `vmm_get_phys_in` along four present entries.
pub get_phys_walk :
    (m : Tables) (pml4 pdpt pd pt virt : ℕ)
    → peek_level m pml4 (pml4_index virt) ≡ pdpt
    → pdpt ≢ 0
    → peek_level m pdpt (pdpt_index virt) ≡ pd
    → pd ≢ 0
    → is_present (m pd (pd_index virt)) ≡ true
    → is_huge (m pd (pd_index virt)) ≡ false
    → entry_addr (m pd (pd_index virt)) ≡ pt
    → is_present (m pt (pt_index virt)) ≡ true
    → get_phys_in m pml4 virt ≡ add64 (entry_addr (m pt (pt_index virt))) (virt % 4096)
unfolding get_phys_in
get_phys_walk m pml4 pdpt pd pt virt e3 n3 e2 n2 on flat e1 on1 = rw (e3, e2, e1) (ground arith)

abbrev pub leaf : ℕ → ℕ → ℕ
leaf phys flags = bit_or (bit_or (page_of phys) flags) 1

pub leaf_lem :
    (phys flags : ℕ)
    → phys < 2 ^ 52
    → flags < 4096
    → (entry_addr (leaf phys flags) ≡ page_of phys) × (is_present (leaf phys flags) ≡ true)
leaf_lem phys flags small low = (
  rw
      (
        entry_addr-or (bit_or (page_of phys) flags) 1 (omega arith),
        entry_addr-or (page_of phys) flags low,
      )
      (entry_addr-frame (phys / 4096) (omega arith)),
  rw (has_bit-or, one-present) (ground arith),
)
  where
    one-present : is_present 1 ≡ true
    one-present = ground (arith, has_bit_lem 1 0)

pub store_other : (m : Tables) (t i e a b : ℕ) → (a ≢ t) ⊎ (b ≢ i) → store m t i e a b ≡ m a b
unfolding store
store_other m t i e a b other = ground arith

pub store_self : (m : Tables) (t i e : ℕ) → store m t i e t i ≡ e
unfolding store
store_self m t i e = ground arith

ne_of_level : (l : ℕ → ℕ) (a b : ℕ) → l a ≢ l b → a ≢ b
ne_of_level l a b h = ground arith

module _ (A : Allocator) where
  -- Writes below level 2 leave the tree a tree.
  IsTree-leaf :
      (v : Vmm A.State) (level : ℕ → ℕ) (t i e : ℕ)
      → IsTree A v level
      → level t ≡ 1
      → IsTree A (record v { tables = store v.tables t i e }) level
  IsTree-leaf v level t i e tree one = record {
    valid = tree.valid;
    null = tree.null;
    owned = tree.owned;
    links = λ a b up in_t.
        let ne : a ≢ t = ground arith in
        rw (store_other v.tables t i e a b (inl ne)) (tree.links a b up in_t);
    plain = λ a b up in_t.
        let ne : a ≢ t = ground arith in
        rw (store_other v.tables t i e a b (inl ne)) (tree.plain a b up in_t);
  }

  module _ (v : Vmm A.State) (level : ℕ → ℕ) (pml4 virt phys flags : ℕ) (top : level pml4 ≡ 4)
      {o3 o2 o1 : ℕ × Vmm A.State} {l3 l2 l1 : ℕ → ℕ}
      (d3 : Descended A v level pml4 (pml4_index virt) o3 l3)
      (d2 : Descended A o3.1 l3 o3.0 (pdpt_index virt) o2 l2)
      (d1 : Descended A o2.1 l2 o2.0 (pd_index virt) o1 l1) where
    mapped : Tables
    mapped = store o1.1.tables o1.0 (pt_index virt) (leaf phys flags)

    -- the levels of the four tables on the path, once all are there
    path_levels :
        (l1 pml4 ≡ 4)
        × (l1 o3.0 ≡ 3)
        × (l1 o2.0 ≡ 2)
        × (l1 o1.0 ≡ 1)
        × (l2 pml4 ≡ 4)
        × (l2 o3.0 ≡ 3)
        × (l3 pml4 ≡ 4)
    path_levels = ground (
      arith,
      d3.below,
      d2.below,
      d1.below,
      d3.extends pml4,
      d2.extends pml4,
      d2.extends o3.0,
      d1.extends pml4,
      d1.extends o3.0,
      d1.extends o2.0,
    )

    entry4 : mapped pml4 (pml4_index virt) ≡ o3.1.tables pml4 (pml4_index virt)
    unfolding mapped
    entry4 =
        store_other o1.1.tables o1.0 (pt_index virt) (leaf phys flags) pml4 (pml4_index virt)
          (inl (ne_of_level l1 pml4 o1.0 (omega (arith, path_levels))))
        ∙ d1.same pml4 (pml4_index virt) (omega (arith, path_levels))
            (inl (ne_of_level l1 pml4 o2.0 (omega (arith, path_levels))))
        ∙ d2.same pml4 (pml4_index virt) (omega (arith, path_levels))
            (inl (ne_of_level l1 pml4 o3.0 (omega (arith, path_levels))))

    entry3 : mapped o3.0 (pdpt_index virt) ≡ o2.1.tables o3.0 (pdpt_index virt)
    unfolding mapped
    entry3 =
        store_other o1.1.tables o1.0 (pt_index virt) (leaf phys flags) o3.0 (pdpt_index virt)
          (inl (ne_of_level l1 o3.0 o1.0 (omega (arith, path_levels))))
        ∙ d1.same o3.0 (pdpt_index virt) (omega (arith, path_levels))
            (inl (ne_of_level l1 o3.0 o2.0 (omega (arith, path_levels))))

    entry2 : mapped o2.0 (pd_index virt) ≡ o1.1.tables o2.0 (pd_index virt)
    unfolding mapped
    entry2 =
        store_other o1.1.tables o1.0 (pt_index virt) (leaf phys flags) o2.0 (pd_index virt)
          (inl (ne_of_level l1 o2.0 o1.0 (omega (arith, path_levels))))

    mapped_phys :
        o3.0 ≢ 0
        → o2.0 ≢ 0
        → phys < 2 ^ 52
        → flags < 4096
        → get_phys_in mapped pml4 virt ≡ page_of phys + virt % 4096
    mapped_phys n3 n2 small low =
        let on4 : is_present (mapped pml4 (pml4_index virt)) ≡ true = rw entry4 d3.present in
        let on3 : is_present (mapped o3.0 (pdpt_index virt)) ≡ true = rw entry3 d2.present in
        let on2 : is_present (mapped o2.0 (pd_index virt)) ≡ true = rw entry2 d1.present in
        let flat : is_huge (mapped o2.0 (pd_index virt)) ≡ false = rw entry2 d1.small in
        let entry1 : mapped o1.0 (pt_index virt) ≡ leaf phys flags =
          unfold mapped in store_self o1.1.tables o1.0 (pt_index virt) (leaf phys flags) in
        let (address, on) = leaf_lem phys flags small low in
        get_phys_walk mapped pml4 o3.0 o2.0 o1.0 virt
          (peek-present mapped pml4 (pml4_index virt) on4 ∙ ap entry_addr entry4 ∙ d3.entry) n3
          (peek-present mapped o3.0 (pdpt_index virt) on3 ∙ ap entry_addr entry3 ∙ d2.entry) n2 on2
          flat (ap entry_addr entry2 ∙ d1.entry) (rw entry1 on)
        ∙ rw (entry1, address) (omega arith)

  -- After `vmm_map_page_in` of a physical address below 2^52 with flags below 4096, on a tree of page
  -- tables with the PML4 at level 4, where no allocation fails and no 2 MB page is in the way, the
  -- mapped address translates to the physical page at the same offset. The tables are a tree still, in
  -- which every table has kept its level.
  pub get_phys-map_page :
      (v : Vmm A.State) (level : ℕ → ℕ) (pml4 virt phys flags : ℕ)
      → IsTree A v level
      → level pml4 ≡ 4
      → phys < 2 ^ 52
      → flags < 4096
      → let (pdpt, v1) = next_level A v pml4 (pml4_index virt) true in
        let (pd, v2) = next_level A v1 pdpt (pdpt_index virt) true in
        let (pt, v3) = next_level A v2 pd (pd_index virt) true in
        pdpt ≢ 0
        → pd ≢ 0
        → pt ≢ 0
        → is_huge (v2.tables pd (pd_index virt)) ≡ false
        → let v' = map_page_in A v pml4 virt phys flags in
          (get_phys_in v'.tables pml4 virt ≡ page_of phys + virt % 4096)
          × ((level' : ℕ → ℕ) × IsTree A v' level' × (level' pml4 ≡ 4) × Extends level level')
  unfolding map_page_in
  get_phys-map_page v level pml4 virt phys flags tree top small low n3 n2 n1 flat =
      let o3 : ℕ × Vmm A.State = next_level A v pml4 (pml4_index virt) true in
      let o2 : ℕ × Vmm A.State = next_level A o3.1 o3.0 (pdpt_index virt) true in
      let o1 : ℕ × Vmm A.State = next_level A o2.1 o2.0 (pd_index virt) true in
      let (l3, d3) =
        next_level-Descended A v level pml4 (pml4_index virt) tree (omega arith) (omega arith)
          (tree.plain pml4 (pml4_index virt) (omega arith) (omega arith)) n3 in
      let (l2, d2) =
        next_level-Descended A o3.1 l3 o3.0 (pdpt_index virt) d3.tree (omega (arith, d3.below))
          (omega arith)
          (d3.tree.plain o3.0 (pdpt_index virt) (omega (arith, d3.below)) (omega arith)) n2 in
      let (l1, d1) =
        next_level-Descended A o2.1 l2 o2.0 (pd_index virt) d2.tree
          (omega (arith, d2.below, d3.below)) (omega arith) (λ _. flat) n1 in
      let one : l1 o1.0 ≡ 1 =
        omega (arith, path_levels v level pml4 virt phys flags top d3 d2 d1) in
      (
        unfold mapped in mapped_phys v level pml4 virt phys flags top d3 d2 d1 n3 n2 small low,
        (
          l1,
          IsTree-leaf o1.1 l1 o1.0 (pt_index virt) (leaf phys flags) d1.tree one,
          omega (arith, path_levels v level pml4 virt phys flags top d3 d2 d1),
          λ t h. ground (arith, d3.extends t, d2.extends t, d1.extends t),
        ),
      )
