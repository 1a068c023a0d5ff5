-- ===== src/Mm/Vmm/User/Page.antt =====
-- kernel/mm/vmm.c: vmm_map_page_in of a new frame at a page of the user half.
use revinix_os.Base.{ℕ, suc, ◌*◌, ◌<◌, ◌≡◌, ◌≢◌, true, false, arith, ◌∙◌}
use revinix_os.Mm.Frames.{Allocator}
use revinix_os.Mm.Vmm.{Vmm, pml4_index, pdpt_index, pd_index, get_phys_in, next_level, map_page_in}
use revinix_os.Mm.Vmm.Tree.{Extends}
use revinix_os.Mm.Vmm.User.{inside, IsPrivate, Avoids, Keeps, Plenty, Stepped, alloc-IsPrivate}
use revinix_os.Mm.Vmm.User.Walk.{IsPage, Route}
use revinix_os.Mm.Vmm.User.Leaf.{user_flags, Mapped, leaf-Mapped}
use revinix_os.Mm.Vmm.User.Step.{next_level-Stepped}

below_root : (rank : ℕ → ℕ) (t i : ℕ) → 0 < rank t → rank t < 4 → i < 512 → inside rank t i ≡ true
below_root rank t i some_ low small = ground arith

at_root : (rank : ℕ → ℕ) (t i : ℕ) → rank t ≡ 4 → i < 256 → inside rank t i ≡ true
at_root rank t i top small = ground arith

module _ (A : Allocator) where
  -- The state with a new frame mapped at the page, for the user and writable.
  abbrev pub map_new_page : ℕ → Vmm A.State → ℕ → Vmm A.State
  map_new_page pml4 v page =
      let (frame, left) = A.alloc v.frames in
      map_page_in A (record v { frames = left }) pml4 page frame user_flags

  module _ (v : Vmm A.State) (rank : ℕ → ℕ) (o3 o2 o1 : ℕ × Vmm A.State) (l3 l2 l1 : ℕ → ℕ)
      (pml4 page : ℕ) (top : rank pml4 ≡ 4) (d3 : Stepped A v rank pml4 (pml4_index page) o3 l3)
      (d2 : Stepped A o3.1 l3 o3.0 (pdpt_index page) o2 l2)
      (d1 : Stepped A o2.1 l2 o2.0 (pd_index page) o1 l1) where
    three_same : Extends rank l1
    three_same t h =
        let e3 = d3.extends t h in
        let h3 : l3 t ≢ 0 = rw e3 h in
        let e2 = d2.extends t h3 in let h2 : l2 t ≢ 0 = rw e2 h3 in d1.extends t h2 ∙ e2 ∙ e3

    three_kept : Keeps v.tables rank o1.1.tables
    three_kept t i h on =
        let e3 = d3.keeps t i h on in
        let h3 : l3 t ≢ 0 = ground (arith, d3.extends t) in
        let e2 = d2.keeps t i h3 (rw e3 on) in
        let h2 : l2 t ≢ 0 = ground (arith, d2.extends t) in
        d1.keeps t i h2 (rw (e2, e3) on) ∙ e2 ∙ e3

    three_down : Route o1.1.tables l1 pml4 page o3.0 o2.0 o1.0
    three_down =
        let b3 = d3.below in
        let b2 = d2.below in
        let b1 = d1.below in
        let top3 : l3 pml4 ≡ 4 = d3.extends pml4 (omega arith) ∙ top in
        let top2 : l2 pml4 ≡ 4 = d2.extends pml4 (omega arith) ∙ top3 in
        let r3 : l2 o3.0 ≡ 3 = d2.extends o3.0 (omega arith) ∙ omega arith in
        let r3' : l1 o3.0 ≡ 3 = d1.extends o3.0 (omega arith) ∙ r3 in
        let r2' : l1 o2.0 ≡ 2 = d1.extends o2.0 (omega arith) ∙ omega arith in
        let e4 = d2.keeps pml4 (pml4_index page) (omega arith) d3.present in
        let e4' = d1.keeps pml4 (pml4_index page) (omega arith) (rw e4 d3.present) in
        let e3 = d1.keeps o3.0 (pdpt_index page) (omega arith) d2.present in
        record {
          on4 = rw (e4', e4) d3.present;
          to3 = rw (e4', e4) d3.entry;
          rank3 = r3';
          on3 = rw e3 d2.present;
          to2 = rw e3 d2.entry;
          rank2 = r2';
          on2 = d1.present;
          flat = d1.small;
          to1 = d1.entry;
          rank1 = omega arith;
        }

  -- In the user half, with frames left, a page that is not mapped gets the new frame; pages that were
  -- mapped keep theirs.
  pub map_new_page-Mapped :
      (v : Vmm A.State) (rank : ℕ → ℕ) (pml4 page n : ℕ)
      → IsPrivate A v rank
      → rank pml4 ≡ 4
      → IsPage page
      → get_phys_in v.tables pml4 page ≡ 0
      → Plenty A v.frames (suc (suc (suc (suc n))))
      → (rank' : ℕ → ℕ) × Mapped A v rank pml4 page (map_new_page pml4 v page) rank'
  unfolding map_page_in Plenty
  map_new_page-Mapped v rank pml4 page n p top is_page absent (got, enough) =
      let (f, at, small) = A.alloc_aligned v.frames p.valid in
      let low = is_page.1 in
      let v0 : Vmm A.State = record v { frames = (A.alloc v.frames).1 } in
      let fresh = A.alloc_fresh v.frames p.valid got in
      let unused : A.used v.frames (f * 4096) ≡ false = rw at at fresh in
      let used0 : A.used v0.frames (f * 4096) ≡ true =
        ground (arith, A.alloc_used v.frames (f * 4096) p.valid got) in
      let avoids0 : Avoids v0.tables rank (f * 4096) =
        λ a b h on e. let taken = rw e at (p.taken a b h on) in ground (arith, unused, taken) in
      let o3 : ℕ × Vmm A.State = next_level A v0 pml4 (pml4_index page) true in
      let o2 : ℕ × Vmm A.State = next_level A o3.1 o3.0 (pdpt_index page) true in
      let o1 : ℕ × Vmm A.State = next_level A o2.1 o2.0 (pd_index page) true in
      let (l3, d3) =
        next_level-Stepped A v0 rank pml4 (pml4_index page) (suc (suc n))
          (alloc-IsPrivate A v rank p got) (at_root rank pml4 (pml4_index page) top (omega arith))
          (omega arith) enough in
      let b3 = d3.below in
      let (l2, d2) =
        next_level-Stepped A o3.1 l3 o3.0 (pdpt_index page) (suc n) d3.private
          (below_root l3 o3.0 (pdpt_index page) (omega arith) (omega arith) (omega arith))
          (omega arith) (d3.plenty (suc (suc n)) enough) in
      let b2 = d2.below in
      let (l1, d1) =
        next_level-Stepped A o2.1 l2 o2.0 (pd_index page) n d2.private
          (below_root l2 o2.0 (pd_index page) (omega arith) (omega arith) (omega arith))
          (omega arith) (d2.plenty (suc n) (d3.plenty (suc (suc n)) enough)) in
      let (avoids3, used3) = d3.spares (f * 4096) used0 avoids0 in
      let (avoids2, used2) = d2.spares (f * 4096) used3 avoids3 in
      let (avoids1, used1) = d1.spares (f * 4096) used2 avoids2 in
      (
        l1,
        rw at (
            leaf-Mapped A v o1.1 rank l1 pml4 page o3.0 o2.0 o1.0 f p top is_page absent at small
              d1.private (three_same v0 rank o3 o2 o1 l3 l2 l1 pml4 page top d3 d2 d1)
              (three_kept v0 rank o3 o2 o1 l3 l2 l1 pml4 page top d3 d2 d1)
              (three_down v0 rank o3 o2 o1 l3 l2 l1 pml4 page top d3 d2 d1) used1 avoids1
              (λ k all. d1.plenty k (d2.plenty (suc k) (d3.plenty (suc (suc k)) all.1)))),
      )
