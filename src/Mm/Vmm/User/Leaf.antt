-- ===== src/Mm/Vmm/User/Leaf.antt =====
-- kernel/mm/vmm.c: the last entry of vmm_map_page_in for a page of the user half.
use revinix_os.Base.{
  ℕ, suc, ◌*◌, ◌^◌, ◌<◌, ◌≡◌, ◌≢◌, ◌⊎◌, inl, inr, true, ◌==◌, ◌&&◌, Bool-cases, arith, ap, ◌∙◌, sym,
  bit_or,
}
use revinix_os.Mm.Frames.{Allocator}
use revinix_os.Mm.Vmm.{
  Tables, Vmm, entry_addr, pml4_index, pdpt_index, pd_index, pt_index, page_of, page_writable,
  page_user, get_phys_in, store,
}
use revinix_os.Mm.Vmm.Tree.{Extends}
use revinix_os.Mm.Vmm.Map.{leaf, leaf_lem, store_other, store_self}
use revinix_os.Mm.Vmm.User.{IsPrivate, Avoids, Keeps, Plenty}
use revinix_os.Mm.Vmm.User.Walk.{IsPage, Route, Route-Keeps, get_phys-Route, way_there, same_entry}

abbrev pub user_flags : ℕ
user_flags = bit_or page_writable page_user

flags_low : user_flags < 4096
flags_low = omega arith

-- an entry after a write is the new one or one from before
stored_entry :
    (m : Tables) (t i e a b : ℕ)
    → ((a ≡ t) × (b ≡ i) × (store m t i e a b ≡ e)) ⊎ (store m t i e a b ≡ m a b)
unfolding store
stored_entry m t i e a b = elim (Bool-cases (a == t && b == i)) [
  | inl here ↦ inl (ground arith, ground arith, ground arith)
  | inr other ↦ inr (ground arith)
]

module _ (A : Allocator) where
  -- A new last entry that leads to a frame of its own.
  leaf-IsPrivate :
      (v : Vmm A.State) (rank : ℕ → ℕ) (t i e : ℕ)
      → IsPrivate A v rank
      → rank t ≡ 1
      → A.used v.frames (entry_addr e) ≡ true
      → Avoids v.tables rank (entry_addr e)
      → IsPrivate A (record v { tables = store v.tables t i e }) rank
  leaf-IsPrivate v rank t i e p one used avoids = record {
    valid = p.valid;
    null = p.null;
    owned = p.owned;
    links = λ a b h up.
        let ne : a ≢ t = ground arith in
        rw (store_other v.tables t i e a b (inl ne)) (p.links a b h up);
    taken = λ a b h on. elim (stored_entry v.tables t i e a b) [
      | inl (ea, eb, new) ↦ rw new used
      | inr old ↦ rw old (p.taken a b h (rw old at on))
    ];
    single = λ a b c d h k on on1 same. elim (stored_entry v.tables t i e a b) [
      | inl (ea, eb, new) ↦ elim (stored_entry v.tables t i e c d) [
        | inl (ec, ed, new') ↦ (ea ∙ sym ec, eb ∙ sym ed)
        | inr old' ↦ absurd (
            avoids c d k (rw old' at on1) (sym (ap entry_addr old') ∙ sym same ∙ ap entry_addr new))
      ]
      | inr old ↦ elim (stored_entry v.tables t i e c d) [
        | inl (ec, ed, new') ↦
            absurd
              (avoids a b h (rw old at on) (sym (ap entry_addr old) ∙ same ∙ ap entry_addr new'))
        | inr old' ↦
            p.single a b c d h k (rw old at on) (rw old' at on1)
              (sym (ap entry_addr old) ∙ same ∙ ap entry_addr old')
      ]
    ];
  }

  -- The page tables with the new page, and what the pages that were mapped before see of it.
  pub record Mapped (v : Vmm A.State) (rank : ℕ → ℕ) (pml4 page : ℕ) (v' : Vmm A.State)
      (rank' : ℕ → ℕ) : Type 0 where
    pub private : IsPrivate A v' rank'
    pub top : rank' pml4 ≡ 4
    pub phys : get_phys_in v'.tables pml4 page ≡ (A.alloc v.frames).0
    pub others :
        (q : ℕ)
        → IsPage q
        → get_phys_in v.tables pml4 q ≢ 0
        → get_phys_in v'.tables pml4 q ≡ get_phys_in v.tables pml4 q
    pub plenty : (n : ℕ) → Plenty A v.frames (suc (suc (suc (suc n)))) → Plenty A v'.frames n

  -- The last write of `vmm_map_page_in`, at a table `a1` on the path of the page.
  pub leaf-Mapped :
      (v w : Vmm A.State) (rank ranked : ℕ → ℕ) (pml4 page a3 a2 a1 f : ℕ)
      → IsPrivate A v rank
      → rank pml4 ≡ 4
      → IsPage page
      → get_phys_in v.tables pml4 page ≡ 0
      → (A.alloc v.frames).0 ≡ f * 4096
      → f < 2 ^ 40
      → IsPrivate A w ranked
      → Extends rank ranked
      → Keeps v.tables rank w.tables
      → Route w.tables ranked pml4 page a3 a2 a1
      → A.used w.frames (f * 4096) ≡ true
      → Avoids w.tables ranked (f * 4096)
      → ((n : ℕ) → Plenty A v.frames (suc (suc (suc (suc n)))) → Plenty A w.frames n)
      → Mapped v rank pml4 page
          (record w { tables = store w.tables a1 (pt_index page) (leaf (f * 4096) user_flags) })
          ranked
  leaf-Mapped v w rank ranked pml4 page a3 a2 a1 f p top is_page absent at small p' extends keeps
        path used avoids plenty =
      let e : ℕ = leaf (f * 4096) user_flags in
      let m : Tables = store w.tables a1 (pt_index page) e in
      let (address, on) = leaf_lem (f * 4096) user_flags (omega arith) flags_low in
      let whole : page_of (f * 4096) ≡ f * 4096 = omega arith in
      let addr : entry_addr e ≡ f * 4096 = address ∙ whole in
      let private : IsPrivate A (record w { tables = m }) ranked =
        leaf-IsPrivate w ranked a1 (pt_index page) e p' path.rank1 (rw addr used)
          (rw addr avoids) in
      let top' : ranked pml4 ≡ 4 = extends pml4 (omega arith) ∙ top in
      let r1 = path.rank1 in
      let new : m a1 (pt_index page) ≡ e = store_self w.tables a1 (pt_index page) e in
      let uppers : (b3 b2 b1 q : ℕ)
          → Route w.tables ranked pml4 q b3 b2 b1
          → Route m ranked pml4 q b3 b2 b1 =
        λ b3 b2 b1 q u. upper_path w.tables ranked pml4 q b3 b2 b1 a1 (pt_index page) e top' r1 u in
      record {
        private = private;
        top = top';
        phys =
            get_phys-Route A (record w { tables = m }) ranked pml4 private top' page a3 a2 a1
              is_page.0 (uppers a3 a2 a1 page path) (rw new on)
            ∙ ap entry_addr new
            ∙ addr
            ∙ sym at;
        others = λ q is_q there.
            let (b3, b2, b1, u, on_q) = way_there A v rank pml4 p top q is_q.1 there in
            let u' =
              Route-Keeps v.tables w.tables rank ranked pml4 q b3 b2 b1 top keeps extends u in
            let s1 = u.rank1 in
            let kept : w.tables b1 (pt_index q) ≡ v.tables b1 (pt_index q) =
              keeps b1 (pt_index q) (omega arith) on_q in
            let far : (b1 ≢ a1) ⊎ (pt_index q ≢ pt_index page) =
              elim (Bool-cases (b1 == a1 && pt_index q == pt_index page)) [
                | inl both ↦
                    let same : q ≡ page =
                      same_entry A w ranked pml4 p' top' q page b3 b2 b1 a3 a2 a1 is_q is_page u'
                        path (ground arith) (ground arith) in
                    absurd (there (ap (get_phys_in v.tables pml4) same ∙ absent))
                | inr not_both ↦ ground arith
              ] in
            let entry : m b1 (pt_index q) ≡ v.tables b1 (pt_index q) =
              store_other w.tables a1 (pt_index page) e b1 (pt_index q) far ∙ kept in
            get_phys-Route A (record w { tables = m }) ranked pml4 private top' q b3 b2 b1 is_q.0
              (uppers b3 b2 b1 q u') (rw entry on_q)
            ∙ ap entry_addr entry
            ∙ sym (get_phys-Route A v rank pml4 p top q b3 b2 b1 is_q.0 u on_q);
        plenty = plenty;
      }
    where
      upper_path :
          (m : Tables) (rank : ℕ → ℕ) (pml4 q a3 a2 a1 t i e : ℕ)
          → rank pml4 ≡ 4
          → rank t ≡ 1
          → Route m rank pml4 q a3 a2 a1
          → Route (store m t i e) rank pml4 q a3 a2 a1
      upper_path m rank pml4 q a3 a2 a1 t i e top one u =
          let r3 = u.rank3 in
          let r2 = u.rank2 in
          let e4 = store_other m t i e pml4 (pml4_index q) (inl (λ c. omega (arith, ap rank c))) in
          let e3 = store_other m t i e a3 (pdpt_index q) (inl (λ c. omega (arith, ap rank c))) in
          let e2 = store_other m t i e a2 (pd_index q) (inl (λ c. omega (arith, ap rank c))) in
          record {
            on4 = rw e4 u.on4;
            to3 = rw e4 u.to3;
            rank3 = u.rank3;
            on3 = rw e3 u.on3;
            to2 = rw e3 u.to2;
            rank2 = u.rank2;
            on2 = rw e2 u.on2;
            flat = rw e2 u.flat;
            to1 = rw e2 u.to1;
            rank1 = u.rank1;
          }
