-- ===== src/Mm/Vmm/User/Step.antt =====
-- kernel/mm/vmm.c: `next_level` in the user half.
use revinix_os.Base.{
  ℕ, suc, ◌-◌, ◌*◌, ◌^◌, ◌≤◌, ◌<◌, ◌≡◌, refl, ◌≢◌, ◌⊎◌, inl, inr, true, false, ◌&&◌, ◌==◌,
  Bool-cases, update, arith, ap, ◌∙◌, sym,
}
use revinix_os.Mm.Frames.{Allocator}
use revinix_os.Mm.Vmm.{Tables, Vmm, entry_addr, is_present, next_level}
use revinix_os.Mm.Vmm.Entries.{table_entry, table_entry_lem}
use revinix_os.Mm.Vmm.Tree.{grown, grown_lem, next_level-present, next_level-absent, zero-absent}
use revinix_os.Mm.Vmm.User.{inside, IsPrivate, Plenty, fewer, Stepped}

module _ (A : Allocator) where
  module _ (v : Vmm A.State) (rank : ℕ → ℕ) (t i f : ℕ) (p : IsPrivate A v rank) (two : 2 ≤ rank t)
      (at : (A.alloc v.frames).0 ≡ f * 4096) (small : f < 2 ^ 40)
      (got : (A.alloc v.frames).0 ≢ 0) where
    abbrev after : Tables
    after = grown A v t i (f * 4096)

    abbrev ranked : ℕ → ℕ
    ranked = update rank (f * 4096) (rank t - 1)

    unused : A.used v.frames (f * 4096) ≡ false
    unused = rw at at (A.alloc_fresh v.frames p.valid got)

    no_rank : rank (f * 4096) ≡ 0
    no_rank = ground (arith, p.owned (f * 4096), unused)

    stays : (a : ℕ) → A.used v.frames a ≡ true → A.used (A.alloc v.frames).1 a ≡ true
    stays a on = ground (arith, A.alloc_used v.frames a p.valid got, on)

    -- An entry that is present afterwards is the new one or one from before.
    entry_cases :
        (a b : ℕ)
        → inside ranked a b ≡ true
        → is_present (after a b) ≡ true
        → ((a ≡ t) × (b ≡ i) × (after a b ≡ table_entry (f * 4096)))
          ⊎ ((after a b ≡ v.tables a b)
              × (inside rank a b ≡ true)
              × (rank a ≡ ranked a)
              × (is_present (v.tables a b) ≡ true)
              × (A.used v.frames (entry_addr (v.tables a b)) ≡ true))
    unfolding update
    entry_cases a b h on = elim (Bool-cases (a == t && b == i)) [
      | inl here ↦
          inl (ground arith, ground arith, ground (arith, grown_lem A v t i (f * 4096) a b))
      | inr other ↦ elim (Bool-cases (a == f * 4096)) [
        | inl new ↦ absurd (ground (arith, grown_lem A v t i (f * 4096) a b, zero-absent, no_rank))
        | inr old ↦
            let same : after a b ≡ v.tables a b =
              ground (arith, grown_lem A v t i (f * 4096) a b) in
            let h' : inside rank a b ≡ true = ground arith in
            let on' = rw same at on in inr (same, h', ground arith, on', p.taken a b h' on')
      ]
    ]

    grown_half :
        inside rank t i ≡ true
        → IsPrivate A (record v { tables = after; frames = (A.alloc v.frames).1 }) ranked
    unfolding update
    grown_half here = record {
      valid = A.alloc_valid v.frames p.valid;
      null = ground (arith, p.null);
      owned = λ a h. elim (Bool-cases (a == f * 4096)) [
        | inl new ↦ ground (arith, A.alloc_used v.frames a p.valid got)
        | inr old ↦ stays a (p.owned a (ground arith))
      ];
      links = λ a b h up on. elim (entry_cases a b h on) [
        | inl (ea, eb, e) ↦
            let (address, _, flat) = table_entry_lem f small in
            rw e (flat, rw address (ground (arith, no_rank)))
        | inr (e, h', same, on', used) ↦
            let (flat, down) = p.links a b h' (omega arith) on' in
            rw e (flat, ground (arith, no_rank))
      ];
      taken = λ a b h on. elim (entry_cases a b h on) [
        | inl (ea, eb, e) ↦
            let (address, _, _) = table_entry_lem f small in
            rw (e, address) (ground (arith, A.alloc_used v.frames (f * 4096) p.valid got))
        | inr (e, h', same, on', used) ↦ rw e (stays (entry_addr (v.tables a b)) used)
      ];
      single = λ a b c d h k on on1 same. elim (entry_cases a b h on) [
        | inl (ea, eb, e) ↦ elim (entry_cases c d k on1) [
          | inl (ec, ed, e') ↦ (ea ∙ sym ec, eb ∙ sym ed)
          | inr (e', k', _, _, used) ↦ absurd (
              clash (v.tables c d) used
                (sym (ap entry_addr e') ∙ sym same ∙ ap entry_addr e ∙ (table_entry_lem f small).0))
        ]
        | inr (e, h', _, on', used) ↦ elim (entry_cases c d k on1) [
          | inl (ec, ed, e') ↦ absurd (
              clash (v.tables a b) used
                (sym (ap entry_addr e) ∙ same ∙ ap entry_addr e' ∙ (table_entry_lem f small).0))
          | inr (e', k', _, on1', _) ↦
              p.single a b c d h' k' on' on1' (sym (ap entry_addr e) ∙ same ∙ ap entry_addr e')
        ]
      ];
    }
      where
        clash : (x : ℕ) → A.used v.frames (entry_addr x) ≡ true → entry_addr x ≢ f * 4096
        clash x used e = let used' = rw e at used in ground (arith, unused, used')

    absent-Stepped :
        inside rank t i ≡ true
        → is_present (v.tables t i) ≡ false
        → Stepped A v rank t i
            (f * 4096, record v { tables = after; frames = (A.alloc v.frames).1 })
            ranked
    unfolding update Plenty
    absent-Stepped here off =
        let (address, on, flat) = table_entry_lem f small in
        let entry : after t i ≡ table_entry (f * 4096) =
          ground (arith, grown_lem A v t i (f * 4096) t i) in
        record {
          private = grown_half here;
          extends = λ a h. ground (arith, no_rank);
          below = ground arith;
          entry = rw entry address;
          present = rw entry on;
          small = rw entry flat;
          keeps = λ a b h on'. ground (arith, grown_lem A v t i (f * 4096) a b, no_rank, off);
          spares = λ g used avoids. (
            (λ a b h on' e. elim (entry_cases a b h on') [
              | inl (ea, eb, new) ↦
                  let same : g ≡ f * 4096 = sym e ∙ ap entry_addr new ∙ address in
                  let used' = rw same at used in ground (arith, unused, used')
              | inr (old, h', _, on1, _) ↦ avoids a b h' on1 (sym (ap entry_addr old) ∙ e)
            ]),
            stays g used,
          );
          plenty = λ n enough. enough.1;
        }

  present-Stepped :
      (v : Vmm A.State) (rank : ℕ → ℕ) (t i : ℕ)
      → IsPrivate A v rank
      → inside rank t i ≡ true
      → 2 ≤ rank t
      → is_present (v.tables t i) ≡ true
      → Stepped A v rank t i (entry_addr (v.tables t i), v) rank
  present-Stepped v rank t i p here two on =
      let (flat, down) = p.links t i here two on in
      record {
        private = p;
        extends = λ a h. refl;
        below = down;
        entry = refl;
        present = on;
        small = flat;
        keeps = λ a b h on'. refl;
        spares = λ g used avoids. (avoids, used);
        plenty = λ n enough. fewer A n v.frames enough;
      }

  -- `next_level` with `create` in the user half, with frames left, returns the table below.
  pub next_level-Stepped :
      (v : Vmm A.State) (rank : ℕ → ℕ) (t i n : ℕ)
      → IsPrivate A v rank
      → inside rank t i ≡ true
      → 2 ≤ rank t
      → Plenty A v.frames (suc n)
      → (rank' : ℕ → ℕ) × Stepped A v rank t i (next_level A v t i true) rank'
  unfolding Plenty
  next_level-Stepped v rank t i n p here two enough =
      elim (Bool-cases (is_present (v.tables t i))) [
        | inl on ↦ (
          rank,
          rw (next_level-present A v t i true on) (present-Stepped v rank t i p here two on),
        )
        | inr off ↦
            let (f, at, small) = A.alloc_aligned v.frames p.valid in
            let entry : grown A v t i (f * 4096) t i ≡ table_entry (f * 4096) =
              ground (arith, grown_lem A v t i (f * 4096) t i) in
            let address : entry_addr (table_entry (f * 4096)) ≡ f * 4096 =
              (table_entry_lem f small).0 in
            (
              update rank (f * 4096) (rank t - 1),
              rw (next_level-absent A v t i off, at, entry, address)
                  (absent-Stepped v rank t i f p two at small enough.0 here off),
            )
      ]
