-- ===== src/Mm/Vmm/Tree.antt =====
-- Page tables as a tree of levels, and `next_level` on it.
use revinix_os.Base.{
  ℕ, zero, suc, ◌+◌, ◌-◌, ◌*◌, ◌^◌, ◌≤◌, ◌<◌, ◌≡◌, refl, ◌≢◌, ◌⊎◌, inl, inr, Bool, true, false,
  ◌&&◌, ltb, leb, ◌==◌, if◌then◌else◌, Bool-cases, update, has_bit, arith,
}
use revinix_os.Mm.Vmm.Entries.{table_entry, table_entry_lem}
use revinix_os.Mm.Frames.{Allocator}
use revinix_os.Mm.Vmm.{
  Tables, Vmm, entry_addr, is_huge, is_present, store, zero_from, zero_table, next_level,
}

pub zero_from_lem :
    (left i t : ℕ) (m : Tables) (a b : ℕ)
    → zero_from left i t m a b ≡ (if a == t && (leb i b && ltb b (i + left)) then 0 else m a b)
unfolding zero_from store
zero_from_lem zero i t m a b = ground arith
zero_from_lem (suc left) i t m a b =
    ground (arith, zero_from_lem left (i + 1) t (store m t i 0) a b)

pub zero-absent : is_present 0 ≡ false
unfolding has_bit
zero-absent = refl

-- A level for every page table: 4 for a PML4 down to 1 for a page table, 0 for what is no table.
-- Entries that are present and not huge point one level down, huge ones stand at level 2 or 1, and
-- tables lie in used frames.
pub record IsTree (A : Allocator) (v : Vmm A.State) (level : ℕ → ℕ) : Type 0 where
  pub valid : A.Valid v.frames
  pub null : level 0 ≡ 0
  pub owned : (t : ℕ) → level t ≢ 0 → A.used v.frames t ≡ true
  pub links :
      (t i : ℕ)
      → 2 ≤ level t
      → i < 512
      → is_present (v.tables t i) ≡ true
      → is_huge (v.tables t i) ≡ false
      → level (entry_addr (v.tables t i)) + 1 ≡ level t
  pub plain :
      (t i : ℕ)
      → 3 ≤ level t
      → i < 512
      → is_present (v.tables t i) ≡ true
      → is_huge (v.tables t i) ≡ false

-- `level'` knows the tables of `level` at the same level.
abbrev pub Extends : (ℕ → ℕ) → (ℕ → ℕ) → Type 0
Extends level level' = (t : ℕ) → level t ≢ 0 → level' t ≡ level t

module _ (A : Allocator) where
  -- `next_level` with `create`, from the entry `(t, i)` of a tree: the table below.
  pub record Descended (v : Vmm A.State) (level : ℕ → ℕ) (t i : ℕ) (out : ℕ × Vmm A.State)
      (level' : ℕ → ℕ) : Type 0 where
    pub tree : IsTree A out.1 level'
    pub extends : Extends level level'
    pub below : level' out.0 + 1 ≡ level t
    pub entry : entry_addr (out.1.tables t i) ≡ out.0
    pub present : is_present (out.1.tables t i) ≡ true
    pub small : is_huge (out.1.tables t i) ≡ false
    pub same : (a b : ℕ) → level a ≢ 0 → (a ≢ t) ⊎ (b ≢ i) → out.1.tables a b ≡ v.tables a b
    pub statics : out.1.kernel_pml4 ≡ v.kernel_pml4

  pub next_level-present :
      (v : Vmm A.State) (t i : ℕ) (create : Bool)
      → is_present (v.tables t i) ≡ true
      → next_level A v t i create ≡ (entry_addr (v.tables t i), v)
  unfolding next_level
  next_level-present v t i create on = rw on

  -- the tables after `next_level` has made a new one at `frame`
  abbrev pub grown : Vmm A.State → ℕ → ℕ → ℕ → Tables
  grown v t i frame = store (zero_table frame v.tables) t i (table_entry frame)

  pub next_level-absent :
      (v : Vmm A.State) (t i : ℕ)
      → is_present (v.tables t i) ≡ false
      → let frame = (A.alloc v.frames).0 in
        next_level A v t i true ≡ (
          entry_addr (grown v t i frame t i),
          record v { tables = grown v t i frame; frames = (A.alloc v.frames).1 },
        )
  unfolding next_level
  next_level-absent v t i off = rw off

  pub grown_lem :
      (v : Vmm A.State) (t i frame a b : ℕ)
      → grown v t i frame a b ≡ (
          if a == t && b == i
          then table_entry frame
          else if a == frame && ltb b 512
          then 0
          else v.tables a b)
  unfolding store zero_table
  grown_lem v t i frame a b = ground (arith, zero_from_lem 512 0 frame v.tables a b)

  present-Descended :
      (v : Vmm A.State) (level : ℕ → ℕ) (t i : ℕ)
      → IsTree A v level
      → 2 ≤ level t
      → i < 512
      → is_present (v.tables t i) ≡ true
      → is_huge (v.tables t i) ≡ false
      → Descended v level t i (entry_addr (v.tables t i), v) level
  present-Descended v level t i tree two in_table on flat = record {
    tree = tree;
    extends = λ a h. refl;
    below = tree.links t i two in_table on flat;
    entry = refl;
    present = on;
    small = flat;
    same = λ a b h ne. refl;
    statics = refl;
  }

  absent-Descended :
      (v : Vmm A.State) (level : ℕ → ℕ) (t i f : ℕ)
      → IsTree A v level
      → 2 ≤ level t
      → i < 512
      → (A.alloc v.frames).0 ≡ f * 4096
      → f < 2 ^ 40
      → f ≢ 0
      → Descended v level t i
          (f * 4096, record v { tables = grown v t i (f * 4096); frames = (A.alloc v.frames).1 })
          (update level (f * 4096) (level t - 1))
  unfolding update
  absent-Descended v level t i f tree two in_table at small ne =
      let frame : ℕ = f * 4096 in
      let m : Tables = grown v t i frame in
      let (address, on, flat) = table_entry_lem f small in
      let got : (A.alloc v.frames).0 ≢ 0 = omega arith in
      let fresh : A.used v.frames frame ≡ false =
        rw at at (A.alloc_fresh v.frames tree.valid got) in
      let no_table : level frame ≡ 0 = ground (arith, tree.owned frame) in
      let apart : (t == frame) ≡ false = ground arith in
      let entry : m t i ≡ table_entry frame = ground (arith, grown_lem v t i frame t i) in
      record {
        tree = record {
          valid = A.alloc_valid v.frames tree.valid;
          null = ground (arith, tree.null);
          owned = λ a h. ground (arith, A.alloc_used v.frames a tree.valid got, tree.owned a);
          links = λ a b up in_t on' flat'.
              ground (arith, grown_lem v t i frame a b, tree.links a b, zero-absent);
          plain = λ a b up in_t on'.
              ground (arith, grown_lem v t i frame a b, tree.plain a b, zero-absent);
        };
        extends = λ a h. ground arith;
        below = ground arith;
        entry = rw entry address;
        present = rw entry on;
        small = rw entry flat;
        same = λ a b h other. ground (arith, grown_lem v t i frame a b);
        statics = refl;
      }

  -- `next_level` with `create`, on a tree, returns the table below and keeps the tree, unless the
  -- allocation fails.
  pub next_level-Descended :
      (v : Vmm A.State) (level : ℕ → ℕ) (t i : ℕ)
      → IsTree A v level
      → 2 ≤ level t
      → i < 512
      → (is_present (v.tables t i) ≡ true → is_huge (v.tables t i) ≡ false)
      → (next_level A v t i true).0 ≢ 0
      → (level' : ℕ → ℕ) × Descended v level t i (next_level A v t i true) level'
  next_level-Descended v level t i tree two in_table flat got =
      elim (Bool-cases (is_present (v.tables t i))) [
        | inl on ↦
            let e = next_level-present v t i true on in
            (level, rw e (present-Descended v level t i tree two in_table on (flat on)))
        | inr off ↦
            let (f, at, small) = A.alloc_aligned v.frames tree.valid in
            let entry : grown v t i (f * 4096) t i ≡ table_entry (f * 4096) =
              ground (arith, grown_lem v t i (f * 4096) t i) in
            let address : entry_addr (table_entry (f * 4096)) ≡ f * 4096 =
              (table_entry_lem f small).0 in
            let e = next_level-absent v t i off in
            let out : (next_level A v t i true).0 ≡ f * 4096 = rw (e, at, entry, address) in
            let ne : f ≢ 0 = λ z. got (omega arith) in
            (
              update level (f * 4096) (level t - 1),
              rw (e, at, entry, address)
                  (absent-Descended v level t i f tree two in_table at small ne),
            )
      ]
