-- ===== src/Mm/Vmm/Tests.antt =====
-- Paging at concrete tables.
use revinix_os.Base.{
  ℕ, ◌+◌, ◌*◌, ◌/◌, ◌%◌, ◌^◌, ◌≤◌, ◌<◌, ◌≡◌, ◌≢◌, ◌↔◌, refl, Bool, true, false, ◌&&◌, ◌||◌, arith,
  ltb, ◌==◌, if◌then◌else◌, has_bit,
}
use revinix_os.Mm.Frames.{Allocator}
use revinix_os.Mm.Vmm.{
  Vmm, Tables, user_range_ok, user_space_end, next_level, map_page_in, get_phys_in, page_of,
  entry_addr, store, is_huge, zero_table, zero_from,
}
use revinix_os.Mm.Vmm.Range.{UserAccess, user_range_ok_iff}
use revinix_os.Mm.Vmm.Tree.{IsTree, Extends}
use revinix_os.Mm.Vmm.Map.{get_phys-map_page}

abbrev all_open : Tables
all_open t i = 7

user_range_ok_iff_example : (user_range_ok all_open 0x1000 0x400ff0 100 true ≡ true) ↔ (
    (0x400ff0 + 100 ≤ user_space_end)
    × ((a : ℕ) → 0x400ff0 ≤ a → a < 0x400ff0 + 100 → UserAccess all_open 0x1000 true a))
user_range_ok_iff_example =
    user_range_ok_iff all_open 0x1000 true 0x400ff0 100 (omega arith) (omega arith) (omega arith)

-- An allocator that hands out the frames from the state on, up to frame 99.
abbrev pub take_next : ℕ → ℕ × ℕ
take_next n = if ltb n 100 then (n * 4096, n + 1) else (0, n)

abbrev pub below : ℕ → ℕ → Bool
below n a = (a % 4096 == 0) && ltb (a / 4096) n

pub take_next-used :
    (n a : ℕ) → (take_next n).0 ≢ 0 → below (take_next n).1 a ≡ ((take_next n).0 == a || below n a)
take_next-used n a got = ground arith

pub take_next-aligned : (n : ℕ) → (f : ℕ) × ((take_next n).0 ≡ f * 4096) × (f < 2 ^ 40)
take_next-aligned n = (if ltb n 100 then n else 0, ground arith, ground arith)

abbrev pub in_order : Allocator
in_order = record {
  State = ℕ;
  alloc = take_next;
  free = λ n a. n;
  total = λ n. 100;
  used = below;
  Valid = λ n. Unit {0};
  alloc_valid = λ n v. tt;
  alloc_aligned = λ n v. take_next-aligned n;
  alloc_fresh = λ n v got. ground arith;
  alloc_used = λ n a v got. take_next-used n a got;
}

-- one empty root table, in frame 1
abbrev pub empty : Vmm ℕ
empty = record {
  tables = λ t i. 0;
  frames = 2;
  kernel_pml4 = 4096;
  vmm_active = true;
  hhdm_end = 0;
  cr3 = 4096;
}

abbrev pub root_level : ℕ → ℕ
root_level t = if t == 4096 then 4 else 0

empty-IsTree : IsTree in_order empty root_level
unfolding has_bit entry_addr
empty-IsTree = record {
  valid = tt;
  null = refl;
  owned = λ t h. ground arith;
  links = λ t i h lt on flat. absurd (ground arith);
  plain = λ t i h lt on. refl;
}

abbrev step3 : ℕ × Vmm ℕ
step3 = next_level in_order empty 4096 1 true

abbrev step2 : ℕ × Vmm ℕ
step2 = next_level in_order step3.1 step3.0 1 true

abbrev step1 : ℕ × Vmm ℕ
step1 = next_level in_order step2.1 step2.0 2 true

step3_table : step3.0 ≡ 8192
unfolding next_level has_bit entry_addr store zero_table zero_from
step3_table = refl

step2_table : step2.0 ≡ 12288
unfolding next_level has_bit entry_addr store zero_table zero_from
step2_table = refl

step1_table : step1.0 ≡ 16384
unfolding next_level has_bit entry_addr store zero_table zero_from
step1_table = refl

step2_flat : is_huge (step2.1.tables step2.0 2) ≡ false
unfolding next_level has_bit entry_addr store zero_table zero_from
step2_flat = refl

-- The address has the indices 1, 1, 2 and 3, and the offset 0x123.
abbrev high : ℕ
high = 0x8040403123

get_phys-map_page_example :
    let v' = map_page_in in_order empty 4096 high 0x77010 3 in
    (get_phys_in v'.tables 4096 high ≡ page_of 0x77010 + high % 4096)
    × ((level' : ℕ → ℕ) × IsTree in_order v' level' × (level' 4096 ≡ 4) × Extends root_level level')
get_phys-map_page_example =
    get_phys-map_page in_order empty root_level 4096 high 0x77010 3 empty-IsTree refl (omega arith)
      (omega arith) (λ e. omega (arith, step3_table)) (λ e. omega (arith, step2_table))
      (λ e. omega (arith, step1_table)) step2_flat
