-- ===== src/Mm/Heap.antt =====
-- kernel/mm/heap.c: the kernel heap, a doubly linked list of blocks with a header before each.
-- A header stands at its address in a store of headers; the payload bytes are not modelled.
pub mod Blocks
pub mod Malloc
pub mod Walk
pub mod Join
pub mod Free
mod Tests
use revinix_os.Base.{
  ℕ, zero, suc, ◌+◌, ◌-◌, ◌*◌, ◌/◌, ◌%◌, ◌^◌, Bool, true, false, ◌&&◌, Option, none, some, ltb, leb,
  ◌==◌, ◌!=◌, if◌then◌else◌, add64, sub64, update,
}

abbrev pub heap_start : ℕ
heap_start = 0xffffc00000000000

abbrev pub heap_initial_size : ℕ
heap_initial_size = 0x100000

-- sizeof(struct block_header): a size, an int with its padding, and two pointers
abbrev pub header_size : ℕ
header_size = 32

-- `struct block_header`; 0 is NULL.
pub record Header : Type 0 where
  pub size : ℕ
  pub free : Bool
  pub next : ℕ
  pub prev : ℕ

abbrev pub Store : Type 0
Store = ℕ → Header

pub record Heap : Type 0 where
  pub store : Store
  pub head : ℕ
  pub end : ℕ

-- the headers that `heap_init` writes, once the region is mapped
pub init : Store → Heap
init m = record {
  store =
      update m heap_start
        (record { size = heap_initial_size - header_size; free = true; next = 0; prev = 0 });
  head = heap_start;
  end = add64 heap_start heap_initial_size;
}

unfoldable pub align8 : ℕ → ℕ
align8 x = add64 x 7 / 8 * 8

-- the assignments to single fields
abbrev pub set_size : Store → ℕ → ℕ → Store
set_size m a n = update m a (record (m a) { size = n })

abbrev pub set_free : Store → ℕ → Bool → Store
set_free m a b = update m a (record (m a) { free = b })

abbrev pub set_next : Store → ℕ → ℕ → Store
set_next m a p = update m a (record (m a) { next = p })

abbrev pub set_prev : Store → ℕ → ℕ → Store
set_prev m a p = update m a (record (m a) { prev = p })

-- the branch of `kmalloc` that splits the block at `cur`
pub split_block : Store → ℕ → ℕ → Store
split_block m cur size =
    let split = cur + header_size + size in
    let c = m cur in
    let m1 = update m split (record {
      size = sub64 (sub64 c.size size) header_size;
      free = true;
      next = c.next;
      prev = cur;
    }) in
    let m2 = (if c.next != 0 then set_prev m1 c.next split else m1) in
    let m3 = set_next m2 cur split in set_size m3 cur size

-- the body of `kmalloc` for a block that fits
pub take_block : Store → ℕ → ℕ → Store
take_block m cur size =
    let m' =
      (if leb (add64 (add64 size header_size) 8) (m cur).size then split_block m cur size else m) in
    set_free m' cur false

-- The loop of `kmalloc` from the block at `cur`; `none` stands for a list longer than the fuel.
pub malloc_walk : ℕ → Store → ℕ → ℕ → Option (ℕ × Store)
malloc_walk zero m cur size = none
malloc_walk (suc fuel) m cur size =
    let rest = malloc_walk fuel m (m cur).next size in
    if cur == 0
    then some (0, m)
    else if (m cur).free && leb size (m cur).size
    then some (cur + header_size, take_block m cur size)
    else rest

pub kmalloc : ℕ → Heap → ℕ → Option (ℕ × Store)
kmalloc fuel h size =
    if size == 0 then some (0, h.store) else malloc_walk fuel h.store h.head (align8 size)

-- the two coalescing steps of `kfree` on the block at `b`
pub join_next : Store → ℕ → Store
join_next m b =
    let n = (m b).next in
    let m1 = set_size m b (add64 (m b).size (add64 header_size (m n).size)) in
    let m2 = set_next m1 b (m1 n).next in
    let after = (m2 b).next in
    let m3 = (if after != 0 then set_prev m2 after b else m2) in
    if n != 0 && (m n).free then m3 else m

pub join_prev : Store → ℕ → Store
join_prev m b =
    let p = (m b).prev in
    let m1 = set_size m p (add64 (m p).size (add64 header_size (m b).size)) in
    let m2 = set_next m1 p (m1 b).next in
    let after = (m2 b).next in
    let m3 = (if after != 0 then set_prev m2 after (m2 b).prev else m2) in
    if p != 0 && (m p).free then m3 else m

pub kfree : Store → ℕ → Store
kfree m ptr =
    let b = ptr - header_size in
    let m1 = set_free m b true in if ptr == 0 then m else join_prev (join_next m1 b) b

pub record Stats : Type 0 where
  pub capacity : ℕ
  pub used : ℕ
  pub free : ℕ
  pub blocks : ℕ
  pub largest_free : ℕ

-- The loop of `heap_get_stats` from the block at `cur`.
pub stats_walk : ℕ → Store → ℕ → Stats → Option Stats
stats_walk zero m cur s = none
stats_walk (suc fuel) m cur s =
    let c = m cur in
    let counted = record s { blocks = add64 s.blocks 1 } in
    let s' =
      (if c.free
        then record counted {
          free = add64 s.free c.size;
          largest_free = if ltb s.largest_free c.size then c.size else s.largest_free;
        }
        else record counted { used = add64 s.used c.size }) in
    let rest = stats_walk fuel m c.next s' in if cur == 0 then some s else rest

pub get_stats : ℕ → Heap → Option Stats
get_stats fuel h =
    stats_walk fuel h.store h.head (record {
      capacity = sub64 h.end heap_start;
      used = 0;
      free = 0;
      blocks = 0;
      largest_free = 0;
    })
