-- ===== src/Mm/Heap/Malloc.antt =====
-- `kmalloc` on the list of headers does first fit on the list of blocks.
use revinix_os.Base.{
  ℕ, ◌+◌, ◌-◌, ◌^◌, ◌≤◌, ◌<◌, ◌≡◌, refl, ap, ◌∙◌, ◌≢◌, inl, inr, Bool, true, false, ◌&&◌, Option,
  none, some, List, [], ◌∷◌, arith, leb, ◌==◌, ◌!=◌, if◌then◌else◌, Bool-cases, ==_refl, ==_ne,
  !=_ne, add64, sub64, update,
}
use revinix_os.Mm.Heap.{set_free, Header, Store, header_size, split_block, take_block}
use revinix_os.Mm.Heap.Blocks.{
  Block, Chain, Chain-frame, Chain-relink, next_addr, next_addr-cases, span,
}

abbrev pub fits : ℕ → Block → Bool
fits size b = b.free && leb size b.bytes

-- a block that is handed out, and what is split off it
abbrev pub parts : ℕ → Block → List Block → List Block
parts size b bs =
    if leb (size + header_size + 8) b.bytes
    then record { bytes = size; free = false }
      ∷ record { bytes = b.bytes - size - header_size; free = true }
      ∷ bs
    else record { bytes = b.bytes; free = false } ∷ bs

abbrev pub cons_out : Block → Option (ℕ × List Block) → Option (ℕ × List Block)
cons_out b none = none
cons_out b (some (ptr, bs)) = some (ptr, b ∷ bs)

-- First fit on the blocks from address `p` on.
unfoldable pub first_fit : ℕ → ℕ → List Block → Option (ℕ × List Block)
first_fit p size [] = none
first_fit p size (b ∷ bs) =
    if fits size b
    then some (p + header_size, parts size b bs)
    else cons_out b (first_fit (p + header_size + b.bytes) size bs)

abbrev rest_header : Header → ℕ → ℕ → Header
rest_header c cur size = record {
  size = sub64 (sub64 c.size size) header_size;
  free = true;
  next = c.next;
  prev = cur;
}

-- The headers after a split: those of the two parts, and the back link of the block behind them.
split_block_lem :
    (m : Store) (cur size a : ℕ)
    → (m cur).next ≢ cur
    → (m cur).next ≢ cur + header_size + size
    → split_block m cur size a ≡ (
        if a == cur
        then record (m cur) { size = size; next = cur + header_size + size }
        else if a == cur + header_size + size
        then rest_header (m cur) cur size
        else if (m cur).next != 0 && a == (m cur).next
        then record (m a) { prev = cur + header_size + size }
        else m a)
unfolding split_block update
split_block_lem m cur size a ne1 ne2 = elim (Bool-cases ((m cur).next != 0)) [
  | inl on ↦ rw on (ground arith)
  | inr off ↦ rw off (ground arith)
]

set_free_lem :
    (m : Store) (cur a : ℕ)
    → set_free m cur false a ≡ (if a == cur then record (m cur) { free = false } else m a)
unfolding update
set_free_lem m cur a = refl

-- The block at `p` is as large as `b`, and the block behind it begins at `end`.
module _ (m : Store) (q p : ℕ) (b : Block) (bs : List Block) (size : ℕ) (pos : 0 < p)
    (small : span (b ∷ bs) < 2 ^ 63) (fit : size ≤ b.bytes) (c : Chain m q p (b ∷ bs)) where
  large : Bool
  large = leb (size + header_size + 8) b.bytes

  end : ℕ
  end = p + header_size + b.bytes

  size-at : (m p).size ≡ b.bytes
  size-at = ap (λ (h : Header). h.size) c.0

  next-at : (m p).next ≡ next_addr end bs
  unfolding end
  next-at = ap (λ (h : Header). h.next) c.0

  wide : leb (add64 (add64 size header_size) 8) (m p).size ≡ large
  unfolding large
  wide = rw size-at (ground arith)

  -- what a split leaves at each address
  split-at :
      large ≡ true
      → (a : ℕ)
      → take_block m p size a ≡ (
          if a == p
          then record { size = size; free = false; next = p + header_size + size; prev = q }
          else if a == p + header_size + size
          then record {
            size = b.bytes - size - header_size;
            free = true;
            next = next_addr end bs;
            prev = p;
          }
          else if next_addr end bs != 0 && a == end
          then record (m a) { prev = p + header_size + size }
          else m a)
  unfolding take_block large end
  split-at e a =
      let n = next_addr-cases (p + header_size + b.bytes) bs in
      let room : size + header_size + 8 ≤ b.bytes = ground arith in
      let ne1 : (m p).next ≢ p = rw next-at (omega arith) in
      let ne2 : (m p).next ≢ p + header_size + size = rw next-at (omega arith) in
      rw (wide, e)
        (rw
          (
            set_free_lem (split_block m p size) p a,
            split_block_lem m p size p ne1 ne2,
            split_block_lem m p size a ne1 ne2,
            c.0,
          )
          (ground arith))

  whole-at :
      large ≡ false
      → (a : ℕ) → take_block m p size a ≡ (if a == p then record (m p) { free = false } else m a)
  unfolding take_block
  whole-at e a = rw (wide, e) (set_free_lem m p a)

  pub take_block-frame : (a : ℕ) → a < p → take_block m p size a ≡ m a
  unfolding end
  take_block-frame a lo = elim (Bool-cases large) [
    | inl e ↦ split-at e a ∙ ground arith
    | inr e ↦ whole-at e a ∙ ground arith
  ]

  split-at_end :
      large ≡ true
      → next_addr end bs ≢ 0
      → take_block m p size end ≡ record (m end) { prev = p + header_size + size }
  unfolding large end
  split-at_end e linked =
      let room : size + header_size + 8 ≤ b.bytes = ground arith in
      let past : (end == p) ≡ false = ==_ne end p (omega arith) in
      let past_split : (end == p + header_size + size) ≡ false =
        ==_ne end (p + header_size + size) (omega arith) in
      let on : (next_addr end bs != 0) ≡ true = !=_ne (next_addr end bs) 0 linked in
      split-at e end ∙ rw (past, past_split, on, ==_refl end)

  split-above : large ≡ true → (a : ℕ) → end < a → take_block m p size a ≡ m a
  unfolding large end
  split-above e a hi =
      let room : size + header_size + 8 ≤ b.bytes = ground arith in
      let past : (a == p) ≡ false = ground arith in
      let past_split : (a == p + header_size + size) ≡ false = ground arith in
      let past_end : (a == end) ≡ false = ground arith in
      split-at e a ∙ rw (past, past_split, past_end) (ground arith)

  split-Chain : large ≡ true → Chain (take_block m p size) q p (parts size b bs)
  unfolding large end
  split-Chain e =
      let room : size + header_size + 8 ≤ b.bytes = ground arith in
      let split : ℕ = p + header_size + size in
      let same : split + header_size + (b.bytes - size - header_size) ≡ end = omega arith in
      let n = next_addr-cases end bs in
      rw (e, same)
        (
          split-at e p ∙ ground arith,
          (
            split-at e split ∙ ground arith,
            Chain-relink m (take_block m p size) p split end bs (omega arith) (split-at_end e)
                (split-above e) c.1,
          ),
        )

  whole-Chain : large ≡ false → Chain (take_block m p size) q p (parts size b bs)
  unfolding large end
  whole-Chain e = rw e (
    whole-at e p ∙ rw c.0 (ground arith),
    Chain-frame m (take_block m p size) p end bs (λ a hi. whole-at e a ∙ ground arith) c.1,
  )

  pub take_block-Chain : Chain (take_block m p size) q p (parts size b bs)
  take_block-Chain = elim (Bool-cases large) [ inl e ↦ split-Chain e | inr e ↦ whole-Chain e ]
