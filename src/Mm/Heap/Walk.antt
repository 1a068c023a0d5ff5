-- ===== src/Mm/Heap/Walk.antt =====
-- `kmalloc` walks the blocks and refines first fit.
use revinix_os.Base.{
  ℕ, zero, suc, ◌+◌, ◌^◌, ◌<◌, ◌≡◌, refl, ◌∙◌, ◌≢◌, inl, inr, false, Option, none, some, List, [],
  ◌∷◌, arith, ◌==◌, Bool-cases, length,
}
use revinix_os.Mm.Heap.{Heap, Store, header_size, align8, malloc_walk, kmalloc}
use revinix_os.Mm.Heap.Blocks.{Block, Chain, next_addr, span}
use revinix_os.Mm.Heap.Malloc.{fits, parts, cons_out, first_fit, take_block-frame, take_block-Chain}

-- The code's answer `out` for the blocks from `p` on agrees with the answer of first fit: NULL and
-- no write where there is no block, else the same pointer and headers that describe the new blocks.
pub data Agrees (m : Store) (q p first : ℕ)
    : Option (ℕ × List Block) → Option (ℕ × Store) → Type 0 where
  no_block : Agrees m q p first none (some (0, m))
  handed_out :
      {ptr : ℕ} {bs : List Block} {m' : Store}
      → Chain m' q p bs
      → next_addr p bs ≡ first
      → ((a : ℕ) → a < p → m' a ≡ m a)
      → Agrees m q p first (some (ptr, bs)) (some (ptr, m'))

Agrees-cons :
    (m : Store) (q p first : ℕ) (b : Block) {found : Option (ℕ × List Block)}
    {out : Option (ℕ × Store)}
    → m p ≡ record { size = b.bytes; free = b.free; next = first; prev = q }
    → 0 < p
    → Agrees m p (p + header_size + b.bytes) first found out
    → Agrees m q p p (cons_out b found) out
Agrees-cons m q p first b at pos no_block = no_block
Agrees-cons m q p first b at pos (handed_out c e same) =
    handed_out (same p (omega arith) ∙ at ∙ rw e, c) refl (λ a lo. same a (omega arith))

parts-nonempty : (p size : ℕ) (b : Block) (bs : List Block) → next_addr p (parts size b bs) ≡ p
parts-nonempty p size b bs = ground arith

malloc_walk-Agrees :
    (fuel : ℕ) (m : Store) (q p size : ℕ) (bs : List Block)
    → length bs < fuel
    → 0 < p
    → span bs < 2 ^ 63
    → Chain m q p bs
    → Agrees m q p (next_addr p bs) (first_fit p size bs) (malloc_walk fuel m (next_addr p bs) size)
unfolding malloc_walk first_fit
malloc_walk-Agrees zero m q p size bs enough pos small c = absurd (omega arith)
malloc_walk-Agrees (suc fuel) m q p size [] enough pos small c = no_block
malloc_walk-Agrees (suc fuel) m q p size (b ∷ bs) enough pos small (at, c) =
    let live : (p == 0) ≡ false = ground arith in
    elim (Bool-cases (fits size b)) [
      | inl fit ↦
          rw (live, at, fit)
            (handed_out (take_block-Chain m q p b bs size pos small (ground arith) (at, c))
              (parts-nonempty p size b bs)
              (take_block-frame m q p b bs size pos small (ground arith) (at, c)))
      | inr miss ↦
          rw (live, at, miss)
            (Agrees-cons m q p (next_addr (p + header_size + b.bytes) bs) b at pos (
              malloc_walk-Agrees fuel m p (p + header_size + b.bytes) size bs (omega arith)
                (omega arith) (omega arith) c))
    ]

-- `kmalloc` of a nonzero size, on a heap whose headers describe a nonempty list of blocks, with fuel
-- for every block and sizes below 2 ^ 63, answers as first fit does for the size rounded up to 8:
-- NULL and no write if no block fits, else the pointer behind the header of the first block that
-- fits, and headers that describe the blocks after the split, with nothing written below them.
pub kmalloc-Agrees :
    (fuel : ℕ) (h : Heap) (size : ℕ) (bs : List Block)
    → length bs < fuel
    → 0 < h.head
    → next_addr h.head bs ≡ h.head
    → span bs < 2 ^ 63
    → size ≢ 0
    → Chain h.store 0 h.head bs
    → Agrees h.store 0 h.head h.head (first_fit h.head (align8 size) bs) (kmalloc fuel h size)
unfolding kmalloc
kmalloc-Agrees fuel h size bs enough pos live small ne c =
    let nonzero : (size == 0) ≡ false = ground arith in
    rw nonzero
      (rw live at (malloc_walk-Agrees fuel h.store 0 h.head (align8 size) bs enough pos small c))
