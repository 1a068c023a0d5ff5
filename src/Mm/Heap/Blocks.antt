-- ===== src/Mm/Heap/Blocks.antt =====
-- The heap as the list of its blocks, in the order of their addresses, each next to the other.
use revinix_os.Base.{
  ℕ, ◌+◌, ◌≤◌, ◌<◌, ◌≡◌, refl, ap, ◌∙◌, ◌≢◌, ◌⊎◌, inl, inr, Bool, List, [], ◌∷◌, arith,
}
use revinix_os.Mm.Heap.{Header, Store, header_size}

-- What a client sees of a block: its usable bytes, and whether it is free.
pub record Block : Type 0 where
  pub bytes : ℕ
  pub free : Bool

abbrev pub next_addr : ℕ → List Block → ℕ
next_addr p [] = 0
next_addr p (b ∷ bs) = p

-- The headers from `p` on, the first with `prev` pointer `q`, describe the blocks: doubly linked,
-- each block ends where the next header begins.
abbrev pub Chain : Store → ℕ → ℕ → List Block → Type 0
Chain m q p [] = Unit {0}
Chain m q p (b ∷ bs) =
    (m p ≡ record {
      size = b.bytes;
      free = b.free;
      next = next_addr (p + header_size + b.bytes) bs;
      prev = q;
    })
    × Chain m p (p + header_size + b.bytes) bs

-- the bytes from the first header to the end of the last block
abbrev pub span : List Block → ℕ
span [] = 0
span (b ∷ bs) = header_size + b.bytes + span bs

pub Chain-frame :
    (m m' : Store) (q p : ℕ) (bs : List Block)
    → ((a : ℕ) → p ≤ a → m' a ≡ m a)
    → Chain m q p bs
    → Chain m' q p bs
Chain-frame m m' q p [] same c = tt
Chain-frame m m' q p (b ∷ bs) same (at, c) = (
  same p (omega arith) ∙ at,
  Chain-frame m m' p (p + header_size + b.bytes) bs (λ a lo. same a (omega arith)) c,
)

-- A chain whose first block gets another back link.
pub Chain-relink :
    (m m' : Store) (q q' p : ℕ) (bs : List Block)
    → 0 < p
    → (next_addr p bs ≢ 0 → m' p ≡ record (m p) { prev = q' })
    → ((a : ℕ) → p < a → m' a ≡ m a)
    → Chain m q p bs
    → Chain m' q' p bs
Chain-relink m m' q q' p [] pos first same c = tt
Chain-relink m m' q q' p (b ∷ bs) pos first same (at, c) = (
  first (omega arith) ∙ ap (λ (h : Header). record h { prev = q' }) at,
  Chain-frame m m' p (p + header_size + b.bytes) bs (λ a lo. same a (omega arith)) c,
)

pub next_addr-cases : (p : ℕ) (bs : List Block) → (next_addr p bs ≡ 0) ⊎ (next_addr p bs ≡ p)
next_addr-cases p [] = inl refl
next_addr-cases p (b ∷ bs) = inr refl
