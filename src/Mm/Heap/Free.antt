-- ===== src/Mm/Heap/Free.antt =====
-- `kfree` marks the block free and joins it with its free neighbours.
use revinix_os.Base.{
  ℕ, zero, suc, ◌+◌, ◌-◌, ◌^◌, ◌<◌, ◌≡◌, refl, ap, ◌∙◌, ◌≢◌, ◌⊎◌, inl, inr, Bool, true, false, List,
  [], ◌∷◌, arith, ◌==◌, Bool-cases, ==_refl, ==_ne, update, length,
}
use revinix_os.Mm.Heap.{Header, Store, header_size, join_next, join_prev, set_free, kfree}
use revinix_os.Mm.Heap.Blocks.{Block, Chain, Chain-frame, next_addr, span}
use revinix_os.Mm.Heap.Join.{absorbed, absorbed-Chain, join, join_next-at, join_prev-at, &&_false}

abbrev first_free : List Block → Bool
first_free [] = false
first_free (d ∷ ds) = d.free

abbrev freed : Block → Block
freed b = record b { free = true }

-- the block `b` freed, and joined with a free block behind it
abbrev settle : Block → List Block → List Block
settle b bs = join (first_free bs) (freed b) bs

-- The block with index `i` is freed and joined with its free neighbours.
pub free_nth : List Block → ℕ → List Block
free_nth [] i = []
free_nth (b ∷ bs) zero = settle b bs
free_nth (a ∷ []) (suc i) = a ∷ []
free_nth (a ∷ b ∷ bs) (suc zero) = join a.free a (settle b bs)
free_nth (a ∷ b ∷ bs) (suc (suc i)) = a ∷ free_nth (b ∷ bs) (suc i)

-- the address of the header with index `i`
abbrev pub header_addr : ℕ → List Block → ℕ → ℕ
header_addr p [] i = p
header_addr p (b ∷ bs) zero = p
header_addr p (b ∷ bs) (suc i) = header_addr (p + header_size + b.bytes) bs i

set_free-Chain :
    (m : Store) (q p : ℕ) (b : Block) (bs : List Block)
    → Chain m q p (b ∷ bs)
    → Chain (set_free m p true) q p (freed b ∷ bs)
unfolding update
set_free-Chain m q p b bs (at, c) = (
  rw (==_refl p, at),
  Chain-frame m (set_free m p true) p (p + header_size + b.bytes) bs
      (λ a lo. rw (==_ne a p (omega arith))) c,
)

set_free-below : (m : Store) (p a : ℕ) → a < p → set_free m p true a ≡ m a
unfolding update
set_free-below m p a lo = rw (==_ne a p (omega arith))

absorbed-below :
    (m : Store) (x y a : ℕ) → a < x → ((m y).next ≡ 0) ⊎ (x < (m y).next) → absorbed m x y a ≡ m a
absorbed-below m x y a lo h =
    let past : (a == x) ≡ false = ==_ne a x (omega arith) in rw past (ground arith)

-- A step of `kfree` that keeps the chain and writes from `p` on.
record Keeps (m : Store) (q p : ℕ) (bs : List Block) (m' : Store) : Type 0 where
  chain : Chain m' q p bs
  below : (a : ℕ) → a < p → m' a ≡ m a

before : (a p : ℕ) (bs : List Block) → a < p → 0 < a → next_addr p bs ≢ a
before a p [] h pos = omega arith
before a p (b ∷ bs) h pos = omega arith

behind :
    (m : Store) (q p : ℕ) (b : Block) (bs : List Block)
    → Chain m q p (b ∷ bs)
    → ((m p).next ≡ 0) ⊎ (p < (m p).next)
behind m q p b [] (at, c) = inl (rw at)
behind m q p b (d ∷ ds) (at, c) = inr (rw at (omega arith))

-- The header at `p` has absorbed the one behind it.
joined-Keeps :
    (m : Store) (q p : ℕ) (b d : Block) (ds : List Block)
    → 0 < p
    → span (b ∷ d ∷ ds) < 2 ^ 63
    → Chain m q p (b ∷ d ∷ ds)
    → (m' : Store) → ((a : ℕ) → m' a ≡ absorbed m p (p + header_size + b.bytes) a)
    → Keeps m q p (record { bytes = b.bytes + header_size + d.bytes; free = b.free } ∷ ds) m'
joined-Keeps m q p b d ds pos small c m' same = record {
  chain = absorbed-Chain m m' q p b d ds pos small c same;
  below = λ a lo.
      same a
      ∙ absorbed-below m p (p + header_size + b.bytes) a lo
          (elim (behind m p (p + header_size + b.bytes) d ds c.1) [
            | inl e ↦ inl e
            | inr e ↦ inr (omega arith)
          ]);
}

-- Both answers of the test for a free neighbour.
join-Keeps :
    (m : Store) (q p : ℕ) (b d : Block) (ds : List Block) (m' : Store) (open_ : Bool)
    → (open_ ≡ true
        → Keeps m q p (record { bytes = b.bytes + header_size + d.bytes; free = b.free } ∷ ds) m')
    → (open_ ≡ false → Keeps m q p (b ∷ d ∷ ds) m')
    → Keeps m q p (join open_ b (d ∷ ds)) m'
join-Keeps m q p b d ds m' true yes_ no_ = yes_ refl
join-Keeps m q p b d ds m' false yes_ no_ = no_ refl

join_next-idle :
    (m : Store) (p : ℕ) → ((m p).next ≡ 0) ⊎ ((m (m p).next).free ≡ false) → join_next m p ≡ m
unfolding join_next
join_next-idle m p (inl e) = rw e
join_next-idle m p (inr e) = rw e (rw &&_false)

join_next-Keeps :
    (m : Store) (q p : ℕ) (b : Block) (bs : List Block)
    → 0 < p
    → span (b ∷ bs) < 2 ^ 63
    → Chain m q p (b ∷ bs)
    → Keeps m q p (join (first_free bs) b bs) (join_next m p)
join_next-Keeps m q p b [] pos small (at, c) =
    rw (join_next-idle m p (inl (rw at))) (record { chain = (at, c); below = λ a lo. refl })
join_next-Keeps m q p b (d ∷ ds) pos small (at, (at', c)) = elim (Bool-cases d.free) [
  | inl on ↦ simp on (
      joined-Keeps m q p b d ds pos small (at, (at', c)) (join_next m p)
        (join_next-at m p (p + header_size + b.bytes) (omega arith) (omega arith)
          (rw at'
            (before p (p + header_size + b.bytes + header_size + d.bytes) ds (omega arith) pos))
          (rw at' (
            before (p + header_size + b.bytes) (p + header_size + b.bytes + header_size + d.bytes)
              ds (omega arith) (omega arith)))
          (rw at) (rw at' on)))
  | inr off ↦ simp off (
      rw (join_next-idle m p (inr (rw at (rw at' off))))
        (record { chain = (at, (at', c)); below = λ a lo. refl }))
]

join_prev-idle :
    (m : Store) (p : ℕ) → ((m p).prev ≡ 0) ⊎ ((m (m p).prev).free ≡ false) → join_prev m p ≡ m
unfolding join_prev
join_prev-idle m p (inl e) = rw e
join_prev-idle m p (inr e) = rw e (rw &&_false)

join_prev-Keeps :
    (m : Store) (r q : ℕ) (a b : Block) (bs : List Block)
    → 0 < q
    → span (a ∷ b ∷ bs) < 2 ^ 63
    → Chain m r q (a ∷ b ∷ bs)
    → Keeps m r q (join a.free a (b ∷ bs)) (join_prev m (q + header_size + a.bytes))
join_prev-Keeps m r q a b bs pos small (at, (at', c)) =
    join-Keeps m r q a b bs (join_prev m (q + header_size + a.bytes)) a.free
      (λ on.
        joined-Keeps m r q a b bs pos small (at, (at', c)) (join_prev m (q + header_size + a.bytes))
          (join_prev-at m q (q + header_size + a.bytes) (omega arith) (omega arith)
            (rw at'
              (before q (q + header_size + a.bytes + header_size + b.bytes) bs (omega arith) pos))
            (rw at' (
              before (q + header_size + a.bytes) (q + header_size + a.bytes + header_size + b.bytes)
                bs (omega arith) (omega arith)))
            (rw at') (omega arith) (rw at on)))
      (λ off.
        (rw (join_prev-idle m (q + header_size + a.bytes) (inr (rw at' (rw at off))))
          (record { chain = (at, (at', c)); below = λ x lo. refl })))

kfree-steps :
    (m : Store) (p : ℕ) → kfree m (p + header_size) ≡ join_prev (join_next (set_free m p true) p) p
unfolding kfree
kfree-steps m p =
    let back : p + header_size - header_size ≡ p = omega arith in
    let live : (p + header_size == 0) ≡ false = ==_ne (p + header_size) 0 (omega arith) in
    rw (back, live)

settle-Keeps :
    (m : Store) (q p : ℕ) (b : Block) (bs : List Block)
    → 0 < p
    → span (b ∷ bs) < 2 ^ 63
    → Chain m q p (b ∷ bs)
    → Keeps m q p (settle b bs) (join_next (set_free m p true) p)
settle-Keeps m q p b bs pos small c =
    let k =
      join_next-Keeps (set_free m p true) q p (freed b) bs pos small
        (set_free-Chain m q p b bs c) in
    record { chain = k.chain; below = λ a lo. k.below a lo ∙ set_free-below m p a lo }

abbrev Kept : Store → ℕ → ℕ → List Block → ℕ → Type 0
Kept m q p bs i = Keeps m q p (free_nth bs i) (kfree m (header_addr p bs i + header_size))

join-next_addr : (y : ℕ) (w : Bool) (b : Block) (bs : List Block) → next_addr y (join w b bs) ≡ y
join-next_addr y w b [] = refl
join-next_addr y true b (d ∷ ds) = refl
join-next_addr y false b (d ∷ ds) = refl

join-span : (w : Bool) (b : Block) (bs : List Block) → span (join w b bs) ≡ span (b ∷ bs)
join-span w b [] = refl
join-span true b (d ∷ ds) = omega arith
join-span false b (d ∷ ds) = refl

head-prev :
    (m : Store) (q p : ℕ) (w : Bool) (b : Block) (bs : List Block)
    → Chain m q p (join w b bs)
    → (m p).prev ≡ q
head-prev m q p w b [] (at, c) = ap (λ (h : Header). h.prev) at
head-prev m q p true b (d ∷ ds) (at, c) = ap (λ (h : Header). h.prev) at
head-prev m q p false b (d ∷ ds) (at, c) = ap (λ (h : Header). h.prev) at

free_nth-next_addr :
    (y : ℕ) (b : Block) (bs : List Block) (i : ℕ) → next_addr y (free_nth (b ∷ bs) i) ≡ y
unfolding free_nth
free_nth-next_addr y b bs zero = join-next_addr y (first_free bs) (freed b) bs
free_nth-next_addr y b [] (suc i) = refl
free_nth-next_addr y b (d ∷ ds) (suc zero) = join-next_addr y b.free b (settle d ds)
free_nth-next_addr y b (d ∷ ds) (suc (suc i)) = refl

kfree-first :
    (m : Store) (p : ℕ) (b : Block) (bs : List Block)
    → 0 < p
    → span (b ∷ bs) < 2 ^ 63
    → Chain m 0 p (b ∷ bs)
    → Kept m 0 p (b ∷ bs) zero
unfolding free_nth
kfree-first m p b bs pos small c =
    let k = settle-Keeps m 0 p b bs pos small c in
    let alone : (join_next (set_free m p true) p p).prev ≡ 0 =
      head-prev (join_next (set_free m p true) p) 0 p (first_free bs) (freed b) bs k.chain in
    rw (kfree-steps m p) (rw (join_prev-idle (join_next (set_free m p true) p) p (inl alone)) k)

-- The second step on a chain whose second block is the freed one.
prev-Keeps :
    (m : Store) (r q : ℕ) (a : Block) (bs : List Block)
    → 0 < q
    → span (a ∷ bs) < 2 ^ 63
    → next_addr (q + header_size + a.bytes) bs ≡ q + header_size + a.bytes
    → Chain m r q (a ∷ bs)
    → Keeps m r q (join a.free a bs) (join_prev m (q + header_size + a.bytes))
prev-Keeps m r q a [] pos small here c = absurd (omega arith)
prev-Keeps m r q a (b ∷ bs) pos small here c = join_prev-Keeps m r q a b bs pos small c

-- A header in front of a chain that a step has kept.
cons-Chain :
    (m m' : Store) (q p : ℕ) (a b : Block) (bs ds : List Block)
    → Chain m q p (a ∷ b ∷ bs)
    → Keeps m p (p + header_size + a.bytes) ds m'
    → next_addr (p + header_size + a.bytes) ds ≡ p + header_size + a.bytes
    → Chain m' q p (a ∷ ds)
cons-Chain m m' q p a b bs ds (at, c) k here = (rw here (k.below p (omega arith) ∙ at), k.chain)

kfree-second :
    (m : Store) (q p : ℕ) (a b : Block) (bs : List Block)
    → 0 < p
    → span (a ∷ b ∷ bs) < 2 ^ 63
    → Chain m q p (a ∷ b ∷ bs)
    → Kept m q p (a ∷ b ∷ bs) 1
unfolding free_nth
kfree-second m q p a b bs pos small (at, c) =
    let y : ℕ = p + header_size + a.bytes in
    let k = settle-Keeps m p y b bs (omega arith) (omega arith) c in
    let here : next_addr y (settle b bs) ≡ y = join-next_addr y (first_free bs) (freed b) bs in
    let size : span (settle b bs) ≡ span (b ∷ bs) = join-span (first_free bs) (freed b) bs in
    let m' : Store = join_next (set_free m y true) y in
    let k' =
      prev-Keeps m' q p a (settle b bs) pos (rw size small) here
        (cons-Chain m m' q p a b bs (settle b bs) (at, c) k here) in
    rw (kfree-steps m y)
      (record { chain = k'.chain; below = λ x lo. k'.below x lo ∙ k.below x (omega arith) })

kfree-later :
    (i : ℕ) (m : Store) (q p : ℕ) (bs : List Block)
    → 0 < p
    → span bs < 2 ^ 63
    → suc i < length bs
    → Chain m q p bs
    → Kept m q p bs (suc i)
unfolding free_nth
kfree-later i m q p [] pos small lt c = absurd (omega arith)
kfree-later i m q p (a ∷ []) pos small lt c = absurd (omega arith)
kfree-later zero m q p (a ∷ b ∷ bs) pos small lt c = kfree-second m q p a b bs pos small c
kfree-later (suc i) m q p (a ∷ b ∷ bs) pos small lt (at, c) =
    let y : ℕ = p + header_size + a.bytes in
    let k = kfree-later i m p y (b ∷ bs) (omega arith) (omega arith) (omega arith) c in
    record {
      chain =
          cons-Chain m (kfree m (header_addr y (b ∷ bs) (suc i) + header_size)) q p a b bs
            (free_nth (b ∷ bs) (suc i)) (at, c) k (free_nth-next_addr y b bs (suc i));
      below = λ x lo. k.below x (omega arith);
    }

-- On a well-linked list of blocks, in an address space it does not wrap around, `kfree` on the
-- payload of the block with index `i` leaves a well-linked list: that block is free, joined with
-- the free block behind it and then with the free block before it, and every other block is kept.
pub kfree-Chain :
    (m : Store) (p : ℕ) (bs : List Block) (i : ℕ)
    → 0 < p
    → span bs < 2 ^ 63
    → i < length bs
    → Chain m 0 p bs
    → Chain (kfree m (header_addr p bs i + header_size)) 0 p (free_nth bs i)
kfree-Chain m p [] i pos small lt c = absurd (omega arith)
kfree-Chain m p (b ∷ bs) zero pos small lt c = (kfree-first m p b bs pos small c).chain
kfree-Chain m p (b ∷ bs) (suc i) pos small lt c =
    (kfree-later i m 0 p (b ∷ bs) pos small lt c).chain
