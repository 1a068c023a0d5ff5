-- ===== src/Mm/Heap/Join.antt =====
-- The two coalescing steps of `kfree`: a block absorbs the one behind it.
use revinix_os.Base.{
  ℕ, ◌+◌, ◌^◌, ◌<◌, ◌≡◌, refl, sym, ◌∙◌, ◌≢◌, inl, inr, Bool, true, false, ◌&&◌, List, [], ◌∷◌,
  arith, ◌==◌, ◌!=◌, if◌then◌else◌, Bool-cases, ==_refl, ==_ne, !=_ne, add64, update,
}
use revinix_os.Mm.Heap.{Header, Store, header_size, join_next, join_prev}
use revinix_os.Mm.Heap.Blocks.{Block, Chain, Chain-relink, next_addr, span}

-- What is left when the block at `x` takes in the block at `y` behind it.
abbrev pub absorbed : Store → ℕ → ℕ → ℕ → Header
absorbed m x y a =
    if a == x
    then record {
      size = add64 (m x).size (add64 header_size (m y).size);
      free = (m x).free;
      next = (m y).next;
      prev = (m x).prev;
    }
    else if (m y).next != 0 && a == (m y).next
    then record (m a) { prev = x }
    else m a

module _ (m : Store) (x y : ℕ) (ne : x ≢ y) (live : y ≢ 0) (ahead : (m y).next ≢ x)
    (apart : (m y).next ≢ y) where
  pub join_next-at :
      (m x).next ≡ y → (m y).free ≡ true → (a : ℕ) → join_next m x a ≡ absorbed m x y a
  unfolding join_next update
  join_next-at link open_ a =
      let there : (y != 0) ≡ true = !=_ne y 0 live in
      let past : ((m y).next == x) ≡ false = ==_ne (m y).next x ahead in
      let other : (y == x) ≡ false = ==_ne y x (λ e. ne (sym e)) in
      rw (link, there, open_, other, ==_refl x, past)
        (elim (Bool-cases ((m y).next != 0)) [
          | inl on ↦ rw on (ground arith)
          | inr off ↦ rw off (ground arith)
        ])

  pub join_prev-at :
      (m y).prev ≡ x → x ≢ 0 → (m x).free ≡ true → (a : ℕ) → join_prev m y a ≡ absorbed m x y a
  unfolding join_prev update
  join_prev-at link nonzero open_ a =
      let there : (x != 0) ≡ true = !=_ne x 0 nonzero in
      let past : ((m y).next == x) ≡ false = ==_ne (m y).next x ahead in
      let other : (y == x) ≡ false = ==_ne y x (λ e. ne (sym e)) in
      rw (link, there, open_, other, ==_refl x, past)
        (elim (Bool-cases ((m y).next != 0)) [
          | inl on ↦ rw on (ground arith)
          | inr off ↦ rw off (ground arith)
        ])

-- The block behind `b` joins it if it is free.
abbrev pub join : Bool → Block → List Block → List Block
join when b [] = b ∷ []
join when b (d ∷ ds) =
    if when
    then record { bytes = b.bytes + header_size + d.bytes; free = b.free } ∷ ds
    else b ∷ d ∷ ds

live-next : (p : ℕ) (bs : List Block) → next_addr p bs ≢ 0 → next_addr p bs ≡ p
live-next p [] h = absurd (h refl)
live-next p (b ∷ bs) h = refl

pub beyond : (a p : ℕ) (bs : List Block) → p < a → a ≢ next_addr p bs
beyond a p [] h = omega arith
beyond a p (b ∷ bs) h = omega arith

pub &&_false : (b : Bool) → (b && false) ≡ false
&&_false true = refl
&&_false false = refl

pub absorbed-Chain :
    (m m' : Store) (q x : ℕ) (b d : Block) (ds : List Block)
    → 0 < x
    → span (b ∷ d ∷ ds) < 2 ^ 63
    → Chain m q x (b ∷ d ∷ ds)
    → ((a : ℕ) → m' a ≡ absorbed m x (x + header_size + b.bytes) a)
    → Chain m' q x (record { bytes = b.bytes + header_size + d.bytes; free = b.free } ∷ ds)
absorbed-Chain m m' q x b d ds pos small (at, (at', c)) same =
    let y : ℕ = x + header_size + b.bytes in
    let end : ℕ = y + header_size + d.bytes in
    let e : x + header_size + (b.bytes + header_size + d.bytes) ≡ end = omega arith in
    let sum : add64 b.bytes (add64 header_size d.bytes) ≡ b.bytes + header_size + d.bytes =
      omega arith in
    rw e (
      same x ∙ rw (==_refl x, at, at', sum) refl,
      Chain-relink m m' y x end ds (omega arith)
          (λ linked.
            let past : (end == x) ≡ false = ==_ne end x (omega arith) in
            let on : (next_addr end ds != 0) ≡ true = !=_ne (next_addr end ds) 0 linked in
            let to_end : next_addr end ds ≡ end = live-next end ds linked in
            same end ∙ rw (past, at', on, to_end, ==_refl end))
          (λ a hi.
            let past : (a == x) ≡ false = ==_ne a x (omega arith) in
            let off : (a == next_addr end ds) ≡ false =
              ==_ne a (next_addr end ds) (beyond a end ds hi) in
            same a ∙ rw (past, at', off, &&_false))
          c,
    )
