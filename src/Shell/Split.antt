-- ===== src/Shell/Split.antt =====
-- kernel/shell.c: how split_arg takes a line apart.
use revinix_os.Base.{
  ℕ, zero, suc, ◌+◌, ◌<◌, ◌≤◌, ◌≡◌, ◌≢◌, refl, sym, ap, ◌∙◌, ◌⊎◌, inl, inr, ◌&&◌, some, ◌==◌, ◌!=◌,
  update, Bool-cases, ==_ne, arith,
}
use revinix_os.Fs.Block.{Bytes}
use revinix_os.Shell.{word_end, skip_spaces, split_arg}

-- The characters from `p` to `e` are no spaces and no terminator, and there is one at `e`.
record Word (line : Bytes) (p e : ℕ) : Type 0 where
  forward : p ≤ e
  inside : (i : ℕ) → p ≤ i → i < e → (line i ≢ 0) × (line i ≢ 32)
  ends : (line e ≡ 0) ⊎ (line e ≡ 32)

-- The characters from `p` to `e` are spaces, and the one at `e` is none.
record Spaces (line : Bytes) (p e : ℕ) : Type 0 where
  forward : p ≤ e
  inside : (i : ℕ) → p ≤ i → i < e → line i ≡ 32
  ends : line e ≢ 32

-- What is left of a line: the word from its start, and either nothing behind it or an argument,
-- which starts behind all the spaces; the first of them becomes the terminator of the word.
pub data Split (line : Bytes) : ℕ × Bytes → Type 0 where
  alone :
      {e : ℕ} → ((i : ℕ) → i < e → (line i ≢ 0) × (line i ≢ 32)) → line e ≡ 0 → Split line (e, line)
  with_argument :
      {e a : ℕ}
      → ((i : ℕ) → i < e → (line i ≢ 0) × (line i ≢ 32))
      → e < a
      → ((i : ℕ) → e ≤ i → i < a → line i ≡ 32)
      → line a ≢ 32
      → Split line (a, update line e 0)

word_end-Word :
    (fuel : ℕ) (line : Bytes) (p len : ℕ)
    → p ≤ len
    → len < p + fuel
    → line len ≡ 0
    → (e : ℕ) × (word_end fuel line p ≡ some e) × (e ≤ len) × Word line p e
unfolding word_end
word_end-Word zero line p len low enough stop = absurd (omega arith)
word_end-Word (suc fuel) line p len low enough stop =
    elim (Bool-cases ((line p != 0) && (line p != 32))) [
      | inr here ↦ (
        p,
        rw (word_end, here) refl,
        low,
        record {
          forward = omega arith;
          inside = λ i lo hi. absurd (omega arith);
          ends = ground arith;
        },
      )
      | inl on ↦
          let more : p ≢ len = λ e. ground (arith, ap line e, stop) in
          let (e, run, small, word) =
            word_end-Word fuel line (p + 1) len (omega arith) (omega arith) stop in
          (
            e,
            rw (word_end, on) run,
            small,
            record {
              forward = omega (arith, word.forward);
              inside = λ i lo hi. elim (Bool-cases (i == p)) [
                | inl now ↦ let same : i ≡ p = ground arith in rw same (ground arith)
                | inr later ↦ word.inside i (ground arith) hi
              ];
              ends = word.ends;
            },
          )
    ]

skip_spaces-Spaces :
    (fuel : ℕ) (line : Bytes) (p len : ℕ)
    → p ≤ len
    → len < p + fuel
    → line len ≡ 0
    → (e : ℕ) × (skip_spaces fuel line p ≡ some e) × Spaces line p e
unfolding skip_spaces
skip_spaces-Spaces zero line p len low enough stop = absurd (omega arith)
skip_spaces-Spaces (suc fuel) line p len low enough stop = elim (Bool-cases (line p == 32)) [
  | inr here ↦ (
    p,
    rw (skip_spaces, here) refl,
    record { forward = omega arith; inside = λ i lo hi. absurd (omega arith); ends = ground arith },
  )
  | inl on ↦
      let more : p ≢ len = λ e. ground (arith, ap line e, stop) in
      let (e, run, spaces) =
        skip_spaces-Spaces fuel line (p + 1) len (omega arith) (omega arith) stop in
      (
        e,
        rw (skip_spaces, on) run,
        record {
          forward = omega (arith, spaces.forward);
          inside = λ i lo hi. elim (Bool-cases (i == p)) [
            | inl now ↦ let same : i ≡ p = ground arith in rw same (ground arith)
            | inr later ↦ spaces.inside i (ground arith) hi
          ];
          ends = spaces.ends;
        },
      )
]

update_other : (m : Bytes) (p v a : ℕ) → a ≢ p → update m p v a ≡ m a
unfolding update
update_other m p v a ne = rw (==_ne a p ne) refl

-- For a string that ends within the fuel, `split_arg` ends, with the word up to the first space or the
-- end of the line and with the argument behind all the spaces that follow; of the line it changes
-- the first of these spaces at most.
pub split_arg-Split :
    (fuel : ℕ) (line : Bytes) (len : ℕ)
    → len < fuel
    → line len ≡ 0
    → (result : ℕ × Bytes) × (split_arg fuel line ≡ some result) × Split line result
unfolding split_arg
split_arg-Split fuel line len enough stop =
    let (e, run, small, word) = word_end-Word fuel line 0 len (omega arith) (omega arith) stop in
    elim (Bool-cases (line e == 32)) [
      | inr off ↦ (
        (e, line),
        rw (split_arg, run, off) refl,
        alone (λ i lt. word.inside i (omega arith) lt) (ground (arith, off, word.ends)),
      )
      | inl on ↦
          let more : e ≢ len = λ same. ground (arith, on, ap line same, stop) in
          let cut = update line e 0 in
          let same : (a : ℕ) → e < a → cut a ≡ line a =
            λ a lt. update_other line e 0 a (omega (arith, lt)) in
          let (a, run1, spaces) =
            skip_spaces-Spaces fuel cut (e + 1) len (omega arith) (omega arith)
              (same len (omega (arith, more, small)) ∙ stop) in
          let first : line e ≡ 32 = ground arith in
          (
            (a, cut),
            rw (split_arg, run, on, run1) refl,
            with_argument (λ i lt. word.inside i (omega arith) lt) (omega (arith, spaces.forward))
                (λ (i : ℕ) (lo : e ≤ i) (hi : i < a). elim (Bool-cases (i == e)) [
                  | inl now ↦ let at : i ≡ e = ground arith in rw at first
                  | inr later ↦
                      let lt : e < i = ground (arith, lo, later) in
                      sym (same i lt) ∙ spaces.inside i (omega (arith, lt)) hi
                ])
                (λ space. spaces.ends (same a (omega (arith, spaces.forward)) ∙ space)),
          )
    ]
