-- ===== src/Fs/Fat/Names.antt =====
-- 8.3 names: `fat32_format_name` and `fat_streq`.
use revinix_os.Base.{
  ℕ, zero, suc, ◌+◌, ◌-◌, ◌≤◌, ◌<◌, ◌≡◌, refl, sym, ap, ◌∙◌, ◌≢◌, ◌↔◌, true, arith, List, [], ◌∷◌,
  ◌++◌, length, get_or, ltb, ◌!=◌, if◌then◌else◌, ==_ne, !=_ne, lt→ltb, le→ltb,
}
use revinix_os.Fs.Block.{Bytes}
use revinix_os.Fs.Fat.{unpadded, format_name, streq}

-- no character of the list is `c`
abbrev pub Without : ℕ → List ℕ → Type 0
Without c [] = Unit {0}
Without c (x ∷ xs) = (x ≢ c) × Without c xs

-- the name field of a directory entry: base and extension, padded with spaces
pub name_field : List ℕ → List ℕ → Bytes
name_field base ext i = if ltb i 8 then get_or base i 32 else get_or ext (i - 8) 32

unpadded-list :
    (n off : ℕ) (xs : List ℕ) (name : Bytes)
    → length xs ≤ n
    → Without 32 xs
    → ((i : ℕ) → i < n → name (off + i) ≡ get_or xs i 32)
    → unpadded n off name ≡ xs
unfolding unpadded
unpadded-list zero off [] name short clean at = refl
unpadded-list zero off (x ∷ xs) name short clean at = absurd (omega arith)
unpadded-list (suc n) off [] name short clean at =
    let here : off + 0 ≡ off = omega arith in
    let e : name off ≡ 32 = ap name (sym here) ∙ at 0 (omega arith) in rw e (ground arith)
unpadded-list (suc n) off (x ∷ xs) name short (ne, clean) at =
    let here : off + 0 ≡ off = omega arith in
    let e : name off ≡ x = ap name (sym here) ∙ at 0 (omega arith) in
    rw (e, ==_ne x 32 ne)
      (ap (λ ys. x ∷ ys)
        (unpadded-list n (off + 1) xs name (omega arith) clean (λ i lt.
          let shift : off + 1 + i ≡ off + suc i = omega arith in
          ap name shift ∙ at (suc i) (omega arith))))

-- What is printed for a name: the extension only if there is one.
pub dotted : List ℕ → List ℕ → List ℕ
dotted base [] = base
dotted base (x ∷ xs) = base ++ (46 ∷ x ∷ xs)

append_nil : (xs : List ℕ) → xs ++ [] ≡ xs
append_nil [] = refl
append_nil (x ∷ xs) = ap (λ ys. x ∷ ys) (append_nil xs)

field-base : (base ext : List ℕ) (i : ℕ) → i < 8 → name_field base ext (0 + i) ≡ get_or base i 32
unfolding name_field
field-base base ext i lt = let e : 0 + i ≡ i = omega arith in rw (e, lt→ltb i 8 lt) refl

field-ext : (base ext : List ℕ) (i : ℕ) → name_field base ext (8 + i) ≡ get_or ext i 32
unfolding name_field
field-ext base ext i =
    let e : 8 + i - 8 ≡ i = omega arith in rw (le→ltb (8 + i) 8 (omega arith), e) refl

-- `fat32_format_name` of a base of at most 8 and an extension of at most 3 characters, without
-- spaces, padded as on the disk, is the base, and if there is an extension a dot and the extension.
pub format_name-dotted :
    (base ext : List ℕ)
    → length base ≤ 8
    → length ext ≤ 3
    → Without 32 base
    → Without 32 ext
    → format_name (name_field base ext) ≡ dotted base ext
unfolding format_name dotted
format_name-dotted base [] short short' clean clean' =
    rw (unpadded-list 8 0 base (name_field base []) short clean (field-base base []))
      (rw (field-ext base [] 0) (append_nil base))
format_name-dotted base (x ∷ xs) short short' clean clean' =
    let there : (x != 32) ≡ true = !=_ne x 32 clean'.0 in
    rw (unpadded-list 8 0 base (name_field base (x ∷ xs)) short clean (field-base base (x ∷ xs))) (
      rw
        (
          unpadded-list 3 8 (x ∷ xs) (name_field base (x ∷ xs)) short' clean'
              (λ i lt. field-ext base (x ∷ xs) i),
          field-ext base (x ∷ xs) 0,
          there,
        )
        refl)

-- `fat_streq` of two strings without a 0 inside says whether they are equal.
pub streq_iff : (xs ys : List ℕ) → Without 0 xs → Without 0 ys → (streq xs ys ≡ true) ↔ (xs ≡ ys)
unfolding streq
streq_iff [] [] a b = (λ h. refl, λ h. refl)
streq_iff [] (y ∷ ys) (a) (ne, b) = (λ h. absurd (ground arith), λ h. absurd (ground arith))
streq_iff (x ∷ xs) [] (ne, a) b = (λ h. absurd (ground arith), λ h. absurd (ground arith))
streq_iff (x ∷ xs) (y ∷ ys) (nx, a) (ny, b) =
    let (to, from) = streq_iff xs ys a b in rw (!=_ne x 0 nx, !=_ne y 0 ny) (ground arith)
