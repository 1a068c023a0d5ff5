-- ===== src/Mm/Vmm/Entries.antt =====
-- Page-table entries: flags and address.
use revinix_os.Base.{
  ℕ, ◌-◌, ◌*◌, ◌/◌, ◌%◌, ◌^◌, ◌<◌, ◌≡◌, refl, ap, ◌⊎◌, inl, inr, bit_or, true, false, ◌||◌, has_bit,
  arith, has_bit_lem, bit_and_mask, bit_and_shifted, bit_or-zero, bit_or-mod, bit_or-div,
}
use revinix_os.Mm.Vmm.{entry_addr, is_huge, is_present}

pub entry_addr_lem : (e : ℕ) → entry_addr e ≡ e / 4096 % 2 ^ 40 * 4096
unfolding entry_addr
entry_addr_lem e = omega (
  arith,
  bit_and_shifted 12 e (2 ^ 40 - 1),
  ap (λ (t : ℕ). t * 4096) (bit_and_mask 40 (e / 4096)),
)

-- Setting bits sets just these bits.
pub has_bit-or : (k a b : ℕ) → has_bit (bit_or a b) k ≡ (has_bit a k || has_bit b k)
has_bit-or k a b = ground (
  arith,
  has_bit_lem (bit_or a b) k,
  has_bit_lem a k,
  has_bit_lem b k,
  bit_or-div k a b,
  bit_or-mod (a / 2 ^ k) (b / 2 ^ k),
)

-- Flags in the low twelve bits leave the address alone.
pub entry_addr-or : (e flags : ℕ) → flags < 4096 → entry_addr (bit_or e flags) ≡ entry_addr e
entry_addr-or e flags low =
    let high : bit_or e flags / 4096 ≡ bit_or (e / 4096) (flags / 4096) = bit_or-div 12 e flags in
    let none : flags / 4096 ≡ 0 = omega arith in simp (entry_addr_lem, high, none, bit_or-zero)

pub entry_addr-frame : (f : ℕ) → f < 2 ^ 40 → entry_addr (f * 4096) ≡ f * 4096
entry_addr-frame f small = omega (arith, entry_addr_lem (f * 4096))

has_bit-frame : (f k : ℕ) → (k ≡ 0) ⊎ (k ≡ 7) → has_bit (f * 4096) k ≡ false
has_bit-frame f k (inl e) = rw e (ground (arith, has_bit_lem (f * 4096) 0))
has_bit-frame f k (inr e) = rw e (ground (arith, has_bit_lem (f * 4096) 7))

-- the flags PRESENT, WRITABLE and USER, which no table entry shares with HUGE
flags_seven :
    ((has_bit 1 0 || has_bit 2 0 || has_bit 4 0) ≡ true)
    × ((has_bit 1 7 || has_bit 2 7 || has_bit 4 7) ≡ false)
unfolding has_bit
flags_seven = (refl, refl)

abbrev pub table_entry : ℕ → ℕ
table_entry frame = bit_or (bit_or (bit_or frame 1) 2) 4

pub table_entry_lem :
    (f : ℕ)
    → f < 2 ^ 40
    → (entry_addr (table_entry (f * 4096)) ≡ f * 4096)
      × (is_present (table_entry (f * 4096)) ≡ true)
      × (is_huge (table_entry (f * 4096)) ≡ false)
table_entry_lem f small =
    let a : ℕ = f * 4096 in
    (
      rw
          (
            entry_addr-or (bit_or (bit_or a 1) 2) 4 (omega arith),
            entry_addr-or (bit_or a 1) 2 (omega arith),
            entry_addr-or a 1 (omega arith),
          )
          (entry_addr-frame f small),
      rw (has_bit-or, has_bit-or, has_bit-or, has_bit-frame f 0 (inl refl)) flags_seven.0,
      rw (has_bit-or, has_bit-or, has_bit-or, has_bit-frame f 7 (inr refl)) flags_seven.1,
    )
