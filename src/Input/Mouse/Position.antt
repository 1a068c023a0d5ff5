-- ===== src/Input/Mouse/Position.antt =====
-- The pointer stays on the screen, and the packet buffer is never overrun.
use revinix_os.Base.{
  ℕ, ◌+◌, ◌<◌, ◌≡◌, inl, inr, true, false, not, ◌&&◌, ◌||◌, arith, ltb, ◌==◌, Bool-cases, update,
  has_bit, ℤ, pos, negsuc, pos_part, neg_part, ◌+ℤ◌, ◌-ℤ◌,
}
use revinix_os.Input.Mouse.{
  Mouse, screen_w, screen_h, delta, clamp, apply_packet, take_byte, handle_irq,
}

-- 0 ≤ v < limit
abbrev pub OnAxis : ℤ → ℕ → Type 0
OnAxis v limit = (neg_part v ≡ 0) × (pos_part v < limit)

-- A position on a screen that has pixels, and at most two bytes of a packet, the first of them with
-- bit 3 set.
pub record IsValid (m : Mouse) : Type 0 where
  pub across : OnAxis m.mx (screen_w m)
  pub down : OnAxis m.my (screen_h m)
  pub index : m.packet_idx < 3
  pub first : 0 < m.packet_idx → has_bit (m.packet 0) 3 ≡ true

clamp-OnAxis : (v : ℤ) (limit : ℕ) → 0 < limit → OnAxis (clamp v limit) limit
unfolding clamp ◌-ℤ◌
clamp-OnAxis (pos n) limit some_ = ground arith
clamp-OnAxis (negsuc n) limit some_ = ground arith

apply_packet-IsValid : (m : Mouse) → IsValid m → IsValid (apply_packet m)
unfolding apply_packet screen_w screen_h
apply_packet-IsValid m v = elim (Bool-cases (has_bit (m.packet 0) 6 || has_bit (m.packet 0) 7)) [
  | inl on ↦ rw on v
  | inr off ↦ rw off (record {
    across =
        clamp-OnAxis (m.mx +ℤ delta (m.packet 1) (has_bit (m.packet 0) 4)) (screen_w m)
          (omega (arith, v.across.1));
    down =
        clamp-OnAxis (m.my -ℤ delta (m.packet 2) (has_bit (m.packet 0) 5)) (screen_h m)
          (omega (arith, v.down.1));
    index = v.index;
    first = v.first;
  })
]

take_byte-first :
    (m : Mouse) (b : ℕ)
    → IsValid m
    → (m.packet_idx == 0) && not (has_bit b 3) ≡ false
    → has_bit (update m.packet m.packet_idx b 0) 3 ≡ true
unfolding update
take_byte-first m b v keep = elim (Bool-cases (m.packet_idx == 0)) [
  | inl on ↦
      let zero_ : m.packet_idx ≡ 0 = ground arith in
      let bit : has_bit b 3 ≡ true = ground arith in
      let same : (0 == m.packet_idx) ≡ true = ground arith in rw same bit
  | inr off ↦
      let past : (0 == m.packet_idx) ≡ false = ground arith in rw past (v.first (ground arith))
]

take_byte-IsValid : (m : Mouse) (b : ℕ) → IsValid m → IsValid (take_byte m b)
unfolding take_byte screen_w screen_h
take_byte-IsValid m b v = elim (Bool-cases ((m.packet_idx == 0) && not (has_bit b 3))) [
  | inl skip ↦ rw skip v
  | inr keep ↦ elim (Bool-cases (ltb (m.packet_idx + 1) 3)) [
    | inl more ↦
        rw (keep, more)
          (record {
            across = v.across;
            down = v.down;
            index = ground arith;
            first = λ pos. take_byte-first m b v keep;
          })
    | inr last ↦
        rw (keep, last)
          (apply_packet-IsValid
            (record m { packet = update m.packet m.packet_idx b; packet_idx = 0 })
            (record {
              across = v.across;
              down = v.down;
              index = omega arith;
              first = λ pos. absurd (omega arith);
            }))
  ]
]

-- Whatever bytes arrive, an interrupt keeps the pointer on the screen and the packet index inside
-- the packet, whose first byte, once taken, has bit 3 set.
pub handle_irq-IsValid : (m : Mouse) (status b : ℕ) → IsValid m → IsValid (handle_irq m status b)
unfolding handle_irq
handle_irq-IsValid m status b v = elim (Bool-cases (has_bit status 0)) [
  | inr off ↦ rw off v
  | inl full ↦ elim (Bool-cases m.ready) [
    | inr off ↦ simp (full, off) v
    | inl on ↦ simp (full, on) (take_byte-IsValid m b v)
  ]
]
