-- ===== src/Mm/Pmm/Init/Place.antt =====
-- Where `pmm_init` puts the bitmap.
use revinix_os.Base.{
  ℕ, suc, ◌+◌, ◌%◌, ◌^◌, ◌≤◌, ◌<◌, ◌≡◌, refl, ◌⊎◌, inl, inr, true, false, arith, Option, some,
  Bool-cases, add64, align_up,
}
use revinix_os.Mm.Pmm.{frame_size}
use revinix_os.Mm.Pmm.Init.{Layout, hits_mb2, hits_module, past_mb2, past_module, place_from, place}

-- Ends and sizes for which the bitmap's end does not wrap.
abbrev pub IsLow : Layout → Type 0
IsLow l = (l.mb2_end < 2 ^ 62) × (l.mod_end < 2 ^ 62) × (l.size < 2 ^ 62)

-- The bitmap at `s` overlaps neither the boot information nor the module.
abbrev pub IsClear : Layout → ℕ → Type 0
IsClear l s =
    ((l.mb2_end ≤ s) ⊎ (s + l.size ≤ l.mb2_start))
    × ((l.mod_end ≡ 0) ⊎ ((l.mod_end ≤ s) ⊎ (s + l.size ≤ l.mod_start)))

-- A placement from `s` on: found, aligned, clear of both.
abbrev pub Placed : Layout → ℕ → Option ℕ → Type 0
Placed l s o = (s' : ℕ) × (o ≡ some s') × IsClear l s' × (s ≤ s') × (s' % frame_size ≡ 0)

off_mb2 : (l : Layout) (s : ℕ) → l.mb2_end ≤ s → hits_mb2 l s ≡ false
off_mb2 l s h = ground arith

off_module : (l : Layout) (s : ℕ) → l.mod_end ≤ s → hits_module l s ≡ false
off_module l s h = ground arith

stays-IsClear :
    (l : Layout) (s : ℕ)
    → IsLow l
    → s < 2 ^ 63
    → hits_mb2 l s ≡ false
    → hits_module l s ≡ false
    → IsClear l s
stays-IsClear l s (a, b, c) low off off' =
    let wide : add64 s l.size ≡ s + l.size = omega arith in (ground arith, ground arith)

stays :
    (l : Layout) (fuel s : ℕ)
    → IsLow l
    → s < 2 ^ 63
    → s % frame_size ≡ 0
    → hits_mb2 l s ≡ false
    → hits_module l s ≡ false
    → Placed l s (place_from (suc fuel) l s)
unfolding place_from past_mb2 past_module
stays l fuel s low small whole off off' =
    (s, rw (off, off') refl, stays-IsClear l s low small off off', omega arith, whole)

moved_mb2 :
    (l : Layout) (fuel s : ℕ)
    → hits_mb2 l s ≡ true
    → place_from (suc fuel) l s ≡ place_from fuel l (past_module l (align_up l.mb2_end frame_size))
unfolding place_from past_mb2
moved_mb2 l fuel s on = rw on refl

moved_module :
    (l : Layout) (fuel s : ℕ)
    → hits_mb2 l s ≡ false
    → hits_module l s ≡ true
    → place_from (suc fuel) l s ≡ place_from fuel l (align_up l.mod_end frame_size)
unfolding place_from past_mb2 past_module
moved_module l fuel s off on = rw (off, on) refl

past_module-cases :
    (l : Layout) (s : ℕ)
    → IsLow l
    → ((hits_module l s ≡ false) × (past_module l s ≡ s))
      ⊎ ((past_module l s ≡ align_up l.mod_end frame_size) × (s < l.mod_end))
unfolding past_module
past_module-cases l s low = elim (Bool-cases (hits_module l s)) [
  | inl on ↦ inr (rw on refl, ground arith)
  | inr off ↦ inl (off, rw off refl)
]

from : (l : Layout) (r s : ℕ) (o : Option ℕ) → r ≤ s → Placed l s o → Placed l r o
from l r s o le (s', e, clear, up, whole) = (s', e, clear, omega arith, whole)

-- A bitmap that overlapped the boot information is clear in the round after.
past_mb2-Placed :
    (l : Layout) (fuel s : ℕ)
    → IsLow l
    → hits_mb2 l s ≡ true
    → Placed l s (place_from (suc (suc fuel)) l s)
past_mb2-Placed l fuel s (a, b, c) on =
    let t : ℕ = align_up l.mb2_end frame_size in
    let over : s < l.mb2_end = ground arith in
    rw (moved_mb2 l (suc fuel) s on) (elim (past_module-cases l t (a, b, c)) [
      | inl (off, e) ↦ rw e (
          from l s t (place_from (suc fuel) l t) (omega arith)
            (stays l fuel t (a, b, c) (omega arith) (omega arith) (off_mb2 l t (omega arith)) off))
      | inr (e, lt) ↦
          let u : ℕ = align_up l.mod_end frame_size in
          rw e (
            from l s u (place_from (suc fuel) l u) (omega arith) (
              stays l fuel u (a, b, c) (omega arith) (omega arith) (off_mb2 l u (omega arith))
                (off_module l u (omega arith))))
    ])

past_module-Placed :
    (l : Layout) (s : ℕ)
    → IsLow l
    → hits_mb2 l s ≡ false
    → hits_module l s ≡ true
    → Placed l s (place_from 3 l s)
past_module-Placed l s (a, b, c) off on =
    let u : ℕ = align_up l.mod_end frame_size in
    let over : s < l.mod_end = ground arith in
    rw (moved_module l 2 s off on) (
      from l s u (place_from 2 l u) (omega arith) (elim (Bool-cases (hits_mb2 l u)) [
        | inl hit ↦ past_mb2-Placed l 0 u (a, b, c) hit
        | inr miss ↦
            stays l 1 u (a, b, c) (omega arith) (omega arith) miss (off_module l u (omega arith))
      ]))

-- For a kernel, boot information, module and bitmap size below 2 ^ 62, three rounds are enough: the
-- loop that moves the bitmap ends, with a frame-aligned place behind the kernel where the bitmap
-- overlaps neither the boot information nor the boot module.
pub place-Placed :
    (l : Layout) (kernel_end : ℕ)
    → IsLow l
    → kernel_end < 2 ^ 62
    → Placed l kernel_end (place 3 l kernel_end)
unfolding place
place-Placed l k low small =
    let s : ℕ = align_up k frame_size in
    from l k s (place_from 3 l s) (omega arith) (elim (Bool-cases (hits_mb2 l s)) [
      | inl hit ↦ past_mb2-Placed l 1 s low hit
      | inr miss ↦ elim (Bool-cases (hits_module l s)) [
        | inl on ↦ past_module-Placed l s low miss on
        | inr off ↦ stays l 2 s low (omega arith) (omega arith) miss off
      ]
    ])
