-- ===== src/Syscall/Write.antt =====
-- What `sys_write` prints and answers.
use revinix_os.Base.{
  ℕ, zero, suc, ◌+◌, ◌-◌, ◌*◌, ◌^◌, ◌≤◌, ◌<◌, ◌≡◌, refl, sym, ap, ◌∙◌, ◌↔◌, ◌⊎◌, inl, inr, Bool,
  true, false, arith, some, List, [], ◌∷◌, ◌++◌, ltb, ◌==◌, if◌then◌else◌, Bool-cases, ==_refl,
  ==_ne, lt→ltb, min, add64, sub64, update,
}
use revinix_os.Mm.Vmm.{user_space_end}
use revinix_os.Mm.Vmm.Range.{UserAccess, user_range_ok_iff, user_range_ok-empty}
use revinix_os.Syscall.{
  Machine, range_ok, current_pml4, efault, einval, write_max, write_chunk, copy_user,
  copy_from_user, print_chars, write_from, sys_write,
}

-- the `n` bytes from `a` on
pub bytes_at : (ℕ → ℕ) → ℕ → ℕ → List ℕ
bytes_at m a zero = []
bytes_at m a (suc n) = m a ∷ bytes_at m (a + 1) n

append_nil : (xs : List ℕ) → xs ++ [] ≡ xs
append_nil [] = refl
append_nil (x ∷ xs) = ap (λ ys. x ∷ ys) (append_nil xs)

append_assoc : (xs ys zs : List ℕ) → (xs ++ ys) ++ zs ≡ xs ++ (ys ++ zs)
append_assoc [] ys zs = refl
append_assoc (x ∷ xs) ys zs = ap (λ us. x ∷ us) (append_assoc xs ys zs)

bytes_at-append :
    (m : ℕ → ℕ) (a n k : ℕ) → bytes_at m a n ++ bytes_at m (a + n) k ≡ bytes_at m a (n + k)
unfolding bytes_at
bytes_at-append m a zero k =
    let e : a + 0 ≡ a = omega arith in let e' : 0 + k ≡ k = omega arith in rw (e, e') refl
bytes_at-append m a (suc n) k =
    let e : a + suc n ≡ a + 1 + n = omega arith in
    let e' : suc n + k ≡ suc (n + k) = omega arith in
    rw (e, e') (ap (λ xs. m a ∷ xs) (bytes_at-append m (a + 1) n k))

bytes_at-same :
    (n : ℕ) (m m' : ℕ → ℕ) (a b : ℕ)
    → ((i : ℕ) → i < n → m (a + i) ≡ m' (b + i))
    → bytes_at m a n ≡ bytes_at m' b n
unfolding bytes_at
bytes_at-same zero m m' a b h = refl
bytes_at-same (suc n) m m' a b h =
    let e : a + 0 ≡ a = omega arith in
    let e' : b + 0 ≡ b = omega arith in
    rw
      (
        ap m (sym e) ∙ h 0 (omega arith) ∙ ap m' e',
        bytes_at-same n m m' (a + 1) (b + 1) (λ i lt.
            let s : a + 1 + i ≡ a + suc i = omega arith in
            let s' : b + suc i ≡ b + 1 + i = omega arith in
            ap m s ∙ h (suc i) (omega arith) ∙ ap m' s'),
      )
      refl

print_chars-bytes_at :
    (n i : ℕ) (kbuf : ℕ → ℕ) (out : List ℕ) → print_chars n i kbuf out ≡ out ++ bytes_at kbuf i n
unfolding print_chars bytes_at
print_chars-bytes_at zero i kbuf out = sym (append_nil out)
print_chars-bytes_at (suc n) i kbuf out =
    print_chars-bytes_at n (i + 1) kbuf (out ++ (kbuf i ∷ []))
    ∙ append_assoc out (kbuf i ∷ []) (bytes_at kbuf (i + 1) n)

copy_user-below :
    (n i from : ℕ) (src dst : ℕ → ℕ) (j : ℕ)
    → j < i
    → i + n < 2 ^ 64
    → copy_user n i from 0 src dst j ≡ dst j
unfolding copy_user update
copy_user-below zero i from src dst j lo small = refl
copy_user-below (suc n) i from src dst j lo small =
    copy_user-below n (i + 1) from src (update dst (add64 0 i) (src (add64 from i))) j (omega arith)
      (omega arith)
    ∙ rw (==_ne j (add64 0 i) (omega arith)) refl

-- the copy into a kernel buffer
copy_user-at :
    (n i from : ℕ) (src dst : ℕ → ℕ) (j : ℕ)
    → i ≤ j
    → j < i + n
    → i + n < 2 ^ 64
    → from + i + n < 2 ^ 64
    → copy_user n i from 0 src dst j ≡ src (from + j)
unfolding copy_user update
copy_user-at zero i from src dst j lo hi small low = absurd (omega arith)
copy_user-at (suc n) i from src dst j lo hi small low = elim (Bool-cases (i == j)) [
  | inl on ↦
      let same : j ≡ i = ground arith in
      let at : add64 0 i ≡ i = omega arith in
      let at' : add64 from i ≡ from + i = omega arith in
      rw (same, at, at')
        (copy_user-below n (i + 1) from src (update dst i (src (from + i))) i (omega arith)
            (omega arith)
          ∙ rw (==_refl i) refl)
  | inr off ↦
      copy_user-at n (i + 1) from src (update dst (add64 0 i) (src (add64 from i))) j (ground arith)
        (omega arith) (omega arith) (omega arith)
]

-- Every byte of the range is in the user half, and Ring 3 may read it.
abbrev pub MayRead : Machine → ℕ → ℕ → Type 0
MayRead s a n =
    (a + n ≤ user_space_end)
    × ((b : ℕ) → a ≤ b → b < a + n → UserAccess s.tables (current_pml4 s) false b)

range_ok_iff :
    (s : Machine) (a n : ℕ)
    → a < 2 ^ 64
    → 0 < n
    → n < 2 ^ 64
    → (range_ok s a n false ≡ true) ↔ MayRead s a n
unfolding range_ok
range_ok_iff s a n low pos small =
    user_range_ok_iff s.tables (current_pml4 s) false a n low pos small

MayRead-part : (s : Machine) (a n d k : ℕ) → d + k ≤ n → MayRead s a n → MayRead s (a + d) k
MayRead-part s a n d k le (fits, all) = (omega arith, λ b lo hi. all b (omega arith) (omega arith))

MayRead-printed :
    (s : Machine) (out : List ℕ) (a n : ℕ)
    → MayRead s a n
    → MayRead (record s { console = out }) a n
unfolding current_pml4
MayRead-printed s out a n h = h

copied :
    (s : Machine) (a n : ℕ)
    → 0 < n
    → n ≤ write_chunk
    → MayRead s a n
    → (kbuf : ℕ → ℕ) × (copy_from_user s (λ i. 0) a n ≡ some kbuf)
      × ((out : List ℕ) → print_chars n 0 kbuf out ≡ out ++ bytes_at s.mem a n)
unfolding copy_from_user
copied s a n pos short may =
    let ok : range_ok s a n false ≡ true =
      (range_ok_iff s a n (omega (arith, may.0)) pos (omega arith)).1 may in
    (
      copy_user n 0 a 0 s.mem (λ i. 0),
      rw ok refl,
      λ out.
          print_chars-bytes_at n 0 (copy_user n 0 a 0 s.mem (λ i. 0)) out
          ∙ ap (λ xs. out ++ xs)
              (bytes_at-same n (copy_user n 0 a 0 s.mem (λ i. 0)) s.mem 0 a (λ i lt.
                let e : 0 + i ≡ i = omega arith in
                ap (copy_user n 0 a 0 s.mem (λ i'. 0)) e
                ∙ copy_user-at n 0 a s.mem (λ i'. 0) i (omega arith) (omega arith) (omega arith)
                    (omega (arith, may.0)))),
    )

no_bytes : (s : Machine) (a : ℕ) → s.console ++ bytes_at s.mem a 0 ≡ s.console
unfolding bytes_at
no_bytes s a = append_nil s.console

write_from-step :
    (fuel ubuf count d : ℕ) (s : Machine) (kbuf : ℕ → ℕ) (text : List ℕ)
    → d < count
    → count ≤ write_max
    → ubuf + count < 2 ^ 63
    → copy_from_user s (λ i. 0) (ubuf + d) (min write_chunk (count - d)) ≡ some kbuf
    → print_chars (min write_chunk (count - d)) 0 kbuf s.console ≡ text
    → write_from (suc fuel) ubuf count d s
      ≡ write_from fuel ubuf count (d + min write_chunk (count - d)) (record s { console = text })
unfolding write_from
write_from-step fuel ubuf count d s kbuf text lt small low got prints =
    let left : sub64 count d ≡ count - d = omega arith in
    let take : (if ltb write_chunk (count - d) then write_chunk else count - d)
        ≡ min write_chunk (count - d) =
      ground arith in
    let at : add64 ubuf d ≡ ubuf + d = omega arith in
    let sum : add64 d (min write_chunk (count - d)) ≡ d + min write_chunk (count - d) =
      omega arith in
    rw (lt→ltb d count lt, left, take, at, got) (rw (left, take, sum, prints) refl)

write_from-all :
    (fuel ubuf count d : ℕ) (s : Machine)
    → d ≤ count
    → count ≤ write_max
    → count + 255 < d + write_chunk * fuel
    → MayRead s ubuf count
    → write_from fuel ubuf count d s
      ≡ some (count, record s { console = s.console ++ bytes_at s.mem (ubuf + d) (count - d) })
unfolding write_from
write_from-all zero ubuf count d s le small enough may = absurd (omega arith)
write_from-all (suc fuel) ubuf count d s le small enough may = elim (Bool-cases (ltb d count)) [
  | inr off ↦
      let none_left : count - d ≡ 0 = ground arith in
      let whole : d ≡ count = ground arith in
      rw (off, none_left, no_bytes s (ubuf + d)) (ap (λ c. some (c, s)) whole)
  | inl on ↦
      let lt : d < count = ground arith in
      let n : ℕ = min write_chunk (count - d) in
      let (kbuf, got, prints) =
        copied s (ubuf + d) n (omega arith) (omega arith)
          (MayRead-part s ubuf count d n (omega arith) may) in
      let s' : Machine = record s { console = s.console ++ bytes_at s.mem (ubuf + d) n } in
      let rest =
        write_from-all fuel ubuf count (d + n) s' (omega arith) small (omega arith)
          (MayRead-printed s (s.console ++ bytes_at s.mem (ubuf + d) n) ubuf count may) in
      let next : ubuf + (d + n) ≡ ubuf + d + n = omega arith in
      let split : n + (count - (d + n)) ≡ count - d = omega arith in
      let text : (s.console ++ bytes_at s.mem (ubuf + d) n)
            ++ bytes_at s.mem (ubuf + (d + n)) (count - (d + n))
          ≡ s.console ++ bytes_at s.mem (ubuf + d) (count - d) =
        append_assoc s.console (bytes_at s.mem (ubuf + d) n)
          (bytes_at s.mem (ubuf + (d + n)) (count - (d + n)))
        ∙ ap (λ xs. s.console ++ xs)
            (ap (λ a. bytes_at s.mem (ubuf + d) n ++ bytes_at s.mem a (count - (d + n))) next
              ∙ bytes_at-append s.mem (ubuf + d) n (count - (d + n))
              ∙ ap (bytes_at s.mem (ubuf + d)) split) in
      write_from-step fuel ubuf count d s kbuf (s.console ++ bytes_at s.mem (ubuf + d) n) lt small
        (omega (arith, may.0)) got (prints s.console)
      ∙ (rest ∙ ap (λ out. some (count, record s { console = out })) text)
]

-- What `SYS_WRITE` answers and prints.
pub data Written (s : Machine) (ubuf count : ℕ) : ℕ × Machine → Type 0 where
  too_much : write_max < count → Written s ubuf count (einval, s)
  refused : count ≤ write_max → ¬ MayRead s ubuf count → Written s ubuf count (efault, s)
  printed :
      count ≤ write_max
      → ((count ≡ 0) ⊎ MayRead s ubuf count)
      → Written s ubuf count (count, record s { console = s.console ++ bytes_at s.mem ubuf count })

Bool-clash : {b : Bool} → b ≡ true → b ≡ false → ⊥
Bool-clash on off = ground arith

range_ok-empty : (s : Machine) (a : ℕ) → range_ok s a 0 false ≡ true
unfolding range_ok
range_ok-empty s a = user_range_ok-empty s.tables (current_pml4 s) a false

write_from-empty : (s : Machine) (ubuf : ℕ) → write_from 4097 ubuf 0 0 s ≡ some (0, s)
unfolding write_from
write_from-empty s ubuf = refl

sys_write-empty :
    (s : Machine) (ubuf count : ℕ)
    → count ≡ 0
    → (out : ℕ × Machine) × (sys_write 4097 s ubuf count ≡ some out) × Written s ubuf count out
unfolding sys_write
sys_write-empty s ubuf count e =
    rw (e, range_ok-empty s ubuf)
      (
        (0, record s { console = s.console ++ bytes_at s.mem ubuf 0 }),
        write_from-empty s ubuf
            ∙ ap (λ c. some (0, record s { console = c })) (sym (no_bytes s ubuf)),
        printed (omega arith) (inl refl),
      )

-- `sys_write` on 64-bit arguments ends with at most 4097 rounds of its loop. Above 1 MB it answers
-- -EINVAL; if some byte of the buffer is not in the user half or Ring 3 may not read it, -EFAULT; in
-- both cases nothing is printed. Else exactly the bytes of the buffer are printed, in their order,
-- and the answer is their number.
pub sys_write-Written :
    (s : Machine) (ubuf count : ℕ)
    → ubuf < 2 ^ 64
    → (out : ℕ × Machine) × (sys_write 4097 s ubuf count ≡ some out) × Written s ubuf count out
unfolding sys_write
sys_write-Written s ubuf count low = elim (Bool-cases (ltb write_max count)) [
  | inl big ↦ rw big ((einval, s), refl, too_much (ground arith))
  | inr fits ↦ elim (Bool-cases (count == 0)) [
    | inl none_ ↦ sys_write-empty s ubuf count (ground arith)
    | inr some_ ↦
        let iff = range_ok_iff s ubuf count low (ground arith) (ground arith) in
        elim (Bool-cases (range_ok s ubuf count false)) [
          | inl on ↦
              let may : MayRead s ubuf count = iff.0 on in
              let base : ubuf + 0 ≡ ubuf = omega arith in
              let whole : count - 0 ≡ count = omega arith in
              let all =
                write_from-all 4097 ubuf count 0 s (omega arith) (ground arith) (ground arith)
                  may in
              rw (fits, on)
                (
                  (count, record s { console = s.console ++ bytes_at s.mem ubuf count }),
                  all
                      ∙ ap
                          (λ a. some (
                            count,
                            record s { console = s.console ++ bytes_at s.mem a (count - 0) },
                          ))
                          base
                      ∙ ap
                          (λ n.
                            some (count, record s { console = s.console ++ bytes_at s.mem ubuf n }))
                          whole,
                  printed (ground arith) (inr may),
                )
          | inr off ↦
              rw (fits, off)
                ((efault, s), refl, refused (ground arith) (λ may. Bool-clash (iff.1 may) off))
        ]
  ]
]
