-- ===== src/Sched/Edit.antt =====
-- Tasks put into the run queue and taken out of it.
use revinix_os.Base.{
  ℕ, zero, suc, ◌<◌, ◌≡◌, refl, sym, ap, ◌∙◌, ◌≢◌, inl, inr, true, false, arith, some, List, [],
  ◌∷◌, ◌++◌, ◌==◌, ◌!=◌, if◌then◌else◌, Bool-cases, ==_refl, ==_ne, !=_ne, update, length,
}
use revinix_os.Sched.{Task, set_next, last_of, append, before_of, splice}
use revinix_os.Sched.Ring.{Linked, Linked-frame, Absent, Distinct, IsRing}

Absent-append : (y t : ℕ) (xs : List ℕ) → y ≢ t → Absent y xs → Absent y (xs ++ (t ∷ []))
Absent-append y t [] ne out = (ne, tt)
Absent-append y t (x ∷ xs) ne (a, out) = (a, Absent-append y t xs ne out)

Distinct-append : (t : ℕ) (xs : List ℕ) → Absent t xs → Distinct xs → Distinct (xs ++ (t ∷ []))
Distinct-append t [] out d = (tt, tt)
Distinct-append t (x ∷ xs) (ne, out) (a, d) =
    (Absent-append x t xs (λ e. ne (sym e)) a, Distinct-append t xs out d)

-- The end of the links from `p` through `xs` to `list`, and the links with `t` hung on there.
last_of-append :
    (fuel : ℕ) (m : ℕ → Task) (list t p : ℕ) (xs : List ℕ)
    → length xs < fuel
    → Linked m (p ∷ xs) list
    → Absent list xs
    → Absent t (p ∷ xs)
    → Distinct (p ∷ xs)
    → (q : ℕ) × (last_of fuel m list p ≡ some q)
      × (q ≢ t)
      × Linked (set_next (set_next m q t) t list) (p ∷ (xs ++ (t ∷ []))) list
      × ((y : ℕ) → Absent y (p ∷ xs) → y ≢ q)
unfolding last_of update
last_of-append zero m list t p xs enough h apart out d = absurd (omega arith)
last_of-append (suc fuel) m list t p [] enough (e, h) apart (ne, out) d = (
  p,
  rw e (ground arith),
  (λ c. ne (sym c)),
  (rw (==_ne p t (λ c. ne (sym c)), ==_refl p) refl, (rw (==_refl t) refl, tt)),
  (λ y a. a.0),
)
last_of-append (suc fuel) m list t p (x ∷ xs) enough (e, h) (na, apart) (ne, out) (dp, d) =
    let (q, found, other, linked, far) =
      last_of-append fuel m list t x xs (omega arith) h apart out d in
    let on : (x != list) ≡ true = !=_ne x list (λ c. na (sym c)) in
    let past : (p == q) ≡ false = ==_ne p q (far p dp) in
    let past_t : (p == t) ≡ false = ==_ne p t (λ c. ne (sym c)) in
    (q, rw (e, on) found, other, (rw (past_t, past) e, linked), (λ y a. far y a.1))

written :
    (m : ℕ → Task) (q t list : ℕ)
    → t ≢ q
    → set_next (set_next m q t) t list t ≡ record (m t) { next = list }
unfolding update
written m q t list ne = rw (==_refl t, ==_ne t q ne) refl

-- A task that is not in the ring yet is put at its end; the others keep their order.
pub append-IsRing :
    (fuel : ℕ) (m : ℕ → Task) (list t : ℕ) (xs : List ℕ)
    → length xs < fuel
    → IsRing m list xs
    → t ≢ 0
    → Absent t (list ∷ xs)
    → (m' : ℕ → Task) × (append fuel m list t ≡ some m')
      × IsRing m' list (xs ++ (t ∷ []))
      × (m' t ≡ record (m t) { next = list })
unfolding append
append-IsRing fuel m list t xs enough ring live out =
    let (q, found, other, linked, far) =
      last_of-append fuel m list t list xs enough ring.linked ring.distinct.0 out ring.distinct in
    (
      set_next (set_next m q t) t list,
      rw found refl,
      record {
        linked = linked;
        distinct = Distinct-append t (list ∷ xs) out ring.distinct;
        live = Absent-append 0 t (list ∷ xs) (λ e. live (sym e)) ring.live;
      },
      written m q t list (λ c. other (sym c)),
    )

-- `xs` without `t`
pub without : ℕ → List ℕ → List ℕ
without t [] = []
without t (x ∷ xs) = if x == t then xs else x ∷ without t xs

Absent-without : (y t : ℕ) (xs : List ℕ) → Absent y xs → Absent y (without t xs)
unfolding without
Absent-without y t [] a = tt
Absent-without y t (x ∷ xs) (ne, a) = elim (Bool-cases (x == t)) [
  | inl on ↦ rw on a
  | inr off ↦ rw off (ne, Absent-without y t xs a)
]

Distinct-without : (t : ℕ) (xs : List ℕ) → Distinct xs → Distinct (without t xs)
unfolding without
Distinct-without t [] d = tt
Distinct-without t (x ∷ xs) (a, d) = elim (Bool-cases (x == t)) [
  | inl on ↦ rw on d
  | inr off ↦ rw off (Absent-without x t xs a, Distinct-without t xs d)
]

-- What `splice` writes at the task `q` it has found.
abbrev spliced : (ℕ → Task) → ℕ → ℕ → ℕ → Task
spliced m t q = if (m q).next == t then set_next m q (m t).next else m

spliced-other : (m : ℕ → Task) (t q p : ℕ) → p ≢ q → spliced m t q p ≡ m p
unfolding update
spliced-other m t q p ne = elim (Bool-cases ((m q).next == t)) [
  | inl on ↦ rw (on, ==_ne p q ne) refl
  | inr off ↦ rw off refl
]

spliced-at :
    (m : ℕ → Task) (t q : ℕ) (xs : List ℕ) (l : ℕ)
    → (m q).next ≡ t
    → Absent q xs
    → Linked m xs l
    → Linked (spliced m t q) xs l
spliced-at m t q xs l e out h =
    let on : ((m q).next == t) ≡ true = rw e (==_refl t) in
    rw on (Linked-frame m xs l q (record (m q) { next = (m t).next }) out h)

spliced_self : (m : ℕ → Task) (t q : ℕ) → (m q).next ≡ t → (spliced m t q q).next ≡ (m t).next
unfolding update
spliced_self m t q e =
    let on : ((m q).next == t) ≡ true = rw e (==_refl t) in rw (on, ==_refl q) refl

spliced-idle : (m : ℕ → Task) (t q : ℕ) → (m q).next ≢ t → spliced m t q ≡ m
spliced-idle m t q ne = rw (==_ne (m q).next t ne) refl

spliced-Linked :
    (fuel : ℕ) (m : ℕ → Task) (list t p : ℕ) (xs : List ℕ)
    → length xs < fuel
    → Linked m (p ∷ xs) list
    → list ≢ t
    → p ≢ t
    → Absent list xs
    → Distinct (p ∷ xs)
    → (q : ℕ) × (before_of fuel m list t p ≡ some q)
      × Linked (spliced m t q) (p ∷ without t xs) list
      × ((y : ℕ) → Absent y (p ∷ xs) → y ≢ q)
unfolding before_of without
spliced-Linked zero m list t p xs enough h nl np apart d = absurd (omega arith)
spliced-Linked (suc fuel) m list t p [] enough (e, h) nl np apart d =
    let off : (list == t) ≡ false = ==_ne list t nl in
    (
      p,
      rw e (ground arith),
      (ap (λ (k : ℕ → Task). (k p).next) (spliced-idle m t p (λ c. nl (sym e ∙ c))) ∙ e, tt),
      (λ y a. a.0),
    )
spliced-Linked (suc fuel) m list t p (x ∷ xs) enough (e, h) nl np (na, apart) (dp, d) =
    elim (Bool-cases (x == t)) [
      | inl on ↦
          let same : x ≡ t = ground arith in
          (
            p,
            rw e (ground arith),
            rw on (
              spliced_self m t p (e ∙ same) ∙ sym (ap (λ k. (m k).next) same) ∙ h.0,
              spliced-at m t p xs list (e ∙ same) dp.1 h.1,
            ),
            (λ y a. a.0),
          )
      | inr off ↦
          let differ : x ≢ t = ground arith in
          let (q, found, linked, far) =
            spliced-Linked fuel m list t x xs (omega arith) h nl differ apart d in
          let on_t : (x != t) ≡ true = !=_ne x t differ in
          let on_list : (x != list) ≡ true = !=_ne x list (λ c. na (sym c)) in
          (
            q,
            rw (e, on_t, on_list) found,
            rw off (ap (λ (k : Task). k.next) (spliced-other m t q p (far p dp)) ∙ e, linked),
            (λ y a. far y a.1),
          )
    ]

-- A task other than the first is taken out of the ring; the others keep their order.
pub splice-IsRing :
    (fuel : ℕ) (m : ℕ → Task) (list t : ℕ) (xs : List ℕ)
    → length xs < fuel
    → IsRing m list xs
    → list ≢ t
    → (m' : ℕ → Task) × (splice fuel m list t ≡ some m') × IsRing m' list (without t xs)
unfolding splice without
splice-IsRing fuel m list t xs enough ring ne =
    let (q, found, linked, far) =
      spliced-Linked fuel m list t list xs enough ring.linked ne ne ring.distinct.0 ring.distinct in
    (
      spliced m t q,
      rw found refl,
      record {
        linked = linked;
        distinct =
            (Absent-without list t xs ring.distinct.0, Distinct-without t xs ring.distinct.1);
        live = (ring.live.0, Absent-without 0 t xs ring.live.1);
      },
    )
