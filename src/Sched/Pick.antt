-- ===== src/Sched/Pick.antt =====
-- Which task `schedule` switches to.
use revinix_os.Base.{
  ℕ, zero, suc, ◌<◌, ◌≡◌, refl, sym, ◌∙◌, ◌≢◌, ◌↔◌, ◌⊎◌, inl, inr, Bool, true, false, arith, Option,
  none, some, List, [], ◌∷◌, ◌==◌, ◌!=◌, if◌then◌else◌, Bool-cases, ==_refl, ==_ne, !=_ne, update,
  length,
}
use revinix_os.Sched.{
  Task, TaskState, Sched, is_done, is_running, pick, other_from, has_other_runnable, schedule,
  switch_to,
}
use revinix_os.Sched.Ring.{head_or, Linked, Absent, IsRing}

-- the first task of the list that is not done
pub first_live : (ℕ → Task) → List ℕ → Option ℕ
first_live m [] = none
first_live m (x ∷ xs) = if is_done (m x).state then first_live m xs else some x

abbrev pub or_else : Option ℕ → ℕ → ℕ
or_else none d = d
or_else (some x) d = x

abbrev is_some : Option ℕ → Bool
is_some none = false
is_some (some x) = true

is_some_iff : (o : Option ℕ) → (is_some o ≡ false) ↔ (o ≡ none)
is_some_iff o = ground arith

pub pick-first_live :
    (fuel : ℕ) (m : ℕ → Task) (prev : ℕ) (xs : List ℕ)
    → length xs < fuel
    → Linked m xs prev
    → Absent prev xs
    → pick fuel m prev (head_or xs prev) ≡ some (or_else (first_live m xs) prev)
unfolding pick first_live
pick-first_live zero m prev xs enough h out = absurd (omega arith)
pick-first_live (suc fuel) m prev [] enough h out = ground arith
pick-first_live (suc fuel) m prev (x ∷ xs) enough (e, h) (ne, out) =
    let other : (x != prev) ≡ true = !=_ne x prev (λ c. ne (sym c)) in
    elim (Bool-cases (is_done (m x).state)) [
      | inl on ↦ rw (on, other, e) (pick-first_live fuel m prev xs (omega arith) h out)
      | inr off ↦ rw off refl
    ]

pub other_from-first_live :
    (fuel : ℕ) (m : ℕ → Task) (prev : ℕ) (xs : List ℕ)
    → length xs < fuel
    → Linked m xs prev
    → Absent prev xs
    → other_from fuel m prev (head_or xs prev) ≡ some (is_some (first_live m xs))
unfolding other_from first_live
other_from-first_live zero m prev xs enough h out = absurd (omega arith)
other_from-first_live (suc fuel) m prev [] enough h out = ground arith
other_from-first_live (suc fuel) m prev (x ∷ xs) enough (e, h) (ne, out) =
    let other : (x != prev) ≡ true = !=_ne x prev (λ c. ne (sym c)) in
    elim (Bool-cases (is_done (m x).state)) [
      | inl on ↦ rw (other, on, e) (other_from-first_live fuel m prev xs (omega arith) h out)
      | inr off ↦ rw (other, off) refl
    ]

first_live-Absent :
    (m : ℕ → Task) (prev : ℕ) (xs : List ℕ)
    → Absent prev xs
    → (first_live m xs ≡ none)
      ⊎ ((n : ℕ) × (first_live m xs ≡ some n) × (n ≢ prev) × (is_done (m n).state ≡ false))
unfolding first_live
first_live-Absent m prev [] out = inl refl
first_live-Absent m prev (x ∷ xs) (ne, out) = elim (Bool-cases (is_done (m x).state)) [
  | inl on ↦ rw on (first_live-Absent m prev xs out)
  | inr off ↦ rw off (inr (x, refl, (λ c. ne (sym c)), off))
]

-- CR3 and RSP0 belong to the current task, and no other task is marked as running.
pub record Coherent {M : Type 0} (s : Sched M) : Type 0 where
  pub space : s.cr3 ≡ (s.tasks s.current).pml4
  pub stack : s.rsp0 ≡ (s.tasks s.current).kstack_top
  pub alone : (t : ℕ) → is_running (s.tasks t).state ≡ true → t ≡ s.current

module _ {M : Type 0} (s : Sched M) (saved n : ℕ) (ne : n ≢ s.current) where
  other_pml4 : (t : ℕ) → ((switch_to s saved s.current n).tasks t).pml4 ≡ (s.tasks t).pml4
  unfolding switch_to update is_running
  other_pml4 t = ground arith

  other_next : (t : ℕ) → ((switch_to s saved s.current n).tasks t).next ≡ (s.tasks t).next
  unfolding switch_to update is_running
  other_next t = ground arith

  other_stack :
      (t : ℕ) → ((switch_to s saved s.current n).tasks t).kstack_top ≡ (s.tasks t).kstack_top
  unfolding switch_to update is_running
  other_stack t = ground arith

  switch_to-space :
      s.cr3 ≡ (s.tasks s.current).pml4 → (switch_to s saved s.current n).cr3 ≡ (s.tasks n).pml4
  unfolding switch_to update is_running
  switch_to-space e = ground arith

  switch_to-stack : (switch_to s saved s.current n).rsp0 ≡ (s.tasks n).kstack_top
  unfolding switch_to update is_running
  switch_to-stack = ground arith

  switch_to-alone :
      ((t : ℕ) → is_running (s.tasks t).state ≡ true → t ≡ s.current)
      → (t : ℕ) → is_running ((switch_to s saved s.current n).tasks t).state ≡ true
      → t ≡ n
  unfolding switch_to update is_running
  switch_to-alone alone t h = ground (arith, alone t)

  switch_to-Coherent : Coherent s → Coherent (switch_to s saved s.current n)
  unfolding switch_to
  switch_to-Coherent c = record {
    space = switch_to-space c.space ∙ sym (other_pml4 n);
    stack = switch_to-stack ∙ sym (other_stack n);
    alone = λ t h. switch_to-alone c.alone t h;
  }

  -- what the switch does to the two tasks and to the machine
  pub record Switched (s' : Sched M) : Type 0 where
    pub now : s'.current ≡ n
    pub runs : (s'.tasks n).state ≡ TaskState.running
    pub resumed : s'.rsp ≡ (s.tasks n).rsp
    pub kept : (s'.tasks s.current).rsp ≡ saved
    pub links : (t : ℕ) → (s'.tasks t).next ≡ (s.tasks t).next
    pub others : (t : ℕ) → t ≢ n → t ≢ s.current → s'.tasks t ≡ s.tasks t

  switch_to-Switched : Switched (switch_to s saved s.current n)
  switch_to-Switched = record {
    now = unfold switch_to in refl;
    runs = unfold switch_to update is_running in ground arith;
    resumed = unfold switch_to update is_running in ground arith;
    kept = unfold switch_to update is_running in ground arith;
    links = other_next;
    others = λ t a b. unfold switch_to update is_running in ground arith;
  }

-- The scheduler's answer when `next` is the next task that can run.
pub data Scheduled {M : Type 0} (s : Sched M) (saved : ℕ) : Option ℕ → Sched M → Type 0 where
  stays : Scheduled s saved none s
  moves :
      {n : ℕ} {s' : Sched M} (ne : n ≢ s.current)
      → Switched s saved n ne s'
      → Scheduled s saved (some n) s'

-- On a run queue that is a ring of at most as many tasks as the fuel, `schedule` ends. If every
-- other task is done it changes nothing; else it switches to the first task behind the current
-- one, in ring order, that is not done: the two stack pointers are exchanged, that task is marked
-- as running, the links and all other tasks are kept. Afterwards CR3 and RSP0 are those of the
-- current task and no other task is marked as running, if this was so before.
pub schedule-Scheduled :
    {M : Type 0} (fuel saved : ℕ) (s : Sched M) (xs : List ℕ)
    → IsRing s.tasks s.current xs
    → length xs < fuel
    → Coherent s
    → (s' : Sched M) × (schedule fuel saved s ≡ some s')
      × Scheduled s saved (first_live s.tasks xs) s'
      × Coherent s'
unfolding schedule
schedule-Scheduled fuel saved s xs ring enough c =
    let live : (s.current == 0) ≡ false = ==_ne s.current 0 (λ e. ring.live.0 (sym e)) in
    let found = pick-first_live fuel s.tasks s.current xs enough ring.linked.1 ring.distinct.0 in
    rw (live, ring.linked.0, found)
      (elim (first_live-Absent s.tasks s.current xs ring.distinct.0) [
        | inl none_ ↦ rw (none_, ==_refl s.current) (s, refl, stays, c)
        | inr (n, one, ne, off) ↦
            rw (one, ==_ne n s.current ne)
              (
                switch_to s saved s.current n,
                refl,
                moves ne (switch_to-Switched s saved n ne),
                switch_to-Coherent s saved n ne c,
              )
      ])

-- On such a ring `sched_has_other_runnable` ends, and says no exactly when `schedule` would change
-- nothing because every other task is done.
pub has_other_runnable_iff :
    {M : Type 0} (fuel : ℕ) (s : Sched M) (xs : List ℕ)
    → IsRing s.tasks s.current xs
    → length xs < fuel
    → (b : Bool) × (has_other_runnable fuel s ≡ some b)
      × ((b ≡ false) ↔ (first_live s.tasks xs ≡ none))
unfolding has_other_runnable
has_other_runnable_iff fuel s xs ring enough = (
  is_some (first_live s.tasks xs),
  rw ring.linked.0
      (other_from-first_live fuel s.tasks s.current xs enough ring.linked.1 ring.distinct.0),
  is_some_iff (first_live s.tasks xs),
)
