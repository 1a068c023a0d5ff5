-- ===== src/Sched/Tasks.antt =====
-- Creating and reaping tasks.
use revinix_os.Base.{
  ℕ, zero, suc, ◌+◌, ◌-◌, ◌*◌, ◌^◌, ◌≤◌, ◌<◌, ◌≡◌, refl, ap, ◌∙◌, ◌≢◌, ◌⊎◌, inl, inr, false, ◌&&◌,
  ◌||◌, arith, some, List, get_elem?, [], ◌∷◌, ◌++◌, ◌==◌, ◌!=◌, if◌then◌else◌, Bool-cases, ==_refl,
  ==_ne, update, length, sub64,
}
use revinix_os.Sched.{
  Task, TaskState, Sched, Kernel, enlist, task_create, task_create_user, task_reap, task_size,
  stack_size, stack_top, push_all,
}
use revinix_os.Sched.Ring.{Linked-frame, Absent, IsRing}
use revinix_os.Sched.Edit.{append-IsRing, splice-IsRing, without}

-- The stack of a new task: six zero words for the registers, then `w0`, `w1` and `w2`.
pub record Primed (words : ℕ → ℕ) (rsp w0 w1 w2 : ℕ) : Type 0 where
  pub registers : (i : ℕ) → i < 6 → words (rsp + 8 * i) ≡ 0
  pub first : words (rsp + 48) ≡ w0
  pub second : words (rsp + 56) ≡ w1
  pub third : words (rsp + 64) ≡ w2

push_all-sp :
    (xs : List ℕ) (sp : ℕ) (w : ℕ → ℕ)
    → 8 * length xs ≤ sp
    → sp < 2 ^ 64
    → (push_all xs sp w).0 ≡ sp - 8 * length xs
push_all-sp [] sp w room low = omega arith
push_all-sp (x ∷ xs) sp w room low =
    let down : sub64 sp 8 ≡ sp - 8 = omega arith in
    rw (push_all, down)
      (push_all-sp xs (sp - 8) (update w (sp - 8) x) (omega arith) (omega arith) ∙ omega arith)

push_all-above :
    (xs : List ℕ) (sp : ℕ) (w : ℕ → ℕ) (a : ℕ)
    → 8 * length xs ≤ sp
    → sp < 2 ^ 64
    → sp ≤ a
    → (push_all xs sp w).1 a ≡ w a
unfolding update
push_all-above [] sp w a room low hi = refl
push_all-above (x ∷ xs) sp w a room low hi =
    let down : sub64 sp 8 ≡ sp - 8 = omega arith in
    let past : (a == sp - 8) ≡ false = ==_ne a (sp - 8) (omega arith) in
    rw (push_all, down)
      (push_all-above xs (sp - 8) (update w (sp - 8) x) a (omega arith) (omega arith) (omega arith)
        ∙ rw past refl)

push_all-word :
    (xs : List ℕ) (sp : ℕ) (w : ℕ → ℕ) (i v : ℕ)
    → 8 * length xs ≤ sp
    → sp < 2 ^ 64
    → get_elem? xs i ≡ some v
    → (push_all xs sp w).1 (sp - 8 * suc i) ≡ v
unfolding update
push_all-word [] sp w i v room low at = absurd (ground arith)
push_all-word (x ∷ xs) sp w zero v room low at =
    let down : sub64 sp 8 ≡ sp - 8 = omega arith in
    let same : x ≡ v = ground arith in
    rw (push_all, down)
      (push_all-above xs (sp - 8) (update w (sp - 8) x) (sp - 8 * 1) (omega arith) (omega arith)
          (omega arith)
        ∙ rw (==_refl (sp - 8)) same)
push_all-word (x ∷ xs) sp w (suc i) v room low at =
    let down : sub64 sp 8 ≡ sp - 8 = omega arith in
    let addr : sp - 8 * suc (suc i) ≡ sp - 8 - 8 * suc i = omega arith in
    rw (push_all, down, addr)
      (push_all-word xs (sp - 8) (update w (sp - 8) x) i v (omega arith) (omega arith) at)

abbrev frame_words : ℕ → ℕ → ℕ → List ℕ
frame_words w0 w1 w2 = w2 ∷ w1 ∷ w0 ∷ 0 ∷ 0 ∷ 0 ∷ 0 ∷ 0 ∷ 0 ∷ []

zeros : (w0 w1 w2 i : ℕ) → i < 6 → get_elem? (frame_words w0 w1 w2) (3 + i) ≡ some 0
zeros w0 w1 w2 zero lt = refl
zeros w0 w1 w2 (suc zero) lt = refl
zeros w0 w1 w2 (suc (suc zero)) lt = refl
zeros w0 w1 w2 (suc (suc (suc zero))) lt = refl
zeros w0 w1 w2 (suc (suc (suc (suc zero)))) lt = refl
zeros w0 w1 w2 (suc (suc (suc (suc (suc zero))))) lt = refl
zeros w0 w1 w2 (suc (suc (suc (suc (suc (suc i)))))) lt = absurd (omega arith)

word_at :
    (stack w0 w1 w2 : ℕ) (words : ℕ → ℕ) (a i v : ℕ)
    → stack + stack_size < 2 ^ 64
    → i < 9
    → a ≡ stack_top stack - 72 + 8 * (8 - i)
    → get_elem? (frame_words w0 w1 w2) i ≡ some v
    → (push_all (frame_words w0 w1 w2) (stack_top stack) words).1 a ≡ v
word_at stack w0 w1 w2 words a i v low lt e at =
    let addr : a ≡ stack_top stack - 8 * suc i = omega arith in
    rw addr (
      push_all-word (frame_words w0 w1 w2) (stack_top stack) words i v (omega arith) (omega arith)
        at)

push_all-Primed :
    (stack w0 w1 w2 : ℕ) (words : ℕ → ℕ)
    → stack + stack_size < 2 ^ 64
    → Primed
        (push_all (frame_words w0 w1 w2) (stack_top stack) words).1
        (stack_top stack - 72)
        w0
        w1
        w2
push_all-Primed stack w0 w1 w2 words low = record {
  registers = λ i lt.
      word_at stack w0 w1 w2 words (stack_top stack - 72 + 8 * i) (8 - i) 0 low (omega arith)
        (omega arith)
        (let e : 8 - i ≡ 3 + (5 - i) = omega arith in rw e (zeros w0 w1 w2 (5 - i) (omega arith)));
  first =
      word_at stack w0 w1 w2 words (stack_top stack - 72 + 48) 2 w0 low (omega arith) (omega arith)
        refl;
  second =
      word_at stack w0 w1 w2 words (stack_top stack - 72 + 56) 1 w1 low (omega arith) (omega arith)
        refl;
  third =
      word_at stack w0 w1 w2 words (stack_top stack - 72 + 64) 0 w2 low (omega arith) (omega arith)
        refl;
}

-- What a new task at `t` is to the scheduler: the last of the ring, ready, not run yet.
pub record Enlisted {M : Type 0} (s s' : Sched M) (xs : List ℕ) (t pml4 stack w0 w1 w2 : ℕ)
    : Type 0 where
  pub ring : IsRing s'.tasks s'.task_list (xs ++ (t ∷ []))
  pub first : s'.task_list ≡ s.task_list
  pub state : (s'.tasks t).state ≡ TaskState.ready
  pub space : (s'.tasks t).pml4 ≡ pml4
  pub rsp : (s'.tasks t).rsp ≡ stack_top stack - 72
  pub primed : Primed s'.words (s'.tasks t).rsp w0 w1 w2
  pub number : (s'.tasks t).id ≡ s.next_id

module _ (K : Kernel) where
  open K use {Mem, kmalloc, create_address_space}

  enlist-Enlisted :
      (fuel : ℕ) (s : Sched Mem) (xs : List ℕ) (mem : Mem) (t space stack w0 w1 w2 : ℕ)
      → length xs < fuel
      → IsRing s.tasks s.task_list xs
      → t ≢ 0
      → Absent t (s.task_list ∷ xs)
      → stack + stack_size < 2 ^ 64
      → let primed = push_all (frame_words w0 w1 w2) (stack_top stack) s.words in
        (s' : Sched Mem) × (enlist K fuel
            (record s { words = primed.1; mem = mem })
            t
            primed.0
            stack
            (stack_top stack)
            space
          ≡ some s')
        × Enlisted s s' xs t space stack w0 w1 w2
  unfolding enlist
  enlist-Enlisted fuel s xs mem t space stack w0 w1 w2 enough ring live out low =
      let primed : ℕ × (ℕ → ℕ) = push_all (frame_words w0 w1 w2) (stack_top stack) s.words in
      let v : Task = record {
        rsp = primed.0;
        stack_base = stack;
        pml4 = space;
        kstack_top = stack_top stack;
        id = s.next_id;
        state = TaskState.ready;
        next = (s.tasks t).next;
      } in
      let m : ℕ → Task = update s.tasks t v in
      let ring' : IsRing m s.task_list xs = record {
        linked = Linked-frame s.tasks (s.task_list ∷ xs) s.task_list t v out ring.linked;
        distinct = ring.distinct;
        live = ring.live;
      } in
      let (m', found, grown, at) = append-IsRing fuel m s.task_list t xs enough ring' live out in
      let here : m t ≡ v = (unfold update in rw (==_refl t) refl) in
      let sp : primed.0 ≡ stack_top stack - 72 =
        push_all-sp (frame_words w0 w1 w2) (stack_top stack) s.words (omega arith) (omega arith) in
      let is : m' t ≡ record v { next = s.task_list } =
        at ∙ ap (λ (k : Task). record k { next = s.task_list }) here in
      (
        record s { words = primed.1; mem = mem; tasks = m'; next_id = s.next_id + 1 },
        rw found refl,
        record {
          ring = grown;
          first = refl;
          state = ap (λ (k : Task). k.state) is;
          space = ap (λ (k : Task). k.pml4) is;
          rsp = ap (λ (k : Task). k.rsp) is ∙ sp;
          primed =
              rw (ap (λ (k : Task). k.rsp) is ∙ sp) (push_all-Primed stack w0 w1 w2 s.words low);
          number = ap (λ (k : Task). k.id) is;
        },
      )

  -- Where the heap hands out a task that is not in the ring, and a stack that ends below 2^64:
  -- `task_create_user` on a ring no longer than the fuel ends, and
  -- hangs one new task on the end of the ring: ready, in the given address space, with the next
  -- number, and with a stack from which the switch pops six zero registers and returns to the
  -- trampoline, which then finds the entry point and the user stack.
  pub task_create_user-Enlisted :
      (fuel : ℕ) (s : Sched Mem) (xs : List ℕ) (entry pml4 user_stack : ℕ)
      → length xs < fuel
      → IsRing s.tasks s.task_list xs
      → let (t, mem1) = kmalloc s.mem task_size in
        let (stack, mem2) = kmalloc mem1 stack_size in
        t ≢ 0
        → Absent t (s.task_list ∷ xs)
        → stack + stack_size < 2 ^ 64
        → (s' : Sched Mem) × (task_create_user K fuel s entry pml4 user_stack ≡ some (t, s'))
          × Enlisted s s' xs t pml4 stack K.user_entry_trampoline entry user_stack
  unfolding task_create_user
  task_create_user-Enlisted fuel s xs entry pml4 user_stack enough ring live out low =
      let a : ℕ × Mem = kmalloc s.mem task_size in
      let b : ℕ × Mem = kmalloc a.1 stack_size in
      let (s', found, is) =
        enlist-Enlisted fuel s xs b.1 a.0 pml4 b.0 K.user_entry_trampoline entry user_stack enough
          ring live out low in
      (s', rw found refl, is)

  -- Where the heap hands out a task that is not in the ring, and a stack that ends below 2^64:
  -- `task_create` on a ring no longer than the fuel ends, and hangs one new task on the end of the
  -- ring: ready, in a new address space, with the next number. Its stack leads to the entry trampoline,
  -- which finds the entry point, and below that lies the address of `task_exit`.
  pub task_create-Enlisted :
      (fuel : ℕ) (s : Sched Mem) (xs : List ℕ) (entry : ℕ)
      → length xs < fuel
      → IsRing s.tasks s.task_list xs
      → let (t, mem1) = kmalloc s.mem task_size in
        let (stack, mem2) = kmalloc mem1 stack_size in
        t ≢ 0
        → Absent t (s.task_list ∷ xs)
        → stack + stack_size < 2 ^ 64
        → (s' : Sched Mem) × (task_create K fuel s entry ≡ some (t, s'))
          × Enlisted s s' xs t
              (create_address_space mem2).0
              stack
              K.task_entry_trampoline
              entry
              K.task_exit_addr
  unfolding task_create
  task_create-Enlisted fuel s xs entry enough ring live out low =
      let a : ℕ × Mem = kmalloc s.mem task_size in
      let b : ℕ × Mem = kmalloc a.1 stack_size in
      let c : ℕ × Mem = create_address_space b.1 in
      let (s', found, is) =
        enlist-Enlisted fuel s xs c.1 a.0 c.0 b.0 K.task_entry_trampoline entry K.task_exit_addr
          enough ring live out low in
      (s', rw found refl, is)

  -- On a ring no longer than the fuel `task_reap` ends: NULL and the boot task are left alone; any
  -- other task is taken out of the ring, in which the others keep their order.
  pub task_reap-IsRing :
      (fuel : ℕ) (s : Sched Mem) (xs : List ℕ) (t : ℕ)
      → length xs < fuel
      → IsRing s.tasks s.task_list xs
      → (s' : Sched Mem) × (task_reap K fuel s t ≡ some s')
        × (s'.task_list ≡ s.task_list)
        × (((t ≡ 0) ⊎ (t ≡ s.task_list)) × (s' ≡ s)
            ⊎ ((s.task_list ≢ t) × IsRing s'.tasks s'.task_list (without t xs)))
  unfolding task_reap
  task_reap-IsRing fuel s xs t enough ring = elim (Bool-cases ((t == 0) || (t == s.task_list))) [
    | inl on ↦ rw on (s, refl, refl, inl (ground arith, refl))
    | inr off ↦
        let ne : s.task_list ≢ t = (λ e. ground arith) in
        let (m', found, ring') = splice-IsRing fuel s.tasks s.task_list t xs enough ring ne in
        let freed : Mem =
          (if ((s.tasks t).pml4 != 0) && ((s.tasks t).pml4 != K.kernel_pml4 s.mem)
            then K.destroy_address_space s.mem (s.tasks t).pml4
            else s.mem) in
        rw (off, found)
          (
            record s { tasks = m'; mem = K.kfree (K.kfree freed (s.tasks t).stack_base) t },
            refl,
            refl,
            inr (ne, ring'),
          )
  ]
