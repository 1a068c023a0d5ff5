-- ===== src/Sched.antt =====
-- kernel/sched/sched.c: tasks in a circular list, and the switch to the next one that can run.
-- A task stands at its address, 0 is NULL. The heap and the address spaces are reached through
-- `Kernel`; the stacks are 64-bit words at their addresses. A loop over the ring takes fuel, and
-- `none` stands for a ring longer than that.
pub mod Ring
pub mod Pick
pub mod Edit
pub mod Tasks
mod Tests
use revinix_os.Base.{
  ℕ, zero, suc, ◌+◌, ◌-◌, ◌*◌, ◌/◌, ◌%◌, ◌^◌, Bool, true, false, not, ◌&&◌, ◌||◌, Option, none,
  some, List, [], ◌∷◌, ◌==◌, ◌!=◌, if◌then◌else◌, add64, sub64, update, ◌>>=◌,
}

abbrev pub stack_size : ℕ
stack_size = 16384

pub data TaskState : Type 0 where
  ready : TaskState
  running : TaskState
  done : TaskState

-- `struct task`
pub record Task : Type 0 where
  pub rsp : ℕ
  pub stack_base : ℕ
  pub pml4 : ℕ
  pub kstack_top : ℕ
  pub id : ℕ
  pub state : TaskState
  pub next : ℕ

-- what the scheduler calls of heap.c and vmm.c, and the addresses it stores in a new stack
pub record Kernel : Type 1 where
  pub Mem : Type 0
  pub kmalloc : Mem → ℕ → ℕ × Mem
  pub kfree : Mem → ℕ → Mem
  pub create_address_space : Mem → ℕ × Mem
  pub destroy_address_space : Mem → ℕ → Mem
  pub kernel_pml4 : Mem → ℕ
  pub task_exit_addr : ℕ
  pub task_entry_trampoline : ℕ
  pub user_entry_trampoline : ℕ

-- The statics of sched.c, the tasks and stacks in memory, RSP0 of the TSS, CR3, and the heap.
pub record Sched (M : Type 0) : Type 0 where
  pub tasks : ℕ → Task
  pub words : ℕ → ℕ
  pub current : ℕ
  pub task_list : ℕ
  pub next_id : ℕ
  pub rsp0 : ℕ
  pub cr3 : ℕ
  pub rsp : ℕ
  pub mem : M

pub is_done : TaskState → Bool
is_done ready = false
is_done running = false
is_done done = true

pub is_running : TaskState → Bool
is_running ready = false
is_running running = true
is_running done = false

-- sizeof(struct task)
abbrev pub task_size : ℕ
task_size = 48

abbrev pub set_next : (ℕ → Task) → ℕ → ℕ → ℕ → Task
set_next m t p = update m t (record (m t) { next = p })

abbrev pub set_state : (ℕ → Task) → ℕ → TaskState → ℕ → Task
set_state m t s = update m t (record (m t) { state = s })

-- `while (p->next != task_list) p = p->next`
pub last_of : ℕ → (ℕ → Task) → ℕ → ℕ → Option ℕ
last_of zero m list p = none
last_of (suc fuel) m list p =
    let rest = last_of fuel m list (m p).next in if (m p).next != list then rest else some p

-- the append at the end of the two `task_create` functions
pub append : ℕ → (ℕ → Task) → ℕ → ℕ → Option (ℕ → Task)
append fuel m list t = do p ← last_of fuel m list list; some (set_next (set_next m p t) t list)

-- `while (p->next != t && p->next != task_list) p = p->next`
pub before_of : ℕ → (ℕ → Task) → ℕ → ℕ → ℕ → Option ℕ
before_of zero m list t p = none
before_of (suc fuel) m list t p =
    let rest = before_of fuel m list t (m p).next in
    if ((m p).next != t) && ((m p).next != list) then rest else some p

pub splice : ℕ → (ℕ → Task) → ℕ → ℕ → Option (ℕ → Task)
splice fuel m list t = do
  p ← before_of fuel m list t list
  some (if (m p).next == t then set_next m p (m t).next else m)

-- `while (next->state == TASK_DONE && next != prev) next = next->next`
pub pick : ℕ → (ℕ → Task) → ℕ → ℕ → Option ℕ
pick zero m prev next = none
pick (suc fuel) m prev next =
    let rest = pick fuel m prev (m next).next in
    if is_done (m next).state && (next != prev) then rest else some next

-- the loop of `sched_has_other_runnable`
pub other_from : ℕ → (ℕ → Task) → ℕ → ℕ → Option Bool
other_from zero m current p = none
other_from (suc fuel) m current p =
    let rest = other_from fuel m current (m p).next in
    if p != current then (if not (is_done (m p).state) then some true else rest) else some false

module _ {M : Type 0} where
  pub has_other_runnable : ℕ → Sched M → Option Bool
  has_other_runnable fuel s = other_from fuel s.tasks s.current (s.tasks s.current).next

  -- The switch from `prev` to `next`: `saved` is the stack pointer that `context_switch` stores.
  pub switch_to : Sched M → ℕ → ℕ → ℕ → Sched M
  switch_to s saved prev next =
      let m1 =
        (if is_running (s.tasks prev).state
          then set_state s.tasks prev TaskState.ready
          else s.tasks) in
      let m2 = set_state m1 next TaskState.running in
      record s {
        tasks = update m2 prev (record (m2 prev) { rsp = saved });
        current = next;
        cr3 = if (m2 next).pml4 != (m2 prev).pml4 then (m2 next).pml4 else s.cr3;
        rsp0 = (m2 next).kstack_top;
        rsp = (m2 next).rsp;
      }

  pub schedule : ℕ → ℕ → Sched M → Option (Sched M)
  schedule fuel saved s =
      let next = pick fuel s.tasks s.current (s.tasks s.current).next in
      if s.current == 0
      then some s
      else next >>= λ n. if n == s.current then some s else some (switch_to s saved s.current n)

  pub yield : ℕ → ℕ → Sched M → Option (Sched M)
  unfolding schedule
  yield fuel saved s = schedule fuel saved s

  -- Up to the `hlt` loop, which is reached if no other task can run.
  pub task_exit : ℕ → ℕ → Sched M → Option (Sched M)
  unfolding schedule
  task_exit fuel saved s =
      schedule fuel saved (record s { tasks = set_state s.tasks s.current TaskState.done })

-- the pushes `*(--sp) = x`, the first of the list first
abbrev pub push_all : List ℕ → ℕ → (ℕ → ℕ) → ℕ × (ℕ → ℕ)
push_all [] sp w = (sp, w)
push_all (x ∷ xs) sp w = push_all xs (sub64 sp 8) (update w (sub64 sp 8) x)

abbrev pub stack_top : ℕ → ℕ
stack_top stack = add64 stack stack_size / 16 * 16

module _ (K : Kernel) where
  open K use {Mem, kmalloc, kfree, create_address_space, destroy_address_space, kernel_pml4}

  pub sched_init : Sched Mem → Sched Mem
  sched_init s =
      let (boot, mem) = kmalloc s.mem task_size in
      record s {
        tasks = update s.tasks boot (record {
          rsp = (s.tasks boot).rsp;
          stack_base = 0;
          pml4 = kernel_pml4 mem;
          kstack_top = s.rsp0;
          id = s.next_id;
          state = TaskState.running;
          next = boot;
        });
        current = boot;
        task_list = boot;
        next_id = s.next_id + 1;
        mem = mem;
      }

  -- what both `task_create` functions do once the stack is primed and the address space is known
  pub enlist : ℕ → Sched Mem → ℕ → ℕ → ℕ → ℕ → ℕ → Option (Sched Mem)
  enlist fuel s t sp stack top space =
      let m = update s.tasks t (record {
        rsp = sp;
        stack_base = stack;
        pml4 = space;
        kstack_top = top;
        id = s.next_id;
        state = TaskState.ready;
        next = (s.tasks t).next;
      }) in
      append fuel m s.task_list t >>= λ m'. some (record s { tasks = m'; next_id = s.next_id + 1 })

  pub task_create : ℕ → Sched Mem → ℕ → Option (ℕ × Sched Mem)
  task_create fuel s entry =
      let (t, mem1) = kmalloc s.mem task_size in
      let (stack, mem2) = kmalloc mem1 stack_size in
      let top = stack_top stack in
      let (sp, words) =
        push_all (K.task_exit_addr ∷ entry ∷ K.task_entry_trampoline ∷ 0 ∷ 0 ∷ 0 ∷ 0 ∷ 0 ∷ 0 ∷ [])
          top s.words in
      let (space, mem3) = create_address_space mem2 in
      enlist fuel (record s { words = words; mem = mem3 }) t sp stack top space >>= λ s'.
      some (t, s')

  pub task_create_user : ℕ → Sched Mem → ℕ → ℕ → ℕ → Option (ℕ × Sched Mem)
  task_create_user fuel s entry pml4 user_stack_top =
      let (t, mem1) = kmalloc s.mem task_size in
      let (stack, mem2) = kmalloc mem1 stack_size in
      let top = stack_top stack in
      let (sp, words) =
        push_all (user_stack_top ∷ entry ∷ K.user_entry_trampoline ∷ 0 ∷ 0 ∷ 0 ∷ 0 ∷ 0 ∷ 0 ∷ []) top
          s.words in
      enlist fuel (record s { words = words; mem = mem2 }) t sp stack top pml4 >>= λ s'.
      some (t, s')

  pub task_reap : ℕ → Sched Mem → ℕ → Option (Sched Mem)
  task_reap fuel s t =
      let freed =
        (if ((s.tasks t).pml4 != 0) && ((s.tasks t).pml4 != kernel_pml4 s.mem)
          then destroy_address_space s.mem (s.tasks t).pml4
          else s.mem) in
      if (t == 0) || (t == s.task_list)
      then some s
      else splice fuel s.tasks s.task_list t >>= λ m.
          some (record s { tasks = m; mem = kfree (kfree freed (s.tasks t).stack_base) t })
