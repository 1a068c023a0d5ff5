-- ===== src/Sched/Tests.antt =====
-- The scheduler at small rings.
use revinix_os.Base.{
  ℕ, ◌+◌, ◌≡◌, ◌↔◌, ◌⊎◌, ◌≢◌, refl, Bool, false, none, some, [], ◌∷◌, arith, ◌==◌, if◌then◌else◌,
}
use revinix_os.Sched.{
  Task, TaskState, Sched, Kernel, schedule, has_other_runnable, task_create, task_create_user,
  task_reap, is_running,
}
use revinix_os.Sched.Ring.{IsRing}
use revinix_os.Sched.Pick.{
  Coherent, Scheduled, first_live, schedule-Scheduled, has_other_runnable_iff,
}
use revinix_os.Sched.Edit.{without}
use revinix_os.Sched.Tasks.{
  Enlisted, task_create-Enlisted, task_create_user-Enlisted, task_reap-IsRing,
}

-- Three tasks at 1, 2 and 3, of which the second is done.
abbrev three_tasks : ℕ → Task
three_tasks t = record {
  rsp = 1000 + t;
  stack_base = 0;
  pml4 = 7 + t;
  kstack_top = 500 + t;
  id = t;
  state = if t == 1 then TaskState.running else if t == 2 then TaskState.done else TaskState.ready;
  next = if t == 1 then 2 else if t == 2 then 3 else 1;
}

abbrev three : Sched ℕ
three = record {
  tasks = three_tasks;
  words = λ a. 0;
  current = 1;
  task_list = 1;
  next_id = 4;
  rsp0 = 501;
  cr3 = 8;
  rsp = 0;
  mem = 0xFFFFC00000000000;
}

three-IsRing : IsRing three.tasks 1 (2 ∷ 3 ∷ [])
three-IsRing = record {
  linked = (refl, (refl, (refl, tt)));
  distinct = ((omega arith, (omega arith, tt)), ((omega arith, tt), (tt, tt)));
  live = (omega arith, (omega arith, (omega arith, tt)));
}

three-Coherent : Coherent three
unfolding is_running
three-Coherent = record { space = refl; stack = refl; alone = λ t h. ground arith }

schedule-Scheduled_example :
    (s' : Sched ℕ) × (schedule 4 77 three ≡ some s')
    × Scheduled three 77 (first_live three.tasks (2 ∷ 3 ∷ [])) s'
    × Coherent s'
schedule-Scheduled_example =
    schedule-Scheduled 4 77 three (2 ∷ 3 ∷ []) three-IsRing (omega arith) three-Coherent

has_other_runnable_iff_example :
    (b : Bool) × (has_other_runnable 4 three ≡ some b)
    × ((b ≡ false) ↔ (first_live three.tasks (2 ∷ 3 ∷ []) ≡ none))
has_other_runnable_iff_example =
    has_other_runnable_iff 4 three (2 ∷ 3 ∷ []) three-IsRing (omega arith)

-- A heap that hands out one address after the other and never takes any back.
abbrev bump : Kernel
bump = record {
  Mem = ℕ;
  kmalloc = λ m n. (m, m + n);
  kfree = λ m p. m;
  create_address_space = λ m. (m, m + 4096);
  destroy_address_space = λ m p. m;
  kernel_pml4 = λ m. 8;
  task_exit_addr = 0x900;
  task_entry_trampoline = 0x910;
  user_entry_trampoline = 0x920;
}

task_create_user-Enlisted_example :
    (s' : Sched ℕ) × (task_create_user bump 4 three 0x400000 9 0x7000
      ≡ some (0xFFFFC00000000000, s'))
    × Enlisted three s' (2 ∷ 3 ∷ []) 0xFFFFC00000000000 9 0xFFFFC00000000030 0x920 0x400000 0x7000
task_create_user-Enlisted_example =
    task_create_user-Enlisted bump 4 three (2 ∷ 3 ∷ []) 0x400000 9 0x7000 (omega arith) three-IsRing
      (omega arith) (omega arith, (omega arith, (omega arith, tt))) (omega arith)

task_create-Enlisted_example :
    (s' : Sched ℕ) × (task_create bump 4 three 0x5000 ≡ some (0xFFFFC00000000000, s'))
    × Enlisted three s'
        (2 ∷ 3 ∷ [])
        0xFFFFC00000000000
        0xFFFFC00000004030
        0xFFFFC00000000030
        0x910
        0x5000
        0x900
task_create-Enlisted_example =
    task_create-Enlisted bump 4 three (2 ∷ 3 ∷ []) 0x5000 (omega arith) three-IsRing (omega arith)
      (omega arith, (omega arith, (omega arith, tt))) (omega arith)

abbrev second : ℕ
second = 2

task_reap-IsRing_example :
    (s' : Sched ℕ) × (task_reap bump 4 three second ≡ some s')
    × (s'.task_list ≡ three.task_list)
    × (((second ≡ 0) ⊎ (second ≡ three.task_list)) × (s' ≡ three)
        ⊎ ((three.task_list ≢ second) × IsRing s'.tasks s'.task_list (without second (2 ∷ 3 ∷ []))))
task_reap-IsRing_example =
    task_reap-IsRing bump 4 three (2 ∷ 3 ∷ []) second (omega arith) three-IsRing
