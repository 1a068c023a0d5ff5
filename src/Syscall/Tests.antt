-- ===== src/Syscall/Tests.antt =====
-- System calls at a concrete machine.
use revinix_os.Base.{ℕ, ◌≡◌, some, arith, []}
use revinix_os.Syscall.{Machine, sys_write}
use revinix_os.Syscall.Write.{Written, sys_write-Written}

-- Every entry of every table is present, writable and for Ring 3.
abbrev open_machine : Machine
open_machine = record { cr3 = 0x1000; tables = λ t i. 7; mem = λ a. a; console = [] }

sys_write-Written_example :
    (out : ℕ × Machine) × (sys_write 4097 open_machine 65 300 ≡ some out)
    × Written open_machine 65 300 out
sys_write-Written_example = sys_write-Written open_machine 65 300 (omega arith)
