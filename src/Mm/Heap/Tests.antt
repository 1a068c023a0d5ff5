-- ===== src/Mm/Heap/Tests.antt =====
-- The heap at concrete lists of blocks.
use revinix_os.Base.{◌+◌, refl, true, false, List, [], ◌∷◌, arith, ◌==◌, if◌then◌else◌}
use revinix_os.Mm.Heap.{Store, Heap, align8, kmalloc, kfree, header_size}
use revinix_os.Mm.Heap.Blocks.{Block, Chain}
use revinix_os.Mm.Heap.Malloc.{first_fit}
use revinix_os.Mm.Heap.Walk.{Agrees, kmalloc-Agrees}
use revinix_os.Mm.Heap.Free.{free_nth, header_addr, kfree-Chain}

-- two blocks in use and a free one
abbrev three_blocks : List Block
three_blocks =
    record { bytes = 16; free = false }
    ∷ record { bytes = 16; free = false }
    ∷ record { bytes = 640; free = true }
    ∷ []

abbrev headers : Store
headers a =
    if a == 64
    then record { size = 16; free = false; next = 112; prev = 0 }
    else if a == 112
    then record { size = 16; free = false; next = 160; prev = 64 }
    else record { size = 640; free = true; next = 0; prev = 112 }

abbrev small_heap : Heap
small_heap = record { store = headers; head = 64; end = 832 }

headers-Chain : Chain headers 0 64 three_blocks
headers-Chain = (refl, (refl, (refl, tt)))

kmalloc-Agrees_example :
    Agrees headers 0 64 64 (first_fit 64 (align8 30) three_blocks) (kmalloc 4 small_heap 30)
kmalloc-Agrees_example =
    kmalloc-Agrees 4 small_heap 30 three_blocks (omega arith) (omega arith) refl (omega arith)
      (omega arith) headers-Chain

kfree-Chain_example :
    Chain
      (kfree headers (header_addr 64 three_blocks 1 + header_size))
      0
      64
      (free_nth three_blocks 1)
kfree-Chain_example =
    kfree-Chain headers 64 three_blocks 1 (omega arith) (omega arith) (omega arith) headers-Chain
