-- ===== src/Shell/Files.antt =====
-- kernel/shell.c and load_program of kernel/main.c: commands that read a whole file into the heap.
-- The outer `none` stands for a heap of more blocks than the fuel; messages are left out.
use revinix_os.Base.{
  ℕ, zero, suc, ◌+◌, not, Option, none, some, List, [], ◌∷◌, ◌++◌, ◌==◌, ◌!=◌, if◌then◌else◌, add32,
  ◌>>=◌,
}
use revinix_os.Fs.Block.{Bytes}
use revinix_os.Fs.Vfs.{Vfs, Handle, vfs_open, vfs_read}
use revinix_os.Mm.Heap.{Heap, kmalloc, kfree}
use revinix_os.Shell.{hexdump_text}

-- a file in a buffer of the heap: its address, its size and its bytes
pub record Loaded : Type 0 where
  pub at : ℕ
  pub size : ℕ
  pub bytes : Bytes

-- A file that is open, with the number of bytes to ask the heap for, and what the memory of a new
-- buffer holds. A failed read frees the buffer.
pub read_open : ℕ → Vfs → Heap → Handle → ℕ → Bytes → Option (Option Loaded × Heap)
read_open fuel v heap file wanted old = kmalloc fuel heap wanted >>= λ r.
    let kept = record heap { store = r.1 } in
    let freed = record heap { store = kfree r.1 r.0 } in
    if r.0 == 0 then some (none, heap) else elim (vfs_read v file old file.size) [
      | none ↦ some (none, freed)
      | some (n, bytes) ↦ some (
          if n != file.size
          then (none, freed)
          else (some (record { at = r.0; size = file.size; bytes = bytes }), kept))
    ]

-- `vfs_open` and then `read_open`, with what the heap is asked for by the size of the file
pub read_named : ℕ → Vfs → Heap → (ℕ → ℕ) → Handle → List ℕ → Bytes → Option (Option Loaded × Heap)
read_named fuel v heap wanted out name old =
    let (found, file) = vfs_open v name out in
    if not found then some (none, heap) else read_open fuel v heap file (wanted file.size) old

-- The caller frees the buffer.
pub load_program : ℕ → Vfs → Heap → Handle → List ℕ → Bytes → Option (Option Loaded × Heap)
load_program fuel v heap out name old = read_named fuel v heap (λ size. size) out name old

-- `%s` of `size` bytes and a terminator
pub c_text : ℕ → Bytes → ℕ → List ℕ
c_text zero bytes i = []
c_text (suc left) bytes i =
    let rest = c_text left bytes (i + 1) in if bytes i == 0 then [] else bytes i ∷ rest

-- what a command prints of the file, and the heap with the buffer freed
pub show_file : (Loaded → List ℕ) → Option Loaded × Heap → List ℕ × Heap
show_file text (none, heap) = ([], heap)
show_file text (some file, heap) = (text file, record heap { store = kfree heap.store file.at })

pub cmd_cat : ℕ → Vfs → Heap → Handle → List ℕ → Bytes → Option (List ℕ × Heap)
cmd_cat fuel v heap out name old =
    read_named fuel v heap (λ size. add32 size 1) out name old >>= λ r.
    some (show_file (λ file. c_text file.size file.bytes 0 ++ (10 ∷ [])) r)

pub cmd_hexdump : ℕ → Vfs → Heap → Handle → List ℕ → Bytes → Option (List ℕ × Heap)
cmd_hexdump fuel v heap out [] old = some ([], heap)
cmd_hexdump fuel v heap out (c ∷ name) old =
    read_named fuel v heap (λ size. if size == 0 then 1 else size) out (c ∷ name) old >>= λ r.
    some (show_file (λ file. hexdump_text file.bytes file.size) r)
