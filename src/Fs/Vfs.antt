-- ===== src/Fs/Vfs.antt =====
-- kernel/fs/vfs.c: the one mounted filesystem, and files opened on it.
use revinix_os.Base.{ℕ, Bool, true, false, not, ◌||◌, Option, none, some, List, if◌then◌else◌}
use revinix_os.Fs.Block.{Bytes}
use revinix_os.Fs.Fat.{Volume, File, find, read_file}

-- the statics of vfs.c; `mounted_fs` is read only when `mounted` is set
pub record Vfs : Type 0 where
  pub mounted_fs : Volume
  pub mounted : Bool

-- `struct vfs_file`; `ops` is the FAT32 table or NULL
pub record Handle : Type 0 where
  pub has_ops : Bool
  pub size : ℕ
  pub valid : Bool
  pub fat : File

pub mount : Vfs → Volume → Vfs
mount v fs = record v { mounted_fs = fs; mounted = true }

pub is_mounted : Vfs → Bool
is_mounted v = v.mounted

-- the answer 0 is `true`, -1 is `false`
pub vfs_open : Vfs → List ℕ → Handle → Bool × Handle
vfs_open v name out =
    if not v.mounted then (false, record out { valid = false }) else elim (find v.mounted_fs name) [
      | none ↦ (false, record out { valid = false })
      | some f ↦ (true, record { has_ops = true; size = f.size; valid = true; fat = f })
    ]

pub vfs_read : Vfs → Handle → Bytes → ℕ → Option (ℕ × Bytes)
vfs_read v h buf buf_size =
    if not h.valid || not h.has_ops then none else read_file v.mounted_fs h.fat buf buf_size
