-- ===== src/Fs/Fat/Read.antt =====
-- `fat32_read_file` against the file as the bytes of its clusters.
use revinix_os.Base.{
  ℕ, ◌+◌, ◌-◌, ◌*◌, ◌/◌, ◌%◌, ◌≤◌, ◌<◌, ◌≡◌, true, Option, some, List, [], ◌∷◌, ltb, if◌then◌else◌,
  add32,
}
use revinix_os.Fs.Block.{Bytes}
use revinix_os.Fs.Fat.{Volume, read_sector, next_cluster, cluster_lba, is_data}

-- The first `c` bytes of the file are in the buffer, and nothing else of it is changed.
pub record Copied (file buf0 : Bytes) (c : ℕ) (buf : Bytes) : Type 0 where
  pub done : (i : ℕ) → i < c → buf i ≡ file i
  pub rest : (i : ℕ) → c ≤ i → buf i ≡ buf0 i

-- A result of the loops that has copied up to `c`.
abbrev Reached : Bytes → Bytes → ℕ → Option (ℕ × Bytes) → Type 0
Reached file buf0 c o = (buf : Bytes) × (o ≡ some (c, buf)) × Copied file buf0 c buf

-- the bytes of the clusters `xs`, one cluster after the other, on a disk with the given sectors
pub file_bytes : Volume → (ℕ → Bytes) → List ℕ → Bytes
file_bytes fs disk [] i = 0
file_bytes fs disk (x ∷ xs) i =
    if ltb i (512 * fs.sectors_per_cluster)
    then disk (add32 (cluster_lba fs x) (i / 512)) (i % 512)
    else file_bytes fs disk xs (i - 512 * fs.sectors_per_cluster)

-- The FAT leads from `c` through the data clusters `xs`.
abbrev pub FatChain : Volume → ℕ → List ℕ → Type 0
FatChain fs c [] = Unit {0}
FatChain fs c (x ∷ xs) = (c ≡ x) × (is_data x ≡ true) × FatChain fs (next_cluster fs x) xs

-- All sectors of the clusters can be read, and are those of the disk.
abbrev pub Readable : Volume → (ℕ → Bytes) → List ℕ → Type 0
Readable fs disk [] = Unit {0}
Readable fs disk (x ∷ xs) =
    ((k : ℕ)
      → k < fs.sectors_per_cluster
      → read_sector fs.dev (add32 (cluster_lba fs x) k) ≡ some (disk (add32 (cluster_lba fs x) k)))
    × Readable fs disk xs

-- the bytes that fit into the clusters
abbrev pub room : Volume → List ℕ → ℕ
room fs [] = 0
room fs (x ∷ xs) = 512 * fs.sectors_per_cluster + room fs xs
