-- ===== src/Fs/Fat.antt =====
-- kernel/fs/fat32.c: the boot sector, the chain of clusters, the root directory and reading a file.
-- `none` stands for -1; the bytes of a buffer after a failed read are not modelled. A string is the
-- list of its characters, and ends at the end of the list or at the first 0.
pub mod Read
pub mod Names
use revinix_os.Base.{
  ℕ, zero, suc, ◌+◌, ◌-◌, ◌*◌, ◌/◌, ◌%◌, ◌^◌, bit_and, bit_or, Bool, true, false, ◌&&◌, ◌||◌,
  Option, none, some, List, [], ◌∷◌, ◌++◌, ltb, leb, ◌==◌, ◌!=◌, if◌then◌else◌, add32, sub32, mul32,
  read16, read32, ◌>>=◌, has_bit,
}
use revinix_os.Fs.Block.{Bytes, Device, block_read, copy_bytes}

abbrev pub fat_eoc : ℕ
fat_eoc = 0x0ffffff8

-- `struct fat32_fs`
pub record Volume : Type 0 where
  pub fat_start_lba : ℕ
  pub data_start_lba : ℕ
  pub sectors_per_cluster : ℕ
  pub bytes_per_sector : ℕ
  pub root_cluster : ℕ
  pub dev : Option Device

-- `struct fat32_file`
pub record File : Type 0 where
  pub start_cluster : ℕ
  pub size : ℕ

-- one sector into a local array
unfoldable pub read_sector : Option Device → ℕ → Option Bytes
read_sector dev lba = block_read dev lba 1 (λ i. 0)

-- the fields of `struct fat32_bpb` at their offsets in the boot sector
pub volume_of : Option Device → Bytes → Volume
volume_of dev b = record {
  fat_start_lba = read16 b 14;
  data_start_lba = add32 (read16 b 14) (mul32 (b 16) (read32 b 36));
  sectors_per_cluster = b 13;
  bytes_per_sector = read16 b 11;
  root_cluster = read32 b 44;
  dev = dev;
}

pub fat_init : Option Device → Option Volume
fat_init dev = do
  b ← read_sector dev 0
  if (b 510 != 0x55) || (b 511 != 0xaa)
      then none
      else if (read16 b 17 != 0) || (read16 b 22 != 0)
      then none
      else if read16 b 11 != 512
      then none
      else some (volume_of dev b)

-- the little-endian entry, of which 28 bits are the cluster
unfoldable pub entry_at : Bytes → ℕ → ℕ
entry_at b o =
    let word : ℕ =
      bit_or (bit_or (bit_or (b o) (b (o + 1) * 2 ^ 8)) (b (o + 2) * 2 ^ 16))
        (b (o + 3) * 2 ^ 24) in
    bit_and word 0x0fffffff

-- 0 if the FAT cannot be read
pub next_cluster : Volume → ℕ → ℕ
next_cluster fs cluster =
    let offset = mul32 cluster 4 in
    let read = read_sector fs.dev (add32 fs.fat_start_lba (offset / 512)) in
    elim read [ none ↦ 0 | some b ↦ entry_at b (offset % 512) ]

abbrev pub cluster_lba : Volume → ℕ → ℕ
cluster_lba fs cluster = add32 fs.data_start_lba (mul32 (sub32 cluster 2) fs.sectors_per_cluster)

abbrev pub is_data : ℕ → Bool
is_data cluster = leb 2 cluster && ltb cluster fat_eoc

-- the characters of a field of the name, up to the padding
pub unpadded : ℕ → ℕ → Bytes → List ℕ
unpadded zero i name = []
unpadded (suc left) i name = if name i == 32 then [] else name i ∷ unpadded left (i + 1) name

-- `fat32_format_name`, without the final 0
pub format_name : Bytes → List ℕ
format_name name = unpadded 8 0 name ++ (if name 8 != 32 then 46 ∷ unpadded 3 8 name else [])

-- `fat_streq`
pub streq : List ℕ → List ℕ → Bool
streq [] [] = true
streq [] (y ∷ ys) = y == 0
streq (x ∷ xs) [] = x == 0
streq (x ∷ xs) (y ∷ ys) =
    if (x != 0) && (y != 0) then (if x != y then false else streq xs ys) else x == y

-- what a step of the search says: the file, -1, or to go on
pub data Search : Type 0 where
  found : File → Search
  failed : Search
  further : Search

-- the loop over the entries of a sector, at the entry at `o`
pub find_entry : ℕ → ℕ → Bytes → List ℕ → Search
find_entry zero o b name = further
find_entry (suc left) o b name =
    let rest = find_entry left (o + 32) b name in
    let start : ℕ = bit_or (read16 b (o + 20) * 2 ^ 16) (read16 b (o + 26)) in
    if b o == 0x00
    then failed
    else if b o == 0xe5
    then rest
    else if b (o + 11) == 0x0f
    then rest
    else if has_bit (b (o + 11)) 3
    then rest
    else if streq (format_name (λ i. b (o + i))) name
    then found (record { start_cluster = start; size = read32 b (o + 28) })
    else rest

-- the loop over the sectors of a cluster, at the sector `s`
pub find_sector : ℕ → ℕ → Volume → ℕ → List ℕ → Search
find_sector zero s fs lba name = further
find_sector (suc left) s fs lba name =
    let rest = find_sector left (s + 1) fs lba name in
    elim (read_sector fs.dev (add32 lba s)) [
      | none ↦ failed
      | some b ↦ elim (find_entry 16 0 b name) [
        | found f ↦ found f
        | failed ↦ failed
        | further ↦ rest
      ]
    ]

-- The loop over the clusters. Its guard lets 65 rounds pass, after which the answer is -1.
pub find_from : ℕ → Volume → ℕ → List ℕ → Option File
find_from zero fs cluster name = none
find_from (suc left) fs cluster name =
    let rest = find_from left fs (next_cluster fs cluster) name in
    if is_data cluster
    then elim (find_sector fs.sectors_per_cluster 0 fs (cluster_lba fs cluster) name) [
      | found f ↦ some f
      | failed ↦ none
      | further ↦ rest
    ]
    else none

pub find : Volume → List ℕ → Option File
find fs name = find_from 65 fs fs.root_cluster name

-- The loop over the sectors of a cluster, at the sector `s`: `copied` bytes are in the buffer.
pub read_sectors : ℕ → ℕ → Volume → ℕ → ℕ → ℕ → Bytes → Option (ℕ × Bytes)
read_sectors zero s fs lba size copied buf = some (copied, buf)
read_sectors (suc left) s fs lba size copied buf =
    let remaining = sub32 size copied in
    let n = (if ltb remaining 512 then remaining else 512) in
    let rest = read_sector fs.dev (add32 lba s) >>= λ b.
    read_sectors left (s + 1) fs lba size (add32 copied n) (copy_bytes n 0 copied b buf) in
    if ltb copied size then rest else some (copied, buf)

-- The loop over the clusters. Its guard fails in the round 1025, so the fuel stands for the guard. The
-- conversion of the answer to an int changes no count below 2^31, which is more than 1025 clusters hold.
pub read_from : ℕ → Volume → ℕ → ℕ → ℕ → Bytes → Option (ℕ × Bytes)
read_from zero fs cluster size copied buf = none
read_from (suc left) fs cluster size copied buf =
    let rest =
      read_sectors fs.sectors_per_cluster 0 fs (cluster_lba fs cluster) size copied buf >>= λ out.
      read_from left fs (next_cluster fs cluster) size out.0 out.1 in
    if is_data cluster && ltb copied size
    then rest
    else if copied != size
    then none
    else some (copied, buf)

pub read_file : Volume → File → Bytes → ℕ → Option (ℕ × Bytes)
read_file fs file buf buf_size =
    if ltb buf_size file.size then none else read_from 1025 fs file.start_cluster file.size 0 buf
