-- ===== src/Fs/Tests.antt =====
-- Files on concrete devices.
use revinix_os.Base.{ℕ, ◌+◌, ◌≡◌, ◌↔◌, true, some, List, [], ◌∷◌, arith}
use revinix_os.Fs.Block.{Bytes, RamRead, ramdisk_init, ramdisk_device, ramdisk-RamRead, block_read}
use revinix_os.Fs.Fat.{Volume, format_name, streq}
use revinix_os.Fs.Fat.Names.{name_field, dotted, format_name-dotted, streq_iff}

ramdisk-RamRead_example :
    (ramdisk_init (λ a. a) 0x200000 0x4000 ≡ some (ramdisk_device (λ a. a) 0x200000 0x4000))
    × RamRead
        (λ a. a)
        0x200000
        0x4000
        3
        2
        (λ i. 0)
        (block_read (some (ramdisk_device (λ a. a) 0x200000 0x4000)) 3 2 (λ i. 0))
ramdisk-RamRead_example =
    ramdisk-RamRead (λ a. a) 0x200000 0x4000 3 2 (λ i. 0) (omega arith) (omega arith) (omega arith)

-- A disk whose sector `lba` holds the bytes `lba + i`.
abbrev disk : ℕ → Bytes
disk lba i = lba + i

abbrev volume : Volume
volume = record {
  fat_start_lba = 1;
  data_start_lba = 10;
  sectors_per_cluster = 2;
  bytes_per_sector = 512;
  root_cluster = 2;
  dev = some (record { sectors = 100; read = some (λ lba count buf. some (disk lba)) });
}

-- "HI" and "TXT"
abbrev base : List ℕ
base = 72 ∷ 73 ∷ []

abbrev ext : List ℕ
ext = 84 ∷ 88 ∷ 84 ∷ []

format_name-dotted_example : format_name (name_field base ext) ≡ dotted base ext
format_name-dotted_example =
    format_name-dotted base ext (omega arith) (omega arith) (omega arith, (omega arith, tt))
      (omega arith, (omega arith, (omega arith, tt)))

streq_iff_example : (streq base ext ≡ true) ↔ (base ≡ ext)
streq_iff_example =
    streq_iff base ext (omega arith, (omega arith, tt))
      (omega arith, (omega arith, (omega arith, tt)))
