-- ===== src/Elf/Loaded.antt =====
-- kernel/user/elf.c: what the process finds at its addresses once the segments are loaded.
use revinix_os.Base.{
  ℕ, zero, suc, ◌+◌, ◌-◌, ◌%◌, ◌^◌, ◌<◌, ◌≤◌, ◌≡◌, ◌≢◌, refl, sym, ap, ◌⊎◌, inl, inr, Bool, true,
  false, ◌&&◌, ltb, leb, ◌==◌, ◌!=◌, if◌then◌else◌, Bool-cases, ==_ne, ==_refl, update, add64,
  read16, read64, arith, Option, none, some,
}
use revinix_os.Fs.Block.{Bytes}
use revinix_os.Mm.Vmm.User.Walk.{IsPage}
use revinix_os.Elf.{
  Paging, page_start, Phdr, read_phdr, bad_header, ensure_user_page, segment_byte, load_bytes,
  load_segment, load_segments, elf_load,
}

-- How paging serves the loader in the user half, in a state with frames left: a page that is not
-- mapped gets a new frame, pages that are mapped keep theirs, and frames are whole and not shared.
pub record Serves {V : Type 0} (paging : Paging V) (Room : V → ℕ → Type 0) : Type 0 where
  pub mapped :
      (v : V) (page left : ℕ)
      → IsPage page
      → Room v (suc left)
      → paging.phys_of v page ≡ 0
      → (paging.phys_of (paging.map_new v page) page ≡ paging.new_frame v)
        × (paging.new_frame v ≢ 0)
        × Room (paging.map_new v page) left
  pub others :
      (v : V) (page other left : ℕ)
      → IsPage page
      → IsPage other
      → Room v (suc left)
      → paging.phys_of v page ≡ 0
      → paging.phys_of v other ≢ 0
      → paging.phys_of (paging.map_new v page) other ≡ paging.phys_of v other
  pub spared : (v : V) (left : ℕ) → Room v (suc left) → Room v left
  pub whole : (v : V) (page left : ℕ) → IsPage page → Room v left → paging.phys_of v page % 4096 ≡ 0
  pub apart :
      (v : V) (page other left : ℕ)
      → IsPage page
      → IsPage other
      → Room v left
      → paging.phys_of v page ≢ 0
      → paging.phys_of v page ≡ paging.phys_of v other
      → page ≡ other

page_start-IsPage : (a : ℕ) → a < 2 ^ 47 → IsPage (page_start a)
page_start-IsPage a low = (omega arith, omega arith)

-- the segment has a byte for the address
abbrev pub in_segment : Phdr → ℕ → Bool
in_segment ph a = (ph.kind == 1) && leb ph.vaddr a && ltb a (ph.vaddr + ph.memsz)

-- The byte for an address by the headers from `i` on, the last one counts, and `old` without one.
unfoldable pub final_byte : ℕ → Bytes → ℕ → ℕ → ℕ → Option ℕ → Option ℕ
final_byte zero image phoff i a old = old
final_byte (suc left) image phoff i a old =
    let ph = read_phdr image phoff i in
    final_byte left image phoff (i + 1) a
      (if in_segment ph a then some (segment_byte image ph (a - ph.vaddr)) else old)

-- the bytes in memory of all segments
unfoldable pub total_size : ℕ → Bytes → ℕ → ℕ → ℕ
total_size zero image phoff i = 0
total_size (suc left) image phoff i =
    let ph = read_phdr image phoff i in
    (if ph.kind == 1 then ph.memsz else 0) + total_size left image phoff (i + 1)

module _ {V : Type 0} (paging : Paging V) (Room : V → ℕ → Type 0)
    (serves : Serves paging Room) where
  -- the process reads the byte `x` at the address `a`
  pub record Reads (v : V) (mem : Bytes) (a x : ℕ) : Type 0 where
    pub user : a < 2 ^ 47
    pub there : paging.phys_of v (page_start a) ≢ 0
    pub value : mem (paging.phys_of v (page_start a) + a % 4096) ≡ x

  -- What `ensure_user_page` answers with.
  record Ensured (v : V) (a left phys : ℕ) (v1 : V) : Type 0 where
    room : Room v1 left
    mapped : paging.phys_of v1 (page_start a) ≡ phys
    some_ : phys ≢ 0
    user : a < 2 ^ 47
    kept :
        (page : ℕ)
        → IsPage page
        → paging.phys_of v page ≢ 0
        → paging.phys_of v1 page ≡ paging.phys_of v page

  ensure_user_page-Ensured :
      (v : V) (a left : ℕ)
      → a < 2 ^ 47
      → Room v (suc left)
      → let (phys, v1) = ensure_user_page paging v a in Ensured v a left phys v1
  unfolding ensure_user_page
  ensure_user_page-Ensured v a left low room =
      elim (Bool-cases (paging.phys_of v (page_start a) == 0)) [
        | inl absent ↦
            let none_ : paging.phys_of v (page_start a) ≡ 0 = ground arith in
            let (at, some_, room1) =
              serves.mapped v (page_start a) left (page_start-IsPage a low) room none_ in
            rw (ensure_user_page, absent)
              (record {
                room = room1;
                mapped = at;
                some_ = some_;
                user = low;
                kept = λ page is_page there.
                    serves.others v (page_start a) page left (page_start-IsPage a low) is_page room
                      none_ there;
              })
        | inr present ↦
            rw (ensure_user_page, present)
              (record {
                room = serves.spared v left room;
                mapped = refl;
                some_ = ground arith;
                user = low;
                kept = λ page is_page there. refl;
              })
      ]

  -- the byte that is written, and those at other addresses
  written_byte :
      (v v1 : V) (mem : Bytes) (at left phys x : ℕ)
      → Ensured v at left phys v1
      → Reads v1 (update mem (phys + at % 4096) x) at x
  unfolding update
  written_byte v v1 mem at left phys x ens = record {
    user = ens.user;
    there = rw ens.mapped ens.some_;
    value = rw (ens.mapped, ==_refl (phys + at % 4096)) refl;
  }

  other_byte :
      (v v1 : V) (mem : Bytes) (at left phys x a y : ℕ)
      → Ensured v at left phys v1
      → a ≢ at
      → Reads v mem a y
      → Reads v1 (update mem (phys + at % 4096) x) a y
  unfolding update
  other_byte v v1 mem at left phys x a y ens ne reads =
      let low = page_start-IsPage a reads.user in
      let low1 = page_start-IsPage at ens.user in
      let same = ens.kept (page_start a) low reads.there in
      let p = paging.phys_of v1 (page_start a) in
      let q = paging.phys_of v1 (page_start at) in
      let whole : p % 4096 ≡ 0 = serves.whole v1 (page_start a) left low ens.room in
      let whole1 : q % 4096 ≡ 0 = serves.whole v1 (page_start at) left low1 ens.room in
      let there : p ≢ 0 = rw same reads.there in
      let far : (p + a % 4096) ≢ (q + at % 4096) = λ e.
        let frames : p ≡ q = omega (arith, e) in
        let pages : page_start a ≡ page_start at =
          serves.apart v1 (page_start a) (page_start at) left low low1 ens.room there frames in
        ne (omega (arith, e, frames, pages)) in
      let far1 : (p + a % 4096) ≢ (phys + at % 4096) = rw (sym ens.mapped) far in
      record {
        user = reads.user;
        there = there;
        value = rw (==_ne (p + a % 4096) (phys + at % 4096) far1) (rw same reads.value);
      }

  -- What `load_bytes` leaves behind.
  record Loads (image : Bytes) (ph : Phdr) (b left more : ℕ) (v : V) (mem : Bytes) (v1 : V)
      (mem1 : Bytes) : Type 0 where
    room : Room v1 more
    bytes : (j : ℕ) → b ≤ j → j < b + left → Reads v1 mem1 (ph.vaddr + j) (segment_byte image ph j)
    others :
        (a y : ℕ)
        → (a < ph.vaddr + b) ⊎ (ph.vaddr + b + left ≤ a)
        → Reads v mem a y
        → Reads v1 mem1 a y

  load_bytes_next :
      (left : ℕ) (image : Bytes) (ph : Phdr) (b : ℕ) (v : V) (mem : Bytes)
      → ph.vaddr + b < 2 ^ 64
      → let at = ph.vaddr + b in
        let (phys, v1) = ensure_user_page paging v at in
        load_bytes paging (suc left) image ph b v mem
        ≡ load_bytes paging left image ph
            (b + 1)
            v1
            (update mem (phys + at % 4096) (segment_byte image ph b))
  unfolding load_bytes
  load_bytes_next left image ph b v mem low =
      let plain : add64 ph.vaddr b ≡ ph.vaddr + b = omega arith in rw (load_bytes, plain) refl

  load_bytes-Loads :
      (left : ℕ) (image : Bytes) (ph : Phdr) (b more : ℕ) (v : V) (mem : Bytes)
      → Room v (left + more)
      → ph.vaddr + b + left ≤ 2 ^ 47
      → let (v1, mem1) = load_bytes paging left image ph b v mem in
        Loads image ph b left more v mem v1 mem1
  unfolding load_bytes
  load_bytes-Loads zero image ph b more v mem room low = record {
    room = let e : 0 + more ≡ more = omega arith in rw e at room;
    bytes = λ j lo hi. absurd (omega arith);
    others = λ a y out reads. reads;
  }
  load_bytes-Loads (suc left) image ph b more v mem room low =
      let at = ph.vaddr + b in
      let x = segment_byte image ph b in
      let (phys, v1) = ensure_user_page paging v at in
      let all : suc left + more ≡ suc (left + more) = omega arith in
      let ens : Ensured v at (left + more) phys v1 =
        ensure_user_page-Ensured v at (left + more) (omega arith) (rw all at room) in
      let mem1 = update mem (phys + at % 4096) x in
      let rest = load_bytes-Loads left image ph (b + 1) more v1 mem1 ens.room (omega arith) in
      let (v2, mem2) = load_bytes paging left image ph (b + 1) v1 mem1 in
      rw (load_bytes_next left image ph b v mem (omega arith)) (record {
        room = rest.room;
        bytes = λ j lo hi. elim (Bool-cases (j == b)) [
          | inl now ↦
              let e : j ≡ b = ground arith in
              rw e (
                rest.others at x (inl (omega arith))
                  (written_byte v v1 mem at (left + more) phys x ens))
          | inr later ↦ rest.bytes j (ground arith) (omega arith)
        ];
        others = λ a y out reads. rest.others a y (omega (arith, out)) (
            other_byte v v1 mem at (left + more) phys x a y ens (λ e. omega (arith, e, out)) reads);
      })

  abbrev Holds : V → Bytes → ℕ → Option ℕ → Type 0
  Holds v mem a known = (x : ℕ) → known ≡ some x → Reads v mem a x

  some_value : (x y : ℕ) → some x ≡ some y → x ≡ y
  some_value x y e = ap (λ (o : Option ℕ). elim o [ none ↦ 0 | some z ↦ z ]) e

  -- what a header adds to what is known of an address
  abbrev after_segment : Bytes → Phdr → ℕ → Option ℕ → Option ℕ
  after_segment image ph a old =
      if in_segment ph a then some (segment_byte image ph (a - ph.vaddr)) else old

  load_segment-Holds :
      (image : Bytes) (ph : Phdr) (more : ℕ) (v : V) (mem : Bytes) (a : ℕ) (old : Option ℕ)
      → Room v ((if ph.kind == 1 then ph.memsz else 0) + more)
      → (ph.kind ≡ 1 → ph.vaddr + ph.memsz ≤ 2 ^ 47)
      → Holds v mem a old
      → let (v1, mem1) = load_segment paging image ph v mem in
        Room v1 more × Holds v1 mem1 a (after_segment image ph a old)
  unfolding load_segment
  load_segment-Holds image ph more v mem a old room low holds = elim (Bool-cases (ph.kind == 1)) [
    | inr other ↦
        let skip : (ph.kind != 1) ≡ true = ground arith in
        let e : 0 + more ≡ more = omega arith in
        rw (load_segment, skip, other) (rw (other, e) at room, holds)
    | inl kind ↦
        let go : (ph.kind != 1) ≡ false = ground arith in
        let loads =
          load_bytes-Loads ph.memsz image ph 0 more v mem (rw kind at room)
            (omega (arith, low (ground arith))) in
        rw (load_segment, go)
          (
            loads.room,
            elim (Bool-cases (in_segment ph a)) [
              | inl inside ↦ rw inside (λ x e.
                  let here : ph.vaddr + (a - ph.vaddr) ≡ a = ground arith in
                  rw (here, some_value _ x e) at
                    (loads.bytes (a - ph.vaddr) (omega arith) (ground arith)))
              | inr outside ↦
                  rw outside (λ x e. loads.others a x (ground (arith, kind, outside)) (holds x e))
            ],
          )
  ]

  load_segments-Holds :
      (n : ℕ) (image : Bytes) (phoff i more : ℕ) (v : V) (mem : Bytes) (a : ℕ) (old : Option ℕ)
      → Room v (total_size n image phoff i + more)
      → ((j : ℕ)
          → j < i + n
          → (read_phdr image phoff j).kind ≡ 1
          → (read_phdr image phoff j).vaddr + (read_phdr image phoff j).memsz ≤ 2 ^ 47)
      → Holds v mem a old
      → let (v1, mem1) = load_segments paging n image phoff i v mem in
        Holds v1 mem1 a (final_byte n image phoff i a old)
  unfolding load_segments final_byte total_size
  load_segments-Holds zero image phoff i more v mem a old room low holds = holds
  load_segments-Holds (suc n) image phoff i more v mem a old room low holds =
      let ph = read_phdr image phoff i in
      let rest = total_size n image phoff (i + 1) in
      let all : (if ph.kind == 1 then ph.memsz else 0) + rest + more
          ≡ (if ph.kind == 1 then ph.memsz else 0) + (rest + more) =
        omega arith in
      let (room1, holds1) =
        load_segment-Holds image ph (rest + more) v mem a old (rw all at room) (low i (omega arith))
          holds in
      let (v1, mem1) = load_segment paging image ph v mem in
      load_segments-Holds n image phoff (i + 1) more v1 mem1 a (after_segment image ph a old) room1
        (λ j lt. low j (omega (arith, lt))) holds1

  pub elf_load-Reads :
      (image : Bytes) (size : ℕ) (v : V) (mem : Bytes) (a x : ℕ)
      → bad_header image size ≡ false
      → Room v (total_size (read16 image 56) image (read64 image 32) 0)
      → ((j : ℕ)
          → j < read16 image 56
          → (read_phdr image (read64 image 32) j).kind ≡ 1
          → (read_phdr image (read64 image 32) j).vaddr
              + (read_phdr image (read64 image 32) j).memsz
            ≤ 2 ^ 47)
      → final_byte (read16 image 56) image (read64 image 32) 0 a none ≡ some x
      → let (entry, v1, mem1) = elf_load paging image size v mem in
        (entry ≡ read64 image 24) × Reads v1 mem1 a x
  unfolding elf_load
  elf_load-Reads image size v mem a x good room low known =
      let n = read16 image 56 in
      let phoff = read64 image 32 in
      let e : total_size n image phoff 0 ≡ total_size n image phoff 0 + 0 = omega arith in
      let holds =
        load_segments-Holds n image phoff 0 0 v mem a none (rw e at room)
          (λ j lt. low j (omega (arith, lt))) (λ y impossible. absurd (none_some y impossible)) in
      rw (elf_load, good) (refl, holds x known)
    where
      none_some : (y : ℕ) → none ≡ some y → ⊥
      none_some y e =
          let f : ◌≡◌ {A = ℕ} 0 1 = ap (λ (o : Option ℕ). elim o [ none ↦ 0 | some z ↦ 1 ]) e in
          omega (arith, f)
