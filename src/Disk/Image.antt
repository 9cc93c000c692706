-- ===== src/Disk/Image.antt =====
-- `Disk` over a regular file is a disk.
use ex2_file_system.Memory.{Bytes, overwrite}
use ex2_file_system.Memory.Copies.{overwrite_whole}
use ex2_file_system.Disk.{
  Posix, IsRegularFile, bytes_from, written, populate_sector, write_sector, disk_size, sector_size,
}
use ex2_file_system.Disk.Store.{SectorStore, IsDisk, num_sectors}
use ex2_file_system.Base.{
  ℕ, zero, suc, ◌+◌, ◌-◌, ◌*◌, ◌%◌, ◌≤◌, ◌<◌, ◌≡◌, refl, ap, ap₂, sym, ◌∙◌, [], ◌∷◌, length, ◌==◌,
  if◌then◌else◌, leb, get_or, arith, Bool-cases, true, false, inl, inr, minus_one, int_mod, to_u64,
  take_all, le→leb, lt→ltb, subst,
}

abbrev pub file_store : Posix → SectorStore
file_store os = record {
  State = os.File;
  populate_sector = populate_sector os;
  write_sector = write_sector os;
}

length-bytes_from : (c : ℕ → ℕ) (pos n : ℕ) → length (bytes_from c pos n) ≡ n
unfolding bytes_from
length-bytes_from c pos zero = refl
length-bytes_from c pos (suc n) = ap suc (length-bytes_from c (pos + 1) n)

-- Bytes that agree with a list, one by one, are the list.
bytes_from-list :
    (c : ℕ → ℕ) (pos : ℕ) (bs : Bytes)
    → ((i : ℕ) → i < length bs → c (pos + i) ≡ get_or bs i 0)
    → bytes_from c pos (length bs) ≡ bs
unfolding bytes_from
bytes_from-list c pos [] same = refl
bytes_from-list c pos (b ∷ bs) same =
    ap₂ (λ x xs. x ∷ xs) ((let e : pos ≡ pos + 0 = omega arith in ap c e) ∙ same 0 (omega arith))
      (bytes_from-list c (pos + 1) bs (λ i h.
        (let e : pos + 1 + i ≡ pos + suc i = omega arith in ap c e) ∙ same (suc i) (omega arith)))

bytes_from-ext :
    (c d : ℕ → ℕ) (pos n : ℕ)
    → ((k : ℕ) → pos ≤ k → k < pos + n → c k ≡ d k)
    → bytes_from c pos n ≡ bytes_from d pos n
unfolding bytes_from
bytes_from-ext c d pos zero same = refl
bytes_from-ext c d pos (suc n) same =
    ap₂ (λ x xs. x ∷ xs) (same pos (omega arith) (omega arith))
      (bytes_from-ext c d (pos + 1) n (λ k h h'. same k (omega arith) (omega arith)))

pub bytes_from-written :
    (c : ℕ → ℕ) (pos : ℕ) (bs : Bytes) → bytes_from (written c pos bs) pos (length bs) ≡ bs
unfolding written
bytes_from-written c pos bs = bytes_from-list (written c pos bs) pos bs inside
  where
    inside : (i : ℕ) → i < length bs → written c pos bs (pos + i) ≡ get_or bs i 0
    inside i h =
        let e : pos + i - pos ≡ i = omega arith in
        rw (le→leb pos (pos + i) (omega arith), lt→ltb (pos + i) (pos + length bs) (omega arith), e)

-- The sector that is written holds the new bytes, any other its old ones.
sector_written :
    (c : ℕ → ℕ) (n m : ℕ) (bs : Bytes)
    → length bs ≡ 512
    → bytes_from (written c (n * 512) bs) (m * 512) 512
      ≡ (if n == m then bs else bytes_from c (m * 512) 512)
unfolding written
sector_written c n m bs len = elim (Bool-cases (n == m)) [
  | inl same ↦
      let e : m ≡ n = ground arith in
      rw same (
        rw e (
          subst (λ k. bytes_from (written c (n * 512) bs) (n * 512) k ≡ bs) len
            (bytes_from-written c (n * 512) bs)))
  | inr other ↦ rw other (bytes_from-ext _ c (m * 512) 512 (λ k h h'. ground arith))
]

-- Inside the disk the offset is the plain product.
offset_lem : (n : ℕ) → n < num_sectors → to_u64 (n * sector_size % int_mod) ≡ n * 512
offset_lem n h = ground arith

module _ (os : Posix) (reg : IsRegularFile os) where
  open reg use {
    content, size, position, lseek_result, lseek_position, lseek_content, lseek_size, read_result,
    read_bytes, read_content, read_size, write_result, write_content, write_size,
  }

  sought :
      (n : ℕ) (f : os.File)
      → n < num_sectors
      → ((os.lseek (n * 512) f).0 % int_mod == minus_one) ≡ false
  sought n f h = rw (lseek_result (n * 512) f (omega arith)) (ground arith)

  transferred : (count : ℕ) → count ≡ 512 → (count % int_mod == sector_size) ≡ true
  transferred count e = rw e

  write_lem :
      (n : ℕ) (bs : Bytes) (f : os.File)
      → n < num_sectors
      → length bs ≡ 512
      → write_sector os n bs f ≡ (0, (os.write bs (os.lseek (n * 512) f).1).1)
  unfolding write_sector
  write_lem n bs f h len = rw (
    offset_lem n h,
    sought n f h,
    take_all 512 bs (omega arith),
    transferred _ (write_result bs (os.lseek (n * 512) f).1 (omega arith) ∙ len),
  )

  populate_lem :
      (n : ℕ) (buffer : Bytes) (f : os.File)
      → n < num_sectors
      → disk_size ≤ size f
      → populate_sector os n buffer f ≡ (
        0,
        overwrite buffer 0 (bytes_from (content f) (n * 512) 512),
        (os.read 512 (os.lseek (n * 512) f).1).2,
      )
  unfolding populate_sector
  populate_lem n buffer f h ready = rw (
    offset_lem n h,
    sought n f h,
    below,
    transferred _ (read_result 512 _ room (omega arith)),
    read_bytes 512 _ room (omega arith),
    lseek_content (n * 512) f,
    lseek_position (n * 512) f (omega arith),
  )
    where
      below : leb disk_size (n * 512) ≡ false
      below = ground arith

      room : position (os.lseek (n * 512) f).1 + 512 ≤ size (os.lseek (n * 512) f).1
      room = omega (arith, lseek_position (n * 512) f (omega arith), lseek_size (n * 512) f)

  -- A read never changes a byte of the image.
  populate_content :
      (n : ℕ) (buffer : Bytes) (f : os.File)
      → (content (populate_sector os n buffer f).2 ≡ content f)
        × (size (populate_sector os n buffer f).2 ≡ size f)
  unfolding populate_sector
  populate_content n buffer f = elim (Bool-cases (leb disk_size offset)) [
    | inl e ↦ rw e (refl, refl)
    | inr e ↦ rw e (elim (Bool-cases ((os.lseek offset f).0 % int_mod == minus_one)) [
      | inl e' ↦ rw e' (lseek_content offset f, lseek_size offset f)
      | inr e' ↦
          rw e' (read_content 512 _ ∙ lseek_content offset f, read_size 512 _ ∙ lseek_size offset f)
    ])
  ]
    where
      offset : ℕ
      offset = to_u64 (n * sector_size % int_mod)

-- Over a regular file of at least the disk's size `Disk` is a disk of 512-byte sectors: below
-- `NUM_SECTORS` both operations succeed, a read delivers the sector and changes nothing, and a
-- write changes that sector and no other. Sector `n` is the 512 bytes of the file from `512 n` on.
pub file_store-IsDisk :
    (os : Posix) (reg : IsRegularFile os)
    → (laws : IsDisk (file_store os)) × ((f : os.File) → disk_size ≤ reg.size f → laws.IsReady f)
      × ((f : os.File) (n : ℕ) → laws.sector f n ≡ bytes_from (reg.content f) (n * 512) 512)
file_store-IsDisk os reg = (
  record {
    IsReady = λ f. disk_size ≤ reg.size f;
    sector = λ f n. bytes_from (reg.content f) (n * 512) 512;
    length-sector = λ f n. length-bytes_from (reg.content f) (n * 512) 512;
    populate_status = λ n buffer f ready h. ap (λ t. t.0) (populate_lem os reg n buffer f h ready);
    populate_buffer = λ n buffer f ready h len.
        ap (λ t. t.1) (populate_lem os reg n buffer f h ready)
        ∙ overwrite_whole buffer _ (len ∙ sym (length-bytes_from (reg.content f) (n * 512) 512));
    populate_sectors =
        λ n buffer f m. ap (λ c. bytes_from c (m * 512) 512) (populate_content os reg n buffer f).0;
    populate-IsReady = λ n buffer f ready. rw (populate_content os reg n buffer f).1 ready;
    write_status = λ n buffer f h len. ap (λ t. t.0) (write_lem os reg n buffer f h len);
    write_sectors = λ n buffer f m h len. rw (write_lem os reg n buffer f h len) (
        ap (λ c. bytes_from c (m * 512) 512)
          (reg.write_content buffer (os.lseek (n * 512) f).1 (omega arith)
            ∙ ap₂ (λ c pos. written c pos buffer) (reg.lseek_content (n * 512) f)
                (reg.lseek_position (n * 512) f (omega arith)))
        ∙ sector_written (reg.content f) n m buffer len);
    write-IsReady = λ n buffer f h len ready. rw (write_lem os reg n buffer f h len) (
        omega (
          arith,
          reg.write_size buffer (os.lseek (n * 512) f).1 (omega arith),
          reg.lseek_size (n * 512) f,
        ));
  },
  λ f h. h,
  λ f n. refl,
)
