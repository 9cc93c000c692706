-- ===== src/Disk.antt =====
-- disk_simulator_manager/disk.h and disk.cpp: `Disk`, an image file read and written by sectors of
-- 512 bytes. `lseek`, `read` and `write` are the operating system's: the record `Posix` is a
-- parameter, and `IsRegularFile` states what their manual pages promise of a regular file. The
-- constructor and the destructor only open and close the descriptor. An `int` is its pattern below
-- 2 ^ 32, and its product wraps as two's complement.
pub mod Store
pub mod Image
pub mod Tests
use ex2_file_system.Memory.{Bytes, overwrite}
use ex2_file_system.Base.{
  ℕ, zero, suc, ◌+◌, ◌-◌, ◌*◌, ◌/◌, ◌%◌, ◌^◌, ◌≤◌, ◌<◌, ◌≡◌, List, [], ◌∷◌, length, ◌==◌, leb, ltb,
  max, if◌then◌else◌, minus_one, int_mod, to_u64, get_or, ◌&&◌, take,
}

-- shared_types.h
abbrev pub sector_size : ℕ
sector_size = 512

abbrev pub disk_size : ℕ
disk_size = 2 ^ 30 + 3 * 1024

abbrev pub num_sectors : ℕ
num_sectors = disk_size / sector_size

-- The system calls on the open descriptor: the result register, what `read` delivers, and the new
-- state of the file.
pub record Posix : Type 1 where
  pub File : Type 0
  pub lseek : ℕ → File → ℕ × File
  pub read : ℕ → File → ℕ × Bytes × File
  pub write : Bytes → File → ℕ × File

-- `n` bytes of a file from `pos` on.
unfoldable pub bytes_from : (ℕ → ℕ) → ℕ → ℕ → Bytes
bytes_from content pos zero = []
bytes_from content pos (suc n) = content pos ∷ bytes_from content (pos + 1) n

-- A file's content once `bs` stands at `pos`.
unfoldable pub written : (ℕ → ℕ) → ℕ → Bytes → ℕ → ℕ
written content pos bs k =
    if leb pos k && ltb k (pos + length bs) then get_or bs (k - pos) 0 else content k

pub record IsRegularFile (os : Posix) : Type 0 where
  pub content : os.File → ℕ → ℕ
  pub size : os.File → ℕ
  pub position : os.File → ℕ
  -- A seek to an offset that `off_t` can hold returns it, and moves nothing but the position.
  pub lseek_result : (o : ℕ) (f : os.File) → o < 2 ^ 63 → (os.lseek o f).0 ≡ o
  pub lseek_position : (o : ℕ) (f : os.File) → o < 2 ^ 63 → position (os.lseek o f).1 ≡ o
  pub lseek_content : (o : ℕ) (f : os.File) → content (os.lseek o f).1 ≡ content f
  pub lseek_size : (o : ℕ) (f : os.File) → size (os.lseek o f).1 ≡ size f
  -- A read that ends inside the file delivers the bytes that it was asked for.
  pub read_result :
      (n : ℕ) (f : os.File) → position f + n ≤ size f → n < 2 ^ 31 → (os.read n f).0 ≡ n
  pub read_bytes :
      (n : ℕ) (f : os.File)
      → position f + n ≤ size f
      → n < 2 ^ 31
      → (os.read n f).1 ≡ bytes_from (content f) (position f) n
  pub read_content : (n : ℕ) (f : os.File) → content (os.read n f).2 ≡ content f
  pub read_size : (n : ℕ) (f : os.File) → size (os.read n f).2 ≡ size f
  -- A write puts all its bytes at the position, and grows the file where it ends past it.
  pub write_result : (bs : Bytes) (f : os.File) → length bs < 2 ^ 31 → (os.write bs f).0 ≡ length bs
  pub write_content :
      (bs : Bytes) (f : os.File)
      → length bs < 2 ^ 31
      → content (os.write bs f).1 ≡ written (content f) (position f) bs
  pub write_size :
      (bs : Bytes) (f : os.File)
      → length bs < 2 ^ 31
      → size (os.write bs f).1 ≡ max (size f) (position f + length bs)

module _ (os : Posix) where
  -- `sector` is the caller's buffer: a call that fails may leave it as it was.
  unfoldable pub populate_sector : ℕ → Bytes → os.File → ℕ × Bytes × os.File
  populate_sector sector_number sector f =
      let starting_offset = to_u64 (sector_number * sector_size % int_mod) in
      if leb disk_size starting_offset
      then (minus_one, sector, f)
      else let (status, f') = os.lseek starting_offset f in
        if status % int_mod == minus_one
        then (minus_one, sector, f')
        else let (bytes_read, bytes, f'') = os.read sector_size f' in
          (
            if bytes_read % int_mod == sector_size then 0 else minus_one,
            overwrite sector 0 bytes,
            f'',
          )

  -- Unlike `populate_sector` it does not hold the offset against the size of the disk.
  unfoldable pub write_sector : ℕ → Bytes → os.File → ℕ × os.File
  write_sector sector_number sector f =
      let starting_offset = to_u64 (sector_number * sector_size % int_mod) in
      let (status, f') = os.lseek starting_offset f in
      if status % int_mod == minus_one
      then (minus_one, f')
      else let (bytes_written, f'') = os.write (take sector_size sector) f' in
        (if bytes_written % int_mod == sector_size then 0 else minus_one, f'')
