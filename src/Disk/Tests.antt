-- ===== src/Disk/Tests.antt =====
-- A regular file in memory, on which the tests run the code.
use ex2_file_system.Disk.{Posix, IsRegularFile, bytes_from, written, disk_size}
use ex2_file_system.Disk.Store.{SectorStore, IsDisk}
use ex2_file_system.Disk.Image.{file_store, file_store-IsDisk}
use ex2_file_system.Base.{
  ℕ, ◌+◌, ◌≡◌, ◌≤◌, ◌*◌, refl, length, max, leb, if◌then◌else◌, le→leb, [], Bool-cases, inl, inr,
  arith,
}

pub record RamFile : Type 0 where
  pub content : ℕ → ℕ
  pub size : ℕ
  pub position : ℕ

abbrev pub ram : Posix
ram = record {
  File = RamFile;
  lseek = λ o f. (o, record f { position = o });
  read = λ n f.
      if leb (f.position + n) f.size then (n, bytes_from f.content f.position n, f) else (0, [], f);
  write = λ bs f. (
    length bs,
    record {
      content = written f.content f.position bs;
      size = max f.size (f.position + length bs);
      position = f.position;
    },
  );
}

abbrev pub ram-IsRegularFile : IsRegularFile ram
ram-IsRegularFile = record {
  content = λ f. f.content;
  size = λ f. f.size;
  position = λ f. f.position;
  lseek_result = λ o f h. refl;
  lseek_position = λ o f h. refl;
  lseek_content = λ o f. refl;
  lseek_size = λ o f. refl;
  read_result = λ n f room h. rw (le→leb (f.position + n) f.size room);
  read_bytes = λ n f room h. rw (le→leb (f.position + n) f.size room);
  read_content =
      λ n f. elim (Bool-cases (leb (f.position + n) f.size)) [ inl e ↦ rw e | inr e ↦ rw e ];
  read_size =
      λ n f. elim (Bool-cases (leb (f.position + n) f.size)) [ inl e ↦ rw e | inr e ↦ rw e ];
  write_result = λ bs f h. refl;
  write_content = λ bs f h. refl;
  write_size = λ bs f h. refl;
}

-- An image of zeros of the disk's size.
abbrev pub blank : RamFile
blank = record { content = λ k. 0; size = disk_size; position = 0 }

abbrev pub image_disk : SectorStore
image_disk = file_store ram

abbrev pub image-IsDisk : IsDisk image_disk
image-IsDisk = (file_store-IsDisk ram ram-IsRegularFile).0

pub blank-IsReady : image-IsDisk.IsReady blank
blank-IsReady = (file_store-IsDisk ram ram-IsRegularFile).1 blank (omega arith)

file_store-IsDisk_example :
    (laws : IsDisk (file_store ram)) × ((f : RamFile)
      → disk_size ≤ ram-IsRegularFile.size f
      → laws.IsReady f)
    × ((f : RamFile) (n : ℕ)
        → laws.sector f n ≡ bytes_from (ram-IsRegularFile.content f) (n * 512) 512)
file_store-IsDisk_example = file_store-IsDisk ram ram-IsRegularFile
