-- ===== src/Shell/AppendTests.antt =====
-- Writes to the directory of one entry, and a second entry.
use ex2_file_system.Memory.{Bytes, overwrite, get_field, put_field, from_bytes}
use ex2_file_system.Disk.Tests.{image_disk, image-IsDisk, RamFile}
use ex2_file_system.Block.Transfer.{block}
use ex2_file_system.BlockGroup.Address.{get_starting_block_inode}
use ex2_file_system.BlockGroup.Manager.Stored.{inode_of}
use ex2_file_system.BlockGroup.Tests.{stack, behind, big}
use ex2_file_system.FileSystem
use ex2_file_system.FileSystem.{MyFile, FileSystem, permits}
use ex2_file_system.FileSystem.Blocks.{my_file_system_write}
use ex2_file_system.FileSystem.Blocks.Appending.{my_file_system_write_lem}
use ex2_file_system.Shell.Entry.{entry_name, write_char_bytes}
use ex2_file_system.Shell.Names.{c_string}
use ex2_file_system.Shell.Directory.{get_file_info}
use ex2_file_system.Shell.Directory.Search.{Members, members}
use ex2_file_system.Shell.Directory.OnDisk.{IsDirectory}
use ex2_file_system.Shell.Commands.{append_entry}
use ex2_file_system.Shell.Commands.Appending.{append_entry-IsDirectory}
use ex2_file_system.Shell.Commands.Listed.{get_file_info-append_entry}
use ex2_file_system.Shell.Tests.{listing}
use ex2_file_system.Shell.DirectoryTests.{
  with_data, with_data-IsReady, with_data-IsDirectory, inode_read, read_inode, first_block_read,
  inode_block, mounted, record_of, record_listed,
}
use ex2_file_system.Effect.{done}
use ex2_file_system.Base.{
  ℕ, ◌+◌, ◌≡◌, ◌≤◌, ◌==◌, true, false, refl, ap, ◌∙◌, some, none, [], ◌∷◌, ◌++◌, replicate,
  length-replicate, arith, if◌then◌else◌,
}

abbrev stored_inode : RamFile → Bytes
stored_inode s = inode_of image_disk image-IsDisk stack behind big s 8

-- The directory is open for writing, at its start.
abbrev open_file : MyFile
open_file = record {
  inode_number = 8;
  position = 0;
  file_size = 60;
  permissions = 0;
  is_directory = true;
}

abbrev writing : FileSystem RamFile
writing = record { mp = (3, open_file) ∷ []; created_file_descriptors = 5; disk = with_data }

open_at_three : FileSystem.get_file_info 3 writing ≡ some open_file
unfolding FileSystem.get_file_info
open_at_three = refl

not_zero : (get_field 4 16 (stored_inode with_data) == 0) ≡ false
not_zero = rw first_block_read refl

apart : (get_starting_block_inode 8 == get_field 4 16 (stored_inode with_data)) ≡ false
apart = rw (first_block_read, inode_block) refl

my_file_system_write_example :
    (s' : RamFile) × (my_file_system_write image_disk stack behind 5 3 (replicate 10 7) 10 writing
      ≡ done 0 (record writing { mp = (3, record open_file { file_size = 70 }) ∷ []; disk = s' }))
    × image-IsDisk.IsReady s'
    × (block image_disk image-IsDisk s' (get_field 4 16 (stored_inode with_data))
        ≡ overwrite
            (block image_disk image-IsDisk with_data (get_field 4 16 (stored_inode with_data)))
            60
            (replicate 10 7))
    × ((m : ℕ)
        → (get_starting_block_inode 8 == m) ≡ false
        → (get_field 4 16 (stored_inode with_data) == m) ≡ false
        → block image_disk image-IsDisk s' m ≡ block image_disk image-IsDisk with_data m)
    × ((w o : ℕ)
        → o + w ≤ 133
        → get_field w o (stored_inode s')
          ≡ get_field w o (put_field 8 72 5 (put_field 4 8 70 (stored_inode with_data))))
my_file_system_write_example =
    my_file_system_write_lem image_disk image-IsDisk stack behind big writing with_data-IsReady 3 10
      5 open_file (replicate 10 7) open_at_three with_data-IsDirectory.file (omega arith)
      (omega arith) (omega arith) refl (omega arith) not_zero (omega (arith, first_block_read))
      apart (omega arith)

mode_allows : permits 2 read_inode ≡ true
unfolding permits get_field from_bytes overwrite
mode_allows = refl

writable : permits 2 (stored_inode with_data) ≡ true
writable = ap (permits 2) inode_read ∙ mode_allows

-- `d`, number 7, with the permission 2.
abbrev second : Bytes
second = b'd' ∷ 0 ∷ replicate 50 0 ++ 7 ∷ 0 ∷ 0 ∷ 0 ∷ 2 ∷ 0 ∷ 0 ∷ 0 ∷ []

append_entry_example :
    (fs' : FileSystem RamFile) × (append_entry image_disk stack behind 5 0
        (replicate 60 4)
        8
        2
        second
        mounted
      ≡ done 0 fs')
    × (fs'.created_file_descriptors ≡ 1)
    × image-IsDisk.IsReady fs'.disk
    × IsDirectory image_disk image-IsDisk stack behind big fs'.disk 8
        (record_of ∷ write_char_bytes second (replicate 60 4) ∷ [])
    × ((j : ℕ)
        → FileSystem.get_file_info j fs'
          ≡ (if 0 == j then none else FileSystem.get_file_info j mounted))
    × ((m : ℕ)
        → (get_starting_block_inode 8 == m) ≡ false
        → (get_field 4 16 (stored_inode with_data) == m) ≡ false
        → block image_disk image-IsDisk fs'.disk m ≡ block image_disk image-IsDisk with_data m)
append_entry_example =
    append_entry-IsDirectory image_disk image-IsDisk stack behind big 5 0 mounted 8 2
      (record_of ∷ []) second (replicate 60 4) refl with_data-IsReady with_data-IsDirectory writable
      (omega arith) (omega arith) not_zero

get_file_info-append_entry_example :
    (fs' fs'' : FileSystem RamFile) × (out : Bytes) × (append_entry image_disk stack behind 5 0
        (replicate 60 4)
        8
        2
        second
        mounted
      ≡ done 0 fs')
    × (get_file_info image_disk
          (replicate 2048 3)
          (replicate 1000 4)
          6
          1
          8
          (b'd' ∷ [])
          (replicate 60 5)
          fs'
        ≡ done (0, out) fs'')
    × (c_string (entry_name out) ≡ some (b'd' ∷ []))
    × Path Members (members out) (7, 2, false)
unfolding c_string get_field from_bytes
get_file_info-append_entry_example =
    get_file_info-append_entry image_disk image-IsDisk stack behind big 5 0 mounted 8 2
      (replicate 2048 3) (replicate 1000 4) (length-replicate {A = ℕ} 2048 3) 6 1 (record_of ∷ [])
      listing second (replicate 60 4) (b'd' ∷ []) (7, 2, false) (replicate 60 5) refl
      with_data-IsReady with_data-IsDirectory record_listed (refl, refl, refl) refl refl writable
      (omega arith) (omega arith) not_zero refl
