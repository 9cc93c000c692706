-- ===== src/Shell/DirectoryTests.antt =====
-- A directory of one entry on an image that is blank otherwise.
use ex2_file_system.Memory.{Bytes, overwrite, slice, get_field, from_bytes}
use ex2_file_system.Disk.Tests.{image_disk, image-IsDisk, RamFile, blank, blank-IsReady}
use ex2_file_system.Block.Transfer.{
  block, num_blocks, both_halves, block-both_halves, both_halves-IsReady,
}
use ex2_file_system.BlockGroup.Address.{get_starting_block_inode}
use ex2_file_system.BlockGroup.Manager.{uid, hard_link_count}
use ex2_file_system.BlockGroup.Manager.Stored.{
  inode_of, inode_of-block, after_destroy, after_destroy-IsReady, inode_of-after_destroy,
}
use ex2_file_system.BlockGroup.Tests.{stack, behind, big}
use ex2_file_system.FileSystem
use ex2_file_system.FileSystem.{MyFile, FileSystem, permits, inode_file_size, is_directory_flag}
use ex2_file_system.FileSystem.Blocks.{my_file_system_read}
use ex2_file_system.FileSystem.Blocks.OnDisk.{my_file_system_read_lem}
use ex2_file_system.Shell.Entry.{write_char_bytes}
use ex2_file_system.Shell.Names.{c_string}
use ex2_file_system.Shell.Directory.{get_file_info}
use ex2_file_system.Shell.Directory.Search.{Answers, AreRecordsOf, directory_bytes}
use ex2_file_system.Shell.Directory.OnDisk.{IsDirectory, get_file_info-first_named}
use ex2_file_system.Shell.Commands.{ShellManager, change_directory}
use ex2_file_system.Shell.Commands.Entering.{change_directory_lem}
use ex2_file_system.Shell.Tests.{entry, listing}
use ex2_file_system.Effect.{done}
use ex2_file_system.Base.{
  ℕ, ◌+◌, ◌≡◌, ◌<◌, ◌≤◌, length, ◌==◌, true, false, refl, ap, ◌∙◌, some, none, [], ◌∷◌, ◌++◌,
  replicate, take, arith, if◌then◌else◌,
}

-- Inode 8: mode 3, 60 bytes, one link, block 7000, a directory.
abbrev inode : Bytes
inode =
    3
      ∷ 0
      ∷ 8
      ∷ 0
      ∷ 0
      ∷ 0
      ∷ 0
      ∷ 0
      ∷ 60
      ∷ 0
      ∷ 0
      ∷ 0
      ∷ 1
      ∷ 0
      ∷ 0
      ∷ 0
      ∷ 88
      ∷ 27
      ∷ 0
      ∷ 0
      ∷ replicate 68 0
    ++ 1 ∷ replicate 55 0

pub inode_block : get_starting_block_inode 8 ≡ 15
unfolding get_starting_block_inode
inode_block = refl

inode_inside : get_starting_block_inode 8 < num_blocks
inode_inside = omega (arith, inode_block)

own_number : uid inode ≡ 8
unfolding get_field from_bytes
own_number = refl

abbrev with_inode : RamFile
with_inode = after_destroy image_disk image-IsDisk stack behind big blank inode

-- The entry as it is stored, with some other bytes as its padding.
abbrev pub record_of : Bytes
record_of = write_char_bytes entry (replicate 60 9)

-- Block 7000 with the record at its front.
abbrev dir_data : Bytes
dir_data = directory_bytes (record_of ∷ []) ++ replicate 964 0

abbrev pub with_data : RamFile
with_data = both_halves image_disk image-IsDisk with_inode 7000 dir_data

long_data : 1024 ≤ length dir_data
unfolding write_char_bytes overwrite
long_data = omega arith

front_of_data : take 60 (take 1024 dir_data) ≡ directory_bytes (record_of ∷ [])
unfolding write_char_bytes overwrite
front_of_data = refl

pub with_data-IsReady : image-IsDisk.IsReady with_data
with_data-IsReady =
    both_halves-IsReady image_disk image-IsDisk 7000 dir_data with_inode (omega arith) long_data (
      after_destroy-IsReady image_disk image-IsDisk stack behind big blank 8 inode own_number
        inode_inside refl blank-IsReady)

block_of :
    (m : ℕ)
    → block image_disk image-IsDisk with_data m
      ≡ (if 7000 == m then take 1024 dir_data else block image_disk image-IsDisk with_inode m)
block_of m =
    block-both_halves image_disk image-IsDisk 7000 m dir_data with_inode (omega arith) long_data

-- The inode as it is read from that disk.
abbrev pub read_inode : Bytes
read_inode = overwrite (take 144 stack) 0 (take 133 inode)

pub inode_read : inode_of image_disk image-IsDisk stack behind big with_data 8 ≡ read_inode
inode_read =
    inode_of-block image_disk image-IsDisk stack behind big with_inode with_data 8
      (block_of (get_starting_block_inode 8) ∙ rw inode_block)
    ∙ inode_of-after_destroy image_disk image-IsDisk stack behind big blank 8 inode own_number
        inode_inside refl

fields :
    (uid read_inode ≡ 8)
    × ((hard_link_count read_inode == 0) ≡ false)
    × (is_directory_flag read_inode ≡ true)
    × (inode_file_size read_inode ≡ 60)
    × (get_field 4 16 read_inode ≡ 7000)
unfolding get_field from_bytes overwrite
fields = (refl, refl, refl, refl, refl)

allowed : permits 1 read_inode ≡ true
unfolding permits get_field from_bytes overwrite
allowed = refl

pub first_block_read :
    get_field 4 16 (inode_of image_disk image-IsDisk stack behind big with_data 8) ≡ 7000
first_block_read = ap (get_field 4 16) inode_read ∙ fields.4

pub with_data-IsDirectory :
    IsDirectory image_disk image-IsDisk stack behind big with_data 8 (record_of ∷ [])
with_data-IsDirectory = record {
  file = record {
    inside = inode_inside;
    own = ap uid inode_read ∙ fields.0;
    linked = ap (λ i. hard_link_count i == 0) inode_read ∙ fields.1;
  };
  readable = ap (permits 1) inode_read ∙ allowed;
  flag = ap is_directory_flag inode_read ∙ fields.2;
  some_entries = omega arith;
  one_block = omega arith;
  size = ap inode_file_size inode_read ∙ fields.3;
  on_disk = omega (arith, first_block_read);
  apart = rw (first_block_read, inode_block) refl;
  content =
      ap (λ b. take 60 (block image_disk image-IsDisk with_data b)) first_block_read
      ∙ ap (take 60) (block_of 7000)
      ∙ front_of_data;
}

pub record_listed : AreRecordsOf (record_of ∷ []) listing
unfolding c_string get_field from_bytes write_char_bytes overwrite
record_listed = ((refl, refl, refl), tt)

abbrev pub mounted : FileSystem RamFile
mounted = record { mp = []; created_file_descriptors = 0; disk = with_data }

get_file_info-first_named_example :
    (answer : ℕ × Bytes) × (fs' : FileSystem RamFile) × (get_file_info image_disk stack behind 5 0 8
        (b'c' ∷ [])
        (replicate 60 5)
        mounted
      ≡ done answer fs')
    × Answers (b'c' ∷ []) (replicate 60 5) (some (9, 3, true)) answer
    × ((j : ℕ)
        → FileSystem.get_file_info j fs'
          ≡ (if 0 == j then none else FileSystem.get_file_info j mounted))
    × image-IsDisk.IsReady fs'.disk
    × ((m : ℕ)
        → (get_starting_block_inode 8 == m) ≡ false
        → block image_disk image-IsDisk fs'.disk m ≡ block image_disk image-IsDisk with_data m)
unfolding c_string get_field from_bytes
get_file_info-first_named_example =
    get_file_info-first_named image_disk image-IsDisk stack behind big mounted 5 0 8
      (record_of ∷ []) with_data-IsReady with_data-IsDirectory (omega arith) (b'c' ∷ []) (b'c' ∷ [])
      listing (replicate 60 5) refl record_listed refl

abbrev open_directory : MyFile
open_directory = record {
  inode_number = 8;
  position = 10;
  file_size = 60;
  permissions = 0;
  is_directory = true;
}

abbrev reading : FileSystem RamFile
reading = record { mp = (3, open_directory) ∷ []; created_file_descriptors = 5; disk = with_data }

open_at_three : FileSystem.get_file_info 3 reading ≡ some open_directory
unfolding FileSystem.get_file_info
open_at_three = refl

my_file_system_read_example :
    (s' : RamFile) × (my_file_system_read image_disk stack behind 5 3 (replicate 50 0) 40 reading
      ≡ done
          (
            0,
            overwrite (replicate 50 0) 0 (
                slice 10 40 (
                  block image_disk image-IsDisk with_data (
                    get_field 4 16
                      (inode_of image_disk image-IsDisk stack behind big with_data 8)))),
          )
          (record reading { mp = (3, record open_directory { position = 50 }) ∷ []; disk = s' }))
    × image-IsDisk.IsReady s'
    × ((m : ℕ)
        → (get_starting_block_inode 8 == m) ≡ false
        → block image_disk image-IsDisk s' m ≡ block image_disk image-IsDisk with_data m)
    × ((w o : ℕ)
        → o + w ≤ 64
        → get_field w o (inode_of image_disk image-IsDisk stack behind big s' 8)
          ≡ get_field w o (inode_of image_disk image-IsDisk stack behind big with_data 8))
my_file_system_read_example =
    my_file_system_read_lem image_disk image-IsDisk stack behind big reading with_data-IsReady 3 40
      5 open_directory (replicate 50 0) open_at_three with_data-IsDirectory.file refl (omega arith)
      (omega arith) (omega arith) (omega (arith, first_block_read)) (omega arith)

abbrev shell : ShellManager RamFile
shell = record {
  files = mounted;
  curr_directory_name = replicate 50 0;
  curr_directory_inode_number = 8;
}

change_directory_lem_example :
    (sh' : ShellManager RamFile) × (change_directory image_disk stack behind 5 0 (b'c' ∷ []) shell
      ≡ done 0 sh')
    × (sh'.curr_directory_inode_number ≡ 9)
    × ((length sh'.curr_directory_name ≡ 50)
        × (c_string sh'.curr_directory_name ≡ some (b'c' ∷ [])))
    × ((j : ℕ)
        → FileSystem.get_file_info j sh'.files
          ≡ (if 0 == j then none else FileSystem.get_file_info j mounted))
    × image-IsDisk.IsReady sh'.files.disk
    × ((m : ℕ)
        → (get_starting_block_inode 8 == m) ≡ false
        → block image_disk image-IsDisk sh'.files.disk m
          ≡ block image_disk image-IsDisk with_data m)
unfolding c_string get_field from_bytes
change_directory_lem_example =
    change_directory_lem image_disk image-IsDisk stack behind big 5 0 shell (b'c' ∷ []) (refl, tt)
      refl refl (record_of ∷ []) listing with_data-IsReady with_data-IsDirectory record_listed
      (omega arith)
