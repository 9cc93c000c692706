-- ===== src/FileSystem/Tests.antt =====
-- A table with one open file, and a file whose inode says that every byte is 1.
use ex2_file_system.Memory.{Bytes, get_field, from_bytes}
use ex2_file_system.Disk.Tests.{image_disk, image-IsDisk, blank, blank-IsReady, RamFile}
use ex2_file_system.BlockGroup.Manager.{write_inode_info, read_inode_info, hard_link_count}
use ex2_file_system.BlockGroup.Manager.Inode.{write-read_inode}
use ex2_file_system.FileSystem.{
  MyFile, FileSystem, permits, inode_mode, get_file_info, my_close, my_file_system_seek, my_open,
}
use ex2_file_system.FileSystem.Permissions.{allows, permits-allows}
use ex2_file_system.FileSystem.Table.{
  IsTable, my_close_lem, seek_lem, open_refused, open_lem, opened, assign-IsTable,
}
use ex2_file_system.Effect.{done, exits}
use ex2_file_system.Base.{
  ℕ, ◌+◌, ◌≡◌, ◌≤◌, ◌==◌, ◌||◌, not, if◌then◌else◌, none, some, [], ◌∷◌, true, false, replicate,
  length, length-replicate, arith, refl, minus_one,
}

abbrev stack : Bytes
stack = replicate 2048 0

abbrev behind : Bytes
behind = replicate 1000 0

big : length stack ≡ 2048
big = length-replicate {A = ℕ} 2048 0

abbrev notes : MyFile
notes = record {
  inode_number = 8;
  position = 10;
  file_size = 500;
  permissions = 0;
  is_directory = false;
}

-- Descriptor 3 is open and five were handed out.
abbrev working : FileSystem RamFile
working = record { mp = (3, notes) ∷ []; created_file_descriptors = 5; disk = blank }

empty_table : FileSystem RamFile
empty_table = record { mp = []; created_file_descriptors = 0; disk = blank }

empty-IsTable : IsTable empty_table
unfolding get_file_info empty_table
empty-IsTable = record {
  handed_out = λ fd file h. absurd (ground arith);
  inside = λ fd file h. absurd (ground arith);
}

working-IsTable : IsTable working
unfolding empty_table
working-IsTable =
    assign-IsTable empty_table empty-IsTable 3 notes 5 blank (omega arith) (omega arith) refl

my_close_example :
    (fs' : FileSystem RamFile) × (my_close 3 working
      ≡ done (elim (get_file_info 3 working) [ none ↦ minus_one | some file ↦ 0 ]) fs')
    × ((j : ℕ) → get_file_info j fs' ≡ (if 3 == j then none else get_file_info j working))
    × (fs'.disk ≡ working.disk)
    × IsTable fs'
my_close_example = my_close_lem working working-IsTable 3

seek_example :
    (fs' : FileSystem RamFile) × (my_file_system_seek 3 200 working ≡ done 0 fs')
    × ((j : ℕ)
        → get_file_info j fs'
          ≡ (if 3 == j then some (record notes { position = 200 }) else get_file_info j working))
    × (fs'.disk ≡ working.disk)
    × IsTable fs'
seek_example = seek_lem working working-IsTable 3 200 notes three refl
  where
    three : get_file_info 3 working ≡ some notes
    three = unfold get_file_info in refl

abbrev ones : Bytes
ones = replicate 144 1

abbrev zeros : Bytes
zeros = replicate 144 0

fields_of_ones :
    (get_field 4 12 ones ≡ 16843009) × (get_field 2 0 ones ≡ 257) × (get_field 4 8 ones ≡ 16843009)
unfolding get_field from_bytes
fields_of_ones = (refl, refl, refl)

-- The disk with that inode written, and the inode as it is read.
abbrev Stored : Type 0
Stored =
    (s' s'' : RamFile) × (result : Bytes) × (write_inode_info image_disk stack behind 8 ones blank
      ≡ done 0 s')
    × (read_inode_info image_disk stack behind 8 zeros s' ≡ done result s'')
    × ((w o : ℕ) → o + w ≤ 133 → get_field w o result ≡ get_field w o ones)
    × ((w o : ℕ) → 133 ≤ o → get_field w o result ≡ get_field w o zeros)

stored : Stored
stored =
    write-read_inode image_disk image-IsDisk stack behind big blank 8 ones zeros blank-IsReady
      (omega arith) (length-replicate {A = ℕ} 144 1) (length-replicate {A = ℕ} 144 0)

abbrev inode : Bytes
inode = stored.2

abbrev mounted : FileSystem RamFile
mounted = record { mp = (3, notes) ∷ []; created_file_descriptors = 5; disk = stored.0 }

mounted-IsTable : IsTable mounted
unfolding empty_table
mounted-IsTable =
    assign-IsTable empty_table empty-IsTable 3 notes 5 stored.0 (omega arith) (omega arith) refl

linked : (hard_link_count inode == 0) ≡ false
linked = ground (arith, stored.5 4 12 (omega arith), fields_of_ones.0)

readable : permits 1 inode ≡ true
unfolding permits
readable = rw (stored.5 2 0 (omega arith), fields_of_ones.1)

-- Mode 257 has the read bit and not the write bit.
refused : (hard_link_count inode == 0 || not (allows 3 (inode_mode inode))) ≡ true
refused = rw (linked, stored.5 2 0 (omega arith), fields_of_ones.1)

permits-allows_example : permits 3 inode ≡ allows 3 (inode_mode inode)
permits-allows_example = permits-allows 3 inode (omega arith)

open_refused_example :
    my_open image_disk stack behind 0 8 3 mounted
    ≡ exits
        (if hard_link_count inode == 0 then minus_one else 0)
        (record mounted { disk = stored.1 })
open_refused_example =
    open_refused image_disk stack behind mounted 0 8 3 inode stored.1 stored.4 (omega arith) refused

open_example :
    (fs' : FileSystem RamFile) × (my_open image_disk stack behind 0 8 1 mounted ≡ done 5 fs')
    × (get_file_info 5 mounted ≡ none)
    × ((j : ℕ)
        → get_file_info j fs' ≡ (
            if 5 == j
            then some (opened image_disk stack behind mounted 0 8 1 inode stored.1 stored.4)
            else get_file_info j mounted))
    × IsTable fs'
open_example =
    open_lem image_disk stack behind mounted 0 8 1 inode stored.1 stored.4 mounted-IsTable linked
      readable (omega arith) (omega (arith, stored.5 4 8 (omega arith), fields_of_ones.2))

first_block : get_field 4 16 zeros ≡ 0
unfolding get_field from_bytes
first_block = refl
