-- ===== src/Shell/Directory.antt =====
-- shell_manager.cpp: `read_directory_info`, `get_file_info` and `traverse_hierachy`, on the open files
-- of `EX2FILESYSTEM`. The heap objects that hold the entries are freed by `get_file_info`.
pub mod Search
pub mod OnDisk
use mathlib.Core.Option.{get_or}
use ex2_file_system.Memory.{Bytes, slice}
use ex2_file_system.Disk.Store.{SectorStore}
use ex2_file_system.FileSystem
use ex2_file_system.FileSystem.{MyFile, FileSystem, Files, my_open, my_close, my_file_system_seek}
use ex2_file_system.FileSystem.Blocks.{my_file_system_read}
use ex2_file_system.Shell.Entry.{
  entry_bytes, entry_inode_number, entry_is_directory, copy_char_bytes, copy_directory_info,
}
use ex2_file_system.Shell.Names.{c_string}
use ex2_file_system.Effect.{Run, Outcome, done, undefined, pure, lift, ◌>>=◌, ◌>>◌}
use ex2_file_system.Base.{
  ℕ, zero, suc, ◌+◌, ◌*◌, ◌/◌, ◌%◌, ◌==◌, ◌&&◌, ◌||◌, not, drop, Bool, true, false, if◌then◌else◌,
  Option, none, some, ◌++◌, List, [], ◌∷◌, length, take, replicate, minus_one, int_mod, to_u64,
  is_negative, lt_int,
}

-- `strcmp(name, entry->file_name) == 0`: both strings end at their first NUL.
abbrev pub same_bytes : Bytes → Bytes → Bool
same_bytes [] [] = true
same_bytes [] (b ∷ ys) = false
same_bytes (a ∷ xs) [] = false
same_bytes (a ∷ xs) (b ∷ ys) = a == b && same_bytes xs ys

-- The loop of `get_file_info` over the entries: the entry with the name, if there is one. `none` is a
-- comparison that runs out of an entry.
unfoldable pub find_entry : Bytes → List Bytes → Option (Option Bytes)
find_entry name [] = some none
find_entry name (d ∷ v) =
    let rest = find_entry name v in
    elim (c_string d) [ none ↦ none | some s ↦ if same_bytes name s then some (some d) else rest ]

-- The loop of `read_directory_info`: rounds left, the buffer from the next entry on, and `v`. `junk`
-- is a fresh entry.
unfoldable pub read_entries : Bytes → ℕ → Bytes → List Bytes → List Bytes
read_entries junk zero buffer v = v
read_entries junk (suc total_files) buffer v =
    read_entries junk total_files (drop entry_bytes buffer) (v ++ copy_char_bytes buffer junk ∷ [])

module _ (d : SectorStore) (stack behind : Bytes) where
  -- `MyFile *my_file = get_file_info(file_descriptor)`, which is then dereferenced.
  abbrev pub file_of : ℕ → Files d stack behind MyFile
  file_of file_descriptor fs = lift (FileSystem.get_file_info file_descriptor fs) fs

  -- The status and `v`. `junk` is what `my_open` leaves in `permissions`, `now` the clock. The buffer
  -- of `file_size` bytes starts as whatever the stack holds, here as zeros: a read that succeeds has
  -- overwritten it.
  unfoldable pub read_directory_info : ℕ → ℕ → ℕ → Files d stack behind (ℕ × List Bytes)
  read_directory_info now junk inode_number = do
    file_descriptor ← my_open d stack behind junk inode_number 1
    my_file ← file_of file_descriptor
    if my_file.file_size == 0
        then (my_close file_descriptor >> pure (0, []))
        else if is_negative my_file.file_size
        then lift none
        else do
          status ← my_file_system_seek file_descriptor 0
          if status == minus_one || not my_file.is_directory then pure (minus_one, []) else do
            (status', buffer) ←
                my_file_system_read d stack behind now file_descriptor
                  (replicate my_file.file_size 0) my_file.file_size
            closed ← my_close file_descriptor
            if status' == minus_one
                then pure (minus_one, [])
                else pure (
                  1,
                  read_entries (take entry_bytes stack) (my_file.file_size / entry_bytes) buffer [],
                )

  -- The status and the caller's `dir_struct`.
  abbrev pub found_info : Bytes → Option Bytes → ℕ × Bytes
  found_info dir_struct none = (minus_one, dir_struct)
  found_info dir_struct (some entry) =
      (0, copy_directory_info (take entry_bytes stack) entry dir_struct)

  unfoldable pub get_file_info : ℕ → ℕ → ℕ → Bytes → Bytes → Files d stack behind (ℕ × Bytes)
  get_file_info now junk dir_inode_number file_name dir_struct = do
    (status, v) ← read_directory_info now junk dir_inode_number
    name ← lift (c_string (file_name ++ 0 ∷ []))
    found ← lift (find_entry name v)
    pure (found_info dir_struct found)

  -- The loop over the names of a path, which `create_directory` and the links repeat in line: `none`
  -- is the early return, a number the inode where the path ends. The second part is `dir_struct`.
  unfoldable pub walk_loop :
      ℕ → ℕ → List Bytes → ℕ → Bytes → Files d stack behind (Option ℕ × Bytes)
  walk_loop now junk [] curr_inode_number dir_struct = pure (some curr_inode_number, dir_struct)
  walk_loop now junk (name ∷ names) curr_inode_number dir_struct = do
    (status, found) ← get_file_info now junk curr_inode_number name dir_struct
    if status == minus_one || not (entry_is_directory found)
        then pure (none, found)
        else walk_loop now junk names (entry_inode_number found) found

  -- From the inode `start`, over the names below `end`.
  unfoldable pub traverse_hierachy :
      ℕ → ℕ → ℕ → List Bytes → Bytes → ℕ → Files d stack behind (ℕ × Bytes)
  traverse_hierachy now junk start splitted_file_name dir_struct end = do
    (reached, found) ← walk_loop now junk (take end splitted_file_name) start dir_struct
    pure (get_or reached minus_one, found)
