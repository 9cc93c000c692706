-- ===== src/Shell/Commands.antt =====
-- shell_manager.cpp: the commands of `ShellManager`, with its working directory. `now` is the clock
-- and `junk` what `malloc` leaves in the `permissions` of an open file; the `buffer` of a command that
-- appends an entry is what its local array of 60 bytes holds before.
pub mod Appending
pub mod Listed
pub mod Entering
use mathlib.Core.Option.{map}
use ex2_file_system.Memory.{Bytes, overwrite, put_field, slice}
use ex2_file_system.Disk.Store.{SectorStore}
use ex2_file_system.FileSystem.{FileSystem, Files, my_open, my_close, on_disk}
use ex2_file_system.FileSystem.Files
use ex2_file_system.FileSystem.Blocks.{my_file_system_write}
use ex2_file_system.Shell.Entry.{
  entry_bytes, entry_name, entry_inode_number, entry_is_directory, write_char_bytes, copy_entry,
  set_name,
}
use ex2_file_system.Shell.Names.{split_file_name, extract_permissions}
use ex2_file_system.Shell.Directory.{get_file_info, walk_loop, traverse_hierachy}
use ex2_file_system.Effect.{Run, Outcome, done, exits, undefined, pure, lift, ◌>>=◌, ◌>>◌}
use ex2_file_system.Base.{
  ℕ, ◌+◌, ◌-◌, ◌%◌, ◌^◌, ◌==◌, ◌&&◌, ◌||◌, not, Bool, true, false, if◌then◌else◌, Option, none,
  some, ◌++◌, List, [], ◌∷◌, length, take, minus_one,
}

pub record ShellManager (S : Type 0) : Type 0 where
  pub files : FileSystem S
  pub curr_directory_name : Bytes
  pub curr_directory_inode_number : ℕ

-- `back()`: `none` on an empty vector.
abbrev pub back : List Bytes → Option Bytes
back [] = none
back (n ∷ []) = some n
back (n ∷ m ∷ ns) = back (m ∷ ns)

-- The names before the last one.
abbrev pub before_last : List Bytes → List Bytes
before_last v = take (length v - 1) v

-- The assignments of `set_vacant_dir_struct`: the number, the name, the permissions and the flag.
unfoldable pub set_vacant_dir_struct : ℕ → Bytes → ℕ → Bool → Bytes → Option Bytes
set_vacant_dir_struct inode_number file_name mask_permissions is_directory entry =
    map
      (λ named.
        put_field 1 58 (if is_directory then 1 else 0)
          (put_field 2 56 (mask_permissions % 2 ^ 16) named))
      (set_name file_name (put_field 4 52 inode_number entry))

module _ {S A : Type 0} where
  -- A command that leaves the working directory alone.
  abbrev pub with_files : ShellManager S → Outcome (FileSystem S) A → Outcome (ShellManager S) A
  with_files sh (done a fs) = done a (record sh { files = fs })
  with_files sh (exits status fs) = exits status (record sh { files = fs })
  with_files sh undefined = undefined

  abbrev pub on_files : Run (FileSystem S) A → Run (ShellManager S) A
  on_files m sh = with_files sh (m sh.files)

module _ (d : SectorStore) (stack behind : Bytes) (now junk : ℕ) where
  abbrev pub Shell : Type 0 → Type 0
  Shell = Run (ShellManager d.State)

  -- The inode number, or -1, and `dir_struct`.
  abbrev pub traverse : ℕ → List Bytes → ℕ → Files d stack behind (ℕ × Bytes)
  traverse start v end =
      traverse_hierachy d stack behind now junk start v (take entry_bytes stack) end

  -- The end of `change_directory`.
  abbrev pub enter : ℕ × Bytes → Shell ℕ
  enter (ending_inode_number, dir_struct) sh =
      if ending_inode_number == minus_one
      then done minus_one sh
      else done 0 (record sh {
        curr_directory_name = overwrite sh.curr_directory_name 0 (entry_name dir_struct);
        curr_directory_inode_number = ending_inode_number;
      })

  unfoldable pub change_directory : Bytes → Shell ℕ
  change_directory file_name sh =
      let v = split_file_name file_name [] in
      (on_files (traverse sh.curr_directory_inode_number v (length v)) >>= enter) sh

  -- An entry is appended to the directory: open, write, close; the status of the write. `buffer` is
  -- what the command's local `char buffer[60]` holds before.
  abbrev pub append_entry : Bytes → ℕ → ℕ → Bytes → Files d stack behind ℕ
  append_entry buffer directory mask entry = do
    file_descriptor ← my_open d stack behind junk directory mask
    status ←
        my_file_system_write d stack behind now file_descriptor (write_char_bytes entry buffer)
          entry_bytes
    my_close file_descriptor
    pure status

  unfoldable pub create_file : Bytes → Bytes → Bytes → Bool → Shell ℕ
  create_file buffer file_name permissions is_directory sh =
      on_files
        (do
          let v = split_file_name file_name []
          (curr_inode_number, dir_struct) ← traverse sh.curr_directory_inode_number v (length v - 1)
          let permission = extract_permissions permissions
          if curr_inode_number == minus_one || permission == minus_one then pure minus_one else do
            name ← lift (back v)
            created ← on_disk (Files.create_file d stack behind now name permission is_directory)
            file_descriptor ← my_open d stack behind junk curr_inode_number 2
            entry ←
                lift (set_vacant_dir_struct created file_name permission is_directory dir_struct)
            my_file_system_write d stack behind now file_descriptor (write_char_bytes entry buffer)
                entry_bytes
            my_close file_descriptor
            pure 0)
        sh

  unfoldable pub remove_file : Bytes → Shell ℕ
  remove_file file_name sh =
      on_files
        (do
          let v = split_file_name file_name []
          to_be_removed_file_name ← lift (back v)
          (dir_inode_number, dir_struct) ← traverse sh.curr_directory_inode_number v (length v - 1)
          if dir_inode_number == minus_one then pure minus_one else do
            (status, found) ←
                get_file_info d stack behind now junk dir_inode_number to_be_removed_file_name
                  dir_struct
            if status == minus_one
                then pure minus_one
                else on_disk (Files.delete_file d stack behind (entry_inode_number found)))
        sh

  -- Only the write's status is looked at; where it is -1 the descriptor stays open.
  unfoldable pub create_directory : Bytes → Bytes → Shell ℕ
  create_directory buffer file_name sh =
      on_files
        (do
          let v = split_file_name file_name []
          name ← lift (back v)
          (reached, dir_struct) ←
              walk_loop d stack behind now junk (before_last v) sh.curr_directory_inode_number
                (take entry_bytes stack)
          elim reached [
            | none ↦ pure minus_one
            | some curr_inode_number ↦ do
              created ← on_disk (Files.create_file d stack behind now (name ++ 0 ∷ []) 3 true)
              file_descriptor ← my_open d stack behind junk curr_inode_number 3
              entry ← lift (set_vacant_dir_struct created file_name 3 true dir_struct)
              status ←
                  my_file_system_write d stack behind now file_descriptor
                    (write_char_bytes entry buffer) entry_bytes
              if status == minus_one then pure minus_one else (my_close file_descriptor >> pure 0)
          ])
        sh

  -- The first loop has the condition `splitted_file_name.size() - 1, i++`, whose value is 0 at once:
  -- its body never runs. The new entry is never written.
  unfoldable pub create_hard_link : Bytes → Bytes → Shell ℕ
  create_hard_link file_name corresponding_file_name sh =
      on_files
        (do
          let v = split_file_name file_name []
          extracted_file_name ← lift (back v)
          new_dir_struct ← lift (set_name extracted_file_name (take entry_bytes stack))
          let both = split_file_name corresponding_file_name v
          (reached, dir_struct) ←
              walk_loop d stack behind now junk (before_last both) sh.curr_directory_inode_number
                (take entry_bytes stack)
          elim reached [
            | none ↦ pure minus_one
            | some curr_inode_number ↦ do
              corresponding ← lift (back both)
              (status, found) ←
                  get_file_info d stack behind now junk curr_inode_number corresponding dir_struct
              status' ←
                  on_disk
                    (Files.increment_hard_link_count d stack behind (entry_inode_number found))
              pure (if status' == minus_one then minus_one else 1)
          ])
        sh

  -- The second loop of `create_soft_link`: it looks each name up in the same directory.
  unfoldable pub soft_loop : ℕ → List Bytes → Bytes → Files d stack behind (Bool × Bytes)
  soft_loop curr_inode_number [] dir_struct = pure (true, dir_struct)
  soft_loop curr_inode_number (name ∷ names) dir_struct = do
    (status, found) ← get_file_info d stack behind now junk curr_inode_number name dir_struct
    if status == minus_one || not (length names == 0) && not (entry_is_directory found)
        then pure (false, found)
        else soft_loop curr_inode_number names found

  unfoldable pub create_soft_link : Bytes → Bytes → Bytes → Shell ℕ
  create_soft_link buffer file_name corresponding_file_name sh =
      on_files
        (do
          let v = split_file_name file_name []
          new_file_name ← lift (back v)
          (reached, dir_struct) ←
              walk_loop d stack behind now junk (before_last v) sh.curr_directory_inode_number
                (take entry_bytes stack)
          elim reached [
            | none ↦ pure minus_one
            | some curr_inode_number ↦ do
              (status, found) ←
                  get_file_info d stack behind now junk curr_inode_number file_name dir_struct
              if status == 0 then pure minus_one else do
                (complete, target) ←
                    soft_loop curr_inode_number (split_file_name corresponding_file_name v) found
                if not complete then pure minus_one else do
                  new_struct ←
                      lift (set_name new_file_name (copy_entry (take entry_bytes stack) target))
                  append_entry buffer curr_inode_number 2 new_struct
                  pure 0
          ])
        sh
