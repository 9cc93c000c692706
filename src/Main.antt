-- ===== src/Main.antt =====
-- main.cpp: the image is formatted, the file system and the shell are constructed, and three nested
-- directories are created and entered. What is printed is left out.
use ex2_file_system.Memory.{Bytes, put_field}
use ex2_file_system.Disk.Store.{SectorStore}
use ex2_file_system.BlockGroup.Address.{num_groups, num_inodes_per_group, data_blocks_per_group}
use ex2_file_system.BlockGroup.Manager.{
  Disk, write_out, initialize_inodes, initialize_block_group_bitmaps,
  initialize_block_group_descriptors,
}
use ex2_file_system.FileSystem.Files.{construct}
use ex2_file_system.Shell.Commands.{ShellManager, Shell, create_file, change_directory}
use ex2_file_system.Effect.{Outcome, done, exits, undefined, pure, and_then, ◌>>=◌, ◌>>◌}
use ex2_file_system.Base.{ℕ, ◌+◌, ◌*◌, ◌%◌, ◌++◌, true, [], ◌∷◌, replicate, take, int_mod}

-- The global `super_block`, 52 bytes that start as zeros, after `initialize_super_block`.
unfoldable pub initialize_super_block : ℕ → Bytes
initialize_super_block now =
    let counted =
      put_field 4 4 (num_groups * (num_inodes_per_group + data_blocks_per_group))
        (replicate 52 0) in
    let inodes = put_field 4 0 (num_groups * num_inodes_per_group) counted in
    let free = put_field 4 12 (num_groups * data_blocks_per_group) inodes in
    let grouped = put_field 4 32 num_inodes_per_group free in put_field 4 36 (now % int_mod) grouped

-- The constants of `main`.
abbrev mohanned : Bytes
mohanned = b'm' ∷ b'o' ∷ b'h' ∷ b'a' ∷ b'n' ∷ b'n' ∷ b'e' ∷ b'd' ∷ []

abbrev ahmed : Bytes
ahmed = b'a' ∷ b'h' ∷ b'm' ∷ b'e' ∷ b'd' ∷ []

abbrev fadwa : Bytes
fadwa = b'f' ∷ b'a' ∷ b'd' ∷ b'w' ∷ b'a' ∷ []

abbrev file_permissions : Bytes
file_permissions = b'R' ∷ b'W' ∷ []

-- `globals` is the memory behind `super_block`, which is written to the disk with it.
module _ (d : SectorStore) (stack behind globals : Bytes) (now junk : ℕ) where
  unfoldable pub initialize_helper : Disk d stack behind ℕ
  initialize_helper = write_out d stack behind 1 (initialize_super_block now ++ globals)

  unfoldable pub format : Disk d stack behind ℕ
  format = do
    initialize_block_group_bitmaps d stack behind
    initialize_block_group_descriptors d stack behind
    initialize_inodes d stack behind now
    initialize_helper

  -- One round of `main`: a directory is created and entered. `buffer` is the local array of
  -- `create_file` in that round.
  abbrev make_and_enter : Bytes → Bytes → Shell d stack behind now junk ℕ
  make_and_enter buffer file_name = do
    create_file d stack behind now junk buffer file_name file_permissions true
    change_directory d stack behind now junk file_name

  -- The shell as it is constructed over a file system with an empty table.
  abbrev pub start : Outcome d.State ℕ → Outcome (ShellManager d.State) ℕ
  start (done n s) = done n (record {
    files = record { mp = []; created_file_descriptors = 0; disk = s };
    curr_directory_name = take 50 stack;
    curr_directory_inode_number = 6;
  })
  start (exits status s) = exits status (record {
    files = record { mp = []; created_file_descriptors = 0; disk = s };
    curr_directory_name = take 50 stack;
    curr_directory_inode_number = 6;
  })
  start undefined = undefined

  unfoldable pub main : Bytes → Bytes → Bytes → d.State → Outcome (ShellManager d.State) ℕ
  main first second third s =
      and_then (start ((format >>= λ _. construct d stack behind now) s)) (λ root.
        make_and_enter first mohanned
        >> (make_and_enter second ahmed >> (make_and_enter third fadwa >> pure 0)))
