-- ===== src/FileSystem/Files.antt =====
-- ex2.cpp: the constructor, `create_file`, `delete_file`, `rename_file` and `increment_hard_link_count`. Each local
-- inode and descriptor is written back by its destructor, in the reverse order of the declarations.
use mathlib.Core.Option.{map}
use ex2_file_system.Memory.{Bytes, overwrite, put_field}
use ex2_file_system.Disk.Store.{SectorStore}
use ex2_file_system.BlockGroup.Address.{num_groups, num_inodes_per_group}
use ex2_file_system.BlockGroup.Manager.{
  Disk, read_inode_info, write_inode_info, destroy_inode, destroy_descriptor, hard_link_count,
  inode_bytes, read_block_descriptor, find_first_empty_inode, descriptor_bytes, clear_blocks,
  free_inodes_count, read_in,
}
use ex2_file_system.Effect.{pure, lift, ◌>>=◌, ◌>>◌}
use ex2_file_system.Base.{
  ℕ, zero, suc, ◌+◌, ◌-◌, ◌/◌, ◌%◌, ◌^◌, ◌==◌, Bool, if◌then◌else◌, minus_one, int_mod, to_u64,
  take, leb, length, Option, none, some, [], ◌∷◌, true,
}

-- `memcpy(inode->file_name, file_name, file_name_size)`: the field starts at byte 89, and `none` is
-- a name that runs out of the object.
abbrev pub set_file_name : Bytes → Bytes → Option Bytes
set_file_name file_name inode =
    if leb (89 + length file_name) inode_bytes then some (overwrite inode 89 file_name) else none

unfoldable pub set_vacant_inode : ℕ → Bytes → ℕ → Bool → Bytes → Option Bytes
set_vacant_inode now file_name file_permissions is_directory inode =
    let linked = put_field 4 12 ((hard_link_count inode + 1) % int_mod) inode in
    let empty = put_field 4 8 0 linked in
    let created = put_field 8 56 now empty in
    let accessed = put_field 8 64 now created in
    map (put_field 1 88 (if is_directory then 1 else 0))
      (set_file_name file_name (put_field 2 0 (file_permissions % 2 ^ 16) accessed))

module _ (d : SectorStore) (stack behind : Bytes) where
  -- The loop of `create_file`: rounds left, the number found so far, the group, the descriptor.
  unfoldable pub search_groups : ℕ → ℕ → Bytes → Disk d stack behind (ℕ × Bytes)
  search_groups zero curr_block_number block_descriptor = pure (minus_one, block_descriptor)
  search_groups (suc k) curr_block_number block_descriptor = do
    filled ← read_block_descriptor d stack behind curr_block_number block_descriptor
    vacant_inode_number ← find_first_empty_inode d stack behind curr_block_number filled
    if vacant_inode_number == minus_one
        then search_groups k (curr_block_number + 1) filled
        else pure (vacant_inode_number, filled)

  unfoldable pub create_file : ℕ → Bytes → ℕ → Bool → Disk d stack behind ℕ
  create_file now file_name file_permissions is_directory = do
    (vacant_inode_number, block_descriptor) ←
        search_groups num_groups 0 (take descriptor_bytes stack)
    if vacant_inode_number == minus_one
        then (destroy_descriptor d stack behind block_descriptor >> pure minus_one)
        else do
          inode ← read_inode_info d stack behind vacant_inode_number (take inode_bytes stack)
          vacant_inode ← lift (set_vacant_inode now file_name file_permissions is_directory inode)
          destroy_inode d stack behind vacant_inode
          destroy_descriptor d stack behind block_descriptor
          pure vacant_inode_number

  unfoldable pub delete_file : ℕ → Disk d stack behind ℕ
  delete_file inode_number = do
    inode ← read_inode_info d stack behind inode_number (take inode_bytes stack)
    let links = (hard_link_count inode + (int_mod - 1)) % int_mod
    let inode' = put_field 4 12 links inode
    if hard_link_count inode == 0
        then (destroy_inode d stack behind inode >> pure minus_one)
        else if links == 0
        then (do
          let group_number = to_u64 inode_number / num_inodes_per_group % int_mod
          block_descriptor ←
              read_block_descriptor d stack behind group_number (take descriptor_bytes stack)
          let fewer = (free_inodes_count block_descriptor + (2 ^ 16 - 1)) % 2 ^ 16
          destroy_descriptor d stack behind (put_field 2 14 fewer block_descriptor)
          destroy_inode d stack behind (clear_blocks 9 16 inode')
          pure 1)
        else (destroy_inode d stack behind inode' >> pure 1)

  -- The inode is never read: it is what the stack holds.
  unfoldable pub rename_file : ℕ → Bytes → Disk d stack behind ℕ
  rename_file inode_number file_name = do
    let inode = take inode_bytes stack
    write_inode_info d stack behind inode_number inode
    if hard_link_count inode == 0
        then (destroy_inode d stack behind inode >> pure minus_one)
        else do
          renamed ← lift (set_file_name file_name inode)
          destroy_inode d stack behind renamed
          pure 1

  unfoldable pub increment_hard_link_count : ℕ → Disk d stack behind ℕ
  increment_hard_link_count inode_number = do
    inode ← read_inode_info d stack behind inode_number (take inode_bytes stack)
    let inode' = put_field 4 12 ((hard_link_count inode + 1) % int_mod) inode
    status ← write_inode_info d stack behind inode_number inode'
    destroy_inode d stack behind inode'
    pure (if status == minus_one then minus_one else 1)

  -- The constructor, on the disk: `read_super_block` copies from block 1 into a member that nothing
  -- reads, and the root directory is created. The name is the two bytes of the literal.
  unfoldable pub construct : ℕ → Disk d stack behind ℕ
  construct now = do block ← read_in d stack behind 1; create_file now (b'/' ∷ 0 ∷ []) 3 true
