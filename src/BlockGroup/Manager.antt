-- ===== src/BlockGroup/Manager.antt =====
-- `BlockDescriptorManager` of block_group.cpp over a disk, and the destructors that it relies on:
-- `~BlockGroupINode`, `~BlockGroupDescriptor` and those of the two bit maps write their object to the
-- disk when a local goes out of scope. A struct is its bytes on x86-64; a bit map that a function
-- returns is taken to be built in the caller's variable, so its destructor runs once.
pub mod Inode
pub mod Stored
pub mod Claim
pub mod Allocate
pub mod DataBlock
pub mod Exhausted
pub mod FreshMaps
pub mod Format
pub mod FirstInode
use ex2_file_system.Memory.{Bytes, overwrite, slice, get_field, put_field}
use ex2_file_system.Disk.Store.{SectorStore}
use ex2_file_system.Block.{write_block_disk_helper, retreive_block_disk_helper}
use ex2_file_system.BitMap.{BitMap, fresh, get_least_significant_bit, set_bit}
use ex2_file_system.BlockGroup.Address.{
  num_groups, reserved_offset_groups, num_inodes_per_group, data_blocks_per_group,
  get_starting_block_inode, get_starting_block_inode_bitmap, get_starting_block_bitmap,
  get_starting_block_group_descriptor,
}
use ex2_file_system.BlockGroup.BitMapBlock.{
  GroupBitMap, copy_write_memory_block, write_inode_bitmap, write_block_bitmap,
}
use ex2_file_system.Effect.{Run, Outcome, done, undefined, pure, act, lift, ◌>>=◌, ◌>>◌, and_then}
use ex2_file_system.Base.{
  ℕ, zero, suc, ◌+◌, ◌-◌, ◌*◌, ◌/◌, ◌%◌, ◌^◌, ◌++◌, ◌==◌, if◌then◌else◌, take, int_mod, to_u64,
  minus_one,
}

-- Fields of `BlockGroupDescriptor`, 24 bytes.
abbrev pub descriptor_bytes : ℕ
descriptor_bytes = 24

abbrev pub free_blocks_count : Bytes → ℕ
free_blocks_count = get_field 2 12

abbrev pub free_inodes_count : Bytes → ℕ
free_inodes_count = get_field 2 14

abbrev pub descriptor_block_number : Bytes → ℕ
descriptor_block_number = get_field 4 20

-- Fields of `BlockGroupINode`, 144 bytes with its padding.
abbrev pub inode_bytes : ℕ
inode_bytes = 144

abbrev pub uid : Bytes → ℕ
uid = get_field 2 2

abbrev pub hard_link_count : Bytes → ℕ
hard_link_count = get_field 4 12

-- `BlockGroupINode::copy_helper`: five `memcpy`s, each behind the one before.
unfoldable pub copy_helper : Bytes → Bytes → Bytes
copy_helper dest src =
    overwrite
      (overwrite
        (overwrite (overwrite (overwrite dest 0 (slice 0 6 src)) 6 (slice 6 44 src)) 50
          (slice 50 32 src))
        82 (slice 82 1 src))
      83 (slice 83 50 src)

-- The loop `inode->blocks[i] = 0`, with the rounds that are left.
unfoldable pub clear_blocks : ℕ → ℕ → Bytes → Bytes
clear_blocks zero ptr inode = inode
clear_blocks (suc k) ptr inode = clear_blocks k (ptr + 4) (put_field 4 ptr 0 inode)

-- The assignments in their order; `now` is what the clock says.
unfoldable pub initialize_inode_helper : ℕ → ℕ → Bytes → Bytes
initialize_inode_helper now id inode =
    let linked = put_field 4 12 0 inode in
    let named = put_field 2 2 id linked in
    let cleared = clear_blocks 9 16 named in
    let deleted = put_field 8 80 0 cleared in
    let created = put_field 8 56 now deleted in
    let modified = put_field 8 72 0 created in
    let accessed = put_field 8 64 0 modified in
    let again = put_field 8 80 0 accessed in put_field 4 8 0 (put_field 2 0 3 again)

unfoldable pub initialize_block_group_descriptor_helper : ℕ → Bytes → Bytes
initialize_block_group_descriptor_helper block_number descriptor = put_field 4 20 block_number (
    put_field 2 16 0
      (put_field 2 14 num_inodes_per_group (put_field 2 12 data_blocks_per_group descriptor)))

-- `stack` is what an uninitialised `MemoryBlock::data` holds, and, by its first bytes, any other
-- uninitialised local; `behind` are the 1000 bytes of memory behind a `BlockGroupDescriptor`, which
-- the code copies to the disk with it.
module _ (d : SectorStore) (stack behind : Bytes) where
  abbrev pub Disk : Type 0 → Type 0
  Disk = Run d.State

  -- A call of `write_block_disk_helper` whose status is dropped, and one of
  -- `retreive_block_disk_helper` into a fresh `MemoryBlock`.
  abbrev pub write_out : ℕ → Bytes → Disk ℕ
  write_out block_number bytes = act (write_block_disk_helper d block_number bytes)

  abbrev pub read_in : ℕ → Disk Bytes
  read_in block_number s =
      let (status, bytes, s') = retreive_block_disk_helper d block_number stack s in done bytes s'

  -- `~BlockGroupINode`
  unfoldable pub destroy_inode : Bytes → Disk ℕ
  destroy_inode inode = write_out (get_starting_block_inode (uid inode)) (copy_helper stack inode)

  -- `~BlockGroupINodeBitMap`
  unfoldable pub destroy_inode_bitmap : GroupBitMap → Disk ℕ
  destroy_inode_bitmap g = do
    block ← lift (copy_write_memory_block g stack)
    write_out g.block_number block

  -- `~BlockGroupBlockBitMap`
  unfoldable pub destroy_block_bitmap : GroupBitMap → Disk ℕ
  destroy_block_bitmap g = do
    block ← lift (copy_write_memory_block g stack)
    write_out g.block_number block

  -- `~BlockGroupDescriptor`
  unfoldable pub destroy_descriptor : Bytes → Disk ℕ
  destroy_descriptor descriptor =
      write_out (descriptor_block_number descriptor) (overwrite stack 0 (descriptor ++ behind))

  unfoldable pub read_block_descriptor : ℕ → Bytes → Disk Bytes
  read_block_descriptor group_number descriptor = do
    block ← read_in (get_starting_block_group_descriptor group_number)
    pure (overwrite descriptor 0 (take descriptor_bytes block))

  unfoldable pub write_inode_info : ℕ → Bytes → Disk ℕ
  write_inode_info inode_number inode =
      write_out (get_starting_block_inode inode_number) (copy_helper stack inode)

  -- The inode after the call; the status is 0 whatever the disk says.
  unfoldable pub read_inode_info : ℕ → Bytes → Disk Bytes
  read_inode_info inode_number inode = do
    block ← read_in (get_starting_block_inode inode_number)
    pure (copy_helper inode block)

  -- The two locals are destroyed before the return, the bit map first.
  unfoldable pub find_first_empty_data_block : ℕ → Disk ℕ
  find_first_empty_data_block inode_number = do
    let group_number = to_u64 inode_number / num_inodes_per_group % int_mod
    block_descriptor ← read_block_descriptor group_number (take descriptor_bytes stack)
    if free_blocks_count block_descriptor == 0
        then (destroy_descriptor block_descriptor >> pure minus_one)
        else do
          block ← read_in (get_starting_block_bitmap group_number)
          block_bitmap ← lift (write_block_bitmap block)
          lowest_bit ←
              lift (get_least_significant_bit 7800 0 (data_blocks_per_group - 1) block_bitmap.bits)
          (status, bits) ← lift (set_bit 7800 lowest_bit block_bitmap.bits)
          destroy_block_bitmap (record block_bitmap { bits = bits })
          destroy_descriptor block_descriptor
          pure (
              (to_u64 (get_starting_block_group_descriptor group_number)
                + reserved_offset_groups
                + num_inodes_per_group
                + to_u64 lowest_bit)
              % int_mod)

  -- The descriptor is the caller's.
  unfoldable pub find_first_empty_inode : ℕ → Bytes → Disk ℕ
  find_first_empty_inode block_group_number block_descriptor =
      if free_inodes_count block_descriptor == 0 then pure minus_one else do
        block ← read_in (get_starting_block_inode_bitmap block_group_number)
        bit_map ← lift (write_inode_bitmap block)
        lowest_bit ← lift (get_least_significant_bit 7800 0 (num_inodes_per_group - 1) bit_map.bits)
        (status, bits) ← lift (set_bit 7800 lowest_bit bit_map.bits)
        destroy_inode_bitmap (record bit_map { bits = bits })
        pure (
            (to_u64 (get_starting_block_group_descriptor block_group_number)
              + reserved_offset_groups
              + to_u64 lowest_bit)
            % int_mod)

  -- The loop of `initialize_inodes`: rounds left, inode number, and the `MemoryBlock` of all rounds.
  unfoldable pub initialize_inodes_loop : ℕ → ℕ → ℕ → Bytes → Disk Bytes
  initialize_inodes_loop now zero inode_number block = pure block
  initialize_inodes_loop now (suc k) inode_number block = do
    let inode = initialize_inode_helper now inode_number (take inode_bytes stack)
    let block' = copy_helper block inode
    write_out (get_starting_block_inode inode_number) block'
    destroy_inode inode
    initialize_inodes_loop now k (inode_number + 1) block'

  unfoldable pub initialize_inodes : ℕ → Disk Bytes
  initialize_inodes now = initialize_inodes_loop now (num_inodes_per_group * num_groups) 0 stack

  -- The loop of `initialize_block_group_bitmaps`: rounds left, group, the two maps and the block.
  -- `copy_write_memory_block` returns 0, so the exit on -1 is never taken.
  unfoldable pub initialize_bitmaps_loop :
      ℕ → ℕ → GroupBitMap → GroupBitMap → Bytes → Disk (GroupBitMap × GroupBitMap)
  initialize_bitmaps_loop zero group_number bitmap data_block_bitmap block =
      pure (bitmap, data_block_bitmap)
  initialize_bitmaps_loop (suc k) group_number bitmap data_block_bitmap block = do
    let inodes = record bitmap { block_number = get_starting_block_inode_bitmap group_number }
    block' ← lift (copy_write_memory_block inodes block)
    write_out (get_starting_block_inode_bitmap group_number) block'
    let blocks = record data_block_bitmap { block_number = get_starting_block_bitmap group_number }
    block'' ← lift (copy_write_memory_block blocks block')
    write_out (get_starting_block_bitmap group_number) block''
    initialize_bitmaps_loop k (group_number + 1) inodes blocks block''

  -- The two locals are destroyed at the end, the last one first.
  unfoldable pub initialize_block_group_bitmaps : Disk ℕ
  initialize_block_group_bitmaps = do
    let unnumbered : GroupBitMap = record { bits = fresh 7800; block_number = get_field 4 0 stack }
    (bitmap, data_block_bitmap) ← initialize_bitmaps_loop num_groups 0 unnumbered unnumbered stack
    destroy_block_bitmap data_block_bitmap
    destroy_inode_bitmap bitmap

  -- Each round writes the descriptor with what lies behind it, and its destructor does so again.
  unfoldable pub initialize_descriptors_loop : ℕ → ℕ → Disk (Unit {0})
  initialize_descriptors_loop zero block_group = pure tt
  initialize_descriptors_loop (suc k) block_group = do
    let block_number = get_starting_block_group_descriptor block_group
    let descriptor =
        initialize_block_group_descriptor_helper block_number (take descriptor_bytes stack)
    write_out block_number (descriptor ++ behind)
    destroy_descriptor descriptor
    initialize_descriptors_loop k (block_group + 1)

  unfoldable pub initialize_block_group_descriptors : Disk (Unit {0})
  initialize_block_group_descriptors = initialize_descriptors_loop num_groups 0
