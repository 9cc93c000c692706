-- ===== src/BlockGroup/Address/Layout.antt =====
-- Which blocks of the disk the groups use.
use ex2_file_system.BlockGroup.Address.{
  get_starting_block_inode, get_starting_block_inode_bitmap, get_starting_block_bitmap,
  get_starting_block_group_descriptor, num_groups, group_stride, num_inodes_per_group,
}
use ex2_file_system.Block.Transfer.{num_blocks}
use ex2_file_system.Base.{ℕ, ◌+◌, ◌*◌, ◌/◌, ◌%◌, ◌^◌, ◌<◌, ◌≤◌, ◌≡◌, ◌≢◌, ◌≢◌, arith}

-- The descriptor, the block bit map and the inode bit map of a group are three blocks in a row that
-- lie inside the disk.
pub metadata_blocks :
    (g : ℕ)
    → g < num_groups
    → (get_starting_block_group_descriptor g ≡ g * group_stride + 3)
      × (get_starting_block_bitmap g ≡ g * group_stride + 4)
      × (get_starting_block_inode_bitmap g ≡ g * group_stride + 5)
      × (get_starting_block_inode_bitmap g < num_blocks)
unfolding get_starting_block_group_descriptor get_starting_block_bitmap
    get_starting_block_inode_bitmap
metadata_blocks g h = ground arith

inode_block :
    (i : ℕ)
    → i < 2 ^ 16
    → get_starting_block_inode i ≡ i / 9 * group_stride + 7 + i % num_inodes_per_group
unfolding get_starting_block_inode
inode_block i h = ground arith

-- No two inodes share a block, and no inode has a block of a group's metadata.
pub inode_blocks_apart :
    (i j g : ℕ)
    → i < num_groups * num_inodes_per_group
    → j < num_groups * num_inodes_per_group
    → g < num_groups
    → (get_starting_block_inode i ≡ get_starting_block_inode j → i ≡ j)
      × (get_starting_block_inode i ≢ get_starting_block_group_descriptor g)
      × (get_starting_block_inode i ≢ get_starting_block_bitmap g)
      × (get_starting_block_inode i ≢ get_starting_block_inode_bitmap g)
inode_blocks_apart i j g h k small = (
  λ e. omega (arith, inode_block i (omega arith), inode_block j (omega arith)),
  λ e. omega (arith, inode_block i (omega arith), (metadata_blocks g small).0),
  λ e. omega (arith, inode_block i (omega arith), (metadata_blocks g small).1),
  λ e. omega (arith, inode_block i (omega arith), (metadata_blocks g small).2),
)

-- Of the 31200 inodes the first 612 have their block on the disk, and no other has.
pub inode_inside_iff :
    (i : ℕ)
    → i < num_groups * num_inodes_per_group
    → ((i < 612 → get_starting_block_inode i < num_blocks)
        × (612 ≤ i → num_blocks ≤ get_starting_block_inode i))
inode_inside_iff i h = (
  λ k. omega (arith, inode_block i (omega arith)),
  λ k. omega (arith, inode_block i (omega arith)),
)

-- A larger number, up to 2^16, has a block behind the end of the disk too.
pub inode_outside : (i : ℕ) → 612 ≤ i → i < 2 ^ 16 → num_blocks ≤ get_starting_block_inode i
inode_outside i h k = omega (arith, inode_block i k)
