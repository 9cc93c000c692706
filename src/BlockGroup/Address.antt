-- ===== src/BlockGroup/Address.antt =====
-- The functions of block_group.cpp that compute block numbers, with the constants of
-- shared_types.h. The constants are `uint64_t`, so an `int` is widened with its sign, and the result
-- is cut to 32 bits.
pub mod Layout
use ex2_file_system.Base.{ℕ, ◌+◌, ◌*◌, ◌/◌, ◌%◌, int_mod, to_u64}

abbrev pub num_groups : ℕ
num_groups = 4

abbrev pub reserved_offset_groups : ℕ
reserved_offset_groups = 3

abbrev pub blocks_group_reserved : ℕ
blocks_group_reserved = 4

abbrev pub blocks_per_inode : ℕ
blocks_per_inode = 9

abbrev pub num_inodes_per_group : ℕ
num_inodes_per_group = 7800

abbrev pub data_blocks_per_group : ℕ
data_blocks_per_group = 7800

-- The blocks from one group to the next.
abbrev pub group_stride : ℕ
group_stride = blocks_group_reserved + num_inodes_per_group + data_blocks_per_group

unfoldable pub get_starting_block_inode : ℕ → ℕ
get_starting_block_inode inode_number =
    let group_number = to_u64 inode_number / blocks_per_inode % int_mod in
    let index = to_u64 inode_number % num_inodes_per_group % int_mod in
    (to_u64 group_number * group_stride + blocks_group_reserved + reserved_offset_groups + index)
    % int_mod

unfoldable pub get_starting_block_inode_bitmap : ℕ → ℕ
get_starting_block_inode_bitmap group_number =
    (to_u64 group_number * group_stride + reserved_offset_groups + 2) % int_mod

unfoldable pub get_starting_block_bitmap : ℕ → ℕ
get_starting_block_bitmap group_number =
    (to_u64 group_number * group_stride + reserved_offset_groups + 1) % int_mod

unfoldable pub get_starting_block_group_descriptor : ℕ → ℕ
get_starting_block_group_descriptor group_number =
    (reserved_offset_groups + to_u64 group_number * group_stride) % int_mod
