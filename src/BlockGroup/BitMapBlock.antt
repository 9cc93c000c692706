-- ===== src/BlockGroup/BitMapBlock.antt =====
-- The bit maps of a block group as the bytes of a block: `BlockGroupINodeBitMap` and
-- `BlockGroupBlockBitMap` of block_group.h, whose `copy_write_memory_block`, `write_inode_bitmap` and
-- `write_block_bitmap` in block_group.cpp differ in the class alone. A block holds `size`,
-- `block_size`, the words and `block_number`, four bytes each. `none` is an access outside `blocks`
-- or outside the 2048 bytes of `MemoryBlock::data`.
pub mod Reading
pub mod RoundTrip
pub mod Swapped
use ex2_file_system.Memory.{Bytes, get_field, put_field}
use ex2_file_system.Memory.Words.{put_ints, get_ints}
use ex2_file_system.BitMap.{BitMap, fresh, copy_words, from_memory}
use ex2_file_system.Base.{
  ℕ, ◌+◌, ◌*◌, ◌++◌, Option, none, some, ◌>>=◌, leb, if◌then◌else◌, is_negative, length, drop, not,
}

pub record GroupBitMap : Type 0 where
  pub bits : BitMap
  pub block_number : ℕ

-- The rounds of `for (int i = 0; i < size; i++)`.
abbrev pub rounds : ℕ → ℕ
rounds size = if is_negative size then 0 else size

unfoldable pub copy_write_memory_block : GroupBitMap → Bytes → Option Bytes
copy_write_memory_block g block = do
  words ← copy_words (rounds g.bits.size) g.bits.blocks
  if leb (8 + 4 * length words + 4) (length block)
      then some (
          put_field 4 (8 + 4 * length words) g.block_number
            (put_ints 8 words (put_field 4 4 g.bits.block_size (put_field 4 0 g.bits.size block))))
      else none

-- `write_inode_bitmap`: the words go to the array that the default constructor made.
unfoldable pub write_inode_bitmap : Bytes → Option GroupBitMap
write_inode_bitmap block =
    let bitmap_block = fresh 7800 in
    let size = get_field 4 0 block in
    let n = rounds size in
    if leb n bitmap_block.size
    then (if leb (8 + 4 * n + 4) (length block)
        then some (record {
          bits = record {
            size = size;
            block_size = get_field 4 4 block;
            blocks = get_ints 8 n block ++ drop n bitmap_block.blocks;
          };
          block_number = get_field 4 (8 + 4 * n) block;
        })
        else none)
    else none

-- `write_block_bitmap`, the same steps for the data blocks.
unfoldable pub write_block_bitmap : Bytes → Option GroupBitMap
unfolding write_inode_bitmap
write_block_bitmap block = write_inode_bitmap block

-- The constructors from a block. `BitMap`'s third constructor takes `block_size`, `size` and the
-- words, in this order; the inode map hands it the first two `int`s of the block as they stand.

-- The words and the block number behind the two `int`s.
unfoldable pub bitmap_from_block : ℕ → ℕ → Bytes → Option GroupBitMap
bitmap_from_block block_size size block =
    if not (leb (8 + 4 * rounds size + 4) (length block)) then none else do
      bits ← from_memory block_size size (get_ints 8 (rounds size) block)
      some (record { bits = bits; block_number = get_field 4 (8 + 4 * rounds size) block })

unfoldable pub inode_bitmap_from_block : Bytes → Option GroupBitMap
unfolding bitmap_from_block
inode_bitmap_from_block block = bitmap_from_block (get_field 4 0 block) (get_field 4 4 block) block

unfoldable pub block_bitmap_from_block : Bytes → Option GroupBitMap
unfolding bitmap_from_block
block_bitmap_from_block block = bitmap_from_block (get_field 4 4 block) (get_field 4 0 block) block
