-- ===== src/BlockGroup/BitMapBlock/Swapped.antt =====
-- The two constructors from a block, on a block that `copy_write_memory_block` wrote.
use ex2_file_system.Memory.{Bytes, get_field}
use ex2_file_system.Memory.Words.{get_ints}
use ex2_file_system.BitMap.{copy_words, from_memory}
use ex2_file_system.BlockGroup.BitMapBlock.{
  GroupBitMap, copy_write_memory_block, bitmap_from_block, inode_bitmap_from_block,
  block_bitmap_from_block,
}
use ex2_file_system.BlockGroup.BitMapBlock.RoundTrip.{
  IsGroupMap, image, copy_write-image, length-image, image_size, image_block_size, image_words,
  image_number, copy_words_all,
}
use ex2_file_system.Base.{
  ℕ, zero, suc, ◌+◌, ◌≤◌, ◌≡◌, refl, ap, subst, sym, some, length, le→leb, arith,
}

length-get_ints : (ptr n : ℕ) (d : Bytes) → length (get_ints ptr n d) ≡ n
unfolding get_ints
length-get_ints ptr zero d = refl
length-get_ints ptr (suc n) d = ap suc (length-get_ints (ptr + 4) n d)

copy_words-get_ints : (n : ℕ) (d : Bytes) → copy_words n (get_ints 8 n d) ≡ some (get_ints 8 n d)
copy_words-get_ints n d =
    subst (λ k. copy_words k (get_ints 8 n d) ≡ some (get_ints 8 n d)) (length-get_ints 8 n d)
      (copy_words_all (get_ints 8 n d))

module _ (g : GroupBitMap) (m : IsGroupMap g) (block : Bytes) (room : 1020 ≤ length block) where
  -- On a block that holds a map of 7800 bits the constructor of the data blocks' map gives the map
  -- back, and the constructor of the inodes' map takes the two header words for one another: it
  -- makes a map of 31 words of 252 bits each.
  pub constructors_differ :
      (d : Bytes) × (h : GroupBitMap) × (copy_write_memory_block g block ≡ some d)
      × (block_bitmap_from_block d ≡ some g)
      × (inode_bitmap_from_block d ≡ some h)
      × (h.bits.size ≡ 31)
      × (h.bits.block_size ≡ 252)
  unfolding inode_bitmap_from_block block_bitmap_from_block bitmap_from_block from_memory
  constructors_differ = (
    image g block,
    record {
      bits = record { size = 31; block_size = 252; blocks = get_ints 8 31 (image g block) };
      block_number = get_field 4 132 (image g block);
    },
    copy_write-image g m block room,
    simp
        (
          image_block_size g m block room,
          m.valid.word_size,
          image_size g m block room,
          le→leb 1020 (length (image g block)) long,
          copy_words-get_ints 252 (image g block),
        )
        (λ i. some (record {
          bits = record {
            size = sym m.size i;
            block_size = sym m.valid.word_size i;
            blocks = image_words g m block room i;
          };
          block_number = image_number g m block room i;
        })),
    simp (
      image_block_size g m block room,
      m.valid.word_size,
      image_size g m block room,
      le→leb 136 (length (image g block)) (omega (arith, length-image g m block room)),
      copy_words-get_ints 31 (image g block),
    ),
    refl,
    refl,
  )
    where
      long : 1020 ≤ length (image g block)
      long = omega (arith, length-image g m block room)
