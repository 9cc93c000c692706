-- ===== src/BlockGroup/BitMapBlock/RoundTrip.antt =====
-- A bit map that is written to a block is read back, also through the disk.
use ex2_file_system.Memory.{
  Bytes, get_field, put_field, get-put_field, get-put_field_ne, length-put_field,
}
use ex2_file_system.Memory.Words.{
  put_ints, get_ints, AreInts, get_ints-put_ints, get_field-put_ints, get_ints-put_field,
  length-put_ints,
}
use ex2_file_system.BitMap.{copy_words}
use ex2_file_system.BlockGroup.BitMapBlock.Reading.{read_bitmap}
use ex2_file_system.BitMap.Spec.{IsValid}
use ex2_file_system.BlockGroup.BitMapBlock.{
  GroupBitMap, copy_write_memory_block, write_inode_bitmap,
}
use ex2_file_system.Base.{
  ℕ, suc, ◌^◌, ◌<◌, ◌≤◌, ◌≡◌, refl, sym, ◌∙◌, List, [], ◌∷◌, some, length, arith, get_or, inl, inr,
  le→leb, subst, ap,
}

-- The map of a group as the program keeps it: 7800 bits in 252 words, and a block number.
pub record IsGroupMap (g : GroupBitMap) : Type 0 where
  pub valid : IsValid 7800 g.bits
  pub size : g.bits.size ≡ 252
  pub number : g.block_number < 2 ^ 32

pub copy_words_all : (ws : List ℕ) → copy_words (length ws) ws ≡ some ws
unfolding copy_words
copy_words_all [] = refl
copy_words_all (w ∷ ws) = rw (copy_words_all ws)

AreInts-words : (ws : List ℕ) → ((i : ℕ) → get_or ws i 0 < 2 ^ 31) → AreInts ws
AreInts-words [] h = tt
AreInts-words (w ∷ ws) h = (omega (arith, h 0), AreInts-words ws (λ i. h (suc i)))

-- The bytes of a map that is written over a block.
pub image : GroupBitMap → Bytes → Bytes
image g block =
    put_field 4 1016 g.block_number
      (put_ints 8 g.bits.blocks (put_field 4 4 g.bits.block_size (put_field 4 0 g.bits.size block)))

module _ (g : GroupBitMap) (m : IsGroupMap g) (block : Bytes) (room : 1020 ≤ length block) where
  words : length g.bits.blocks ≡ 252
  words = m.valid.sized ∙ m.size

  pub copy_write-image : copy_write_memory_block g block ≡ some (image g block)
  unfolding copy_write_memory_block image
  copy_write-image =
      let all : copy_words 252 g.bits.blocks ≡ some g.bits.blocks =
        subst (λ n. copy_words n g.bits.blocks ≡ some g.bits.blocks) words
          (copy_words_all g.bits.blocks) in
      simp (m.size, all, words, le→leb 1020 (length block) room)

  pub length-image : length (image g block) ≡ length block
  unfolding image
  length-image =
      length-put_field 4 1016 _ _
      ∙ length-put_ints 8 _ _
      ∙ length-put_field 4 4 _ _
      ∙ length-put_field 4 0 _ _

  header : Bytes
  header = put_field 4 4 g.bits.block_size (put_field 4 0 g.bits.size block)

  length-header : length header ≡ length block
  unfolding header
  length-header = length-put_field 4 4 _ _ ∙ length-put_field 4 0 _ _

  pub image_size : get_field 4 0 (image g block) ≡ 252
  unfolding image
  image_size =
      get-put_field_ne 4 0 4 1016 _ _ (inl (omega arith))
      ∙ get_field-put_ints 4 0 8 _ _ (inl (omega arith))
      ∙ get-put_field_ne 4 0 4 4 _ _ (inl (omega arith))
      ∙ get-put_field 4 0 g.bits.size block (omega (arith, m.size)) (omega arith)
      ∙ m.size

  pub image_block_size : get_field 4 4 (image g block) ≡ g.bits.block_size
  unfolding image
  image_block_size =
      get-put_field_ne 4 4 4 1016 _ _ (inl (omega arith))
      ∙ get_field-put_ints 4 4 8 _ _ (inl (omega arith))
      ∙ get-put_field 4 4 g.bits.block_size _ (omega (arith, m.valid.word_size))
          (omega (arith, length-put_field 4 0 g.bits.size block))

  pub image_words : get_ints 8 252 (image g block) ≡ g.bits.blocks
  unfolding image header
  image_words =
      get_ints-put_field 8 252 4 1016 _ _ (inr (omega arith))
      ∙ subst (λ n. get_ints 8 n (put_ints 8 g.bits.blocks header) ≡ g.bits.blocks) words
          (get_ints-put_ints 8 g.bits.blocks header (AreInts-words g.bits.blocks m.valid.words)
            (omega (arith, words, length-header)))

  pub image_number : get_field 4 1016 (image g block) ≡ g.block_number
  unfolding image header
  image_number =
      get-put_field 4 1016 g.block_number _ m.number
        (omega (arith, length-put_ints 8 g.bits.blocks header, length-header))

  -- A map that is written to a block reads back as it was: the size, the word size, every word and
  -- the block number.
  pub write-read_bitmap :
      (d : Bytes) × (copy_write_memory_block g block ≡ some d)
      × (length d ≡ length block)
      × (write_inode_bitmap d ≡ some g)
  write-read_bitmap = (
    image g block,
    copy_write-image,
    length-image,
    read_bitmap (image g block) image_size (omega (arith, length-image))
        ∙ ap some (λ i. record {
          bits = record {
            size = sym m.size i;
            block_size = image_block_size i;
            blocks = image_words i;
          };
          block_number = image_number i;
        }),
  )
