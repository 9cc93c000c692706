-- ===== src/BlockGroup/DataBlockTests.antt =====
-- A data block that is handed out of the blank image's group 0.
use ex2_file_system.Memory.{Bytes, from_bytes, get_field}
use ex2_file_system.Disk.Tests.{image_disk, image-IsDisk, RamFile}
use ex2_file_system.Block.Transfer.{both_halves, block-both_halves, both_halves-IsReady}
use ex2_file_system.BlockGroup.Address.{
  get_starting_block_group_descriptor, get_starting_block_bitmap, group_stride,
}
use ex2_file_system.BlockGroup.Manager.{
  find_first_empty_data_block, free_blocks_count, descriptor_block_number,
}
use ex2_file_system.BlockGroup.Manager.Claim.{StoresMap}
use ex2_file_system.BlockGroup.Manager.DataBlock.{Takes, find_first_empty_data_block-Takes}
use ex2_file_system.BlockGroup.Tests.{
  stack, behind, big, contents, formatted, map_at, formatted-StoresMap, formatted-IsReady,
  fresh_clear,
}
use ex2_file_system.Effect.{done}
use ex2_file_system.Base.{
  ℕ, ◌+◌, ◌*◌, ◌≡◌, ◌==◌, ◌++◌, false, ◌∷◌, replicate, take, arith, refl, ap, sym, ◌∙◌, subst,
  length-replicate,
}

-- The descriptor of group 0: 7800 free blocks and inodes, in block 3.
abbrev descriptor_block : Bytes
descriptor_block =
    replicate 12 0 ++ 120 ∷ 30 ∷ 120 ∷ 30 ∷ 0 ∷ 0 ∷ 0 ∷ 0 ∷ 3 ∷ 0 ∷ 0 ∷ 0 ∷ replicate 1000 0

abbrev described : RamFile
described = both_halves image_disk image-IsDisk (formatted 4) 3 descriptor_block

at_three : contents described 3 ≡ take 1024 descriptor_block
at_three =
    block-both_halves image_disk image-IsDisk 3 3 descriptor_block (formatted 4) (omega arith)
      (omega arith)

at_four : contents described 4 ≡ contents (formatted 4) 4
at_four =
    block-both_halves image_disk image-IsDisk 3 4 descriptor_block (formatted 4) (omega arith)
      (omega arith)

fields :
    ((free_blocks_count (take 1024 descriptor_block) == 0) ≡ false)
    × (descriptor_block_number (take 1024 descriptor_block) ≡ 3)
unfolding get_field from_bytes
fields = (refl, refl)

find_first_empty_data_block_example :
    (lowest : ℕ) × (s' : RamFile) × (find_first_empty_data_block image_disk stack behind 5 described
      ≡ done (0 * group_stride + 7806 + lowest) s')
    × Takes image_disk image-IsDisk described s' 0 lowest (map_at 4)
unfolding get_starting_block_bitmap get_starting_block_group_descriptor
find_first_empty_data_block_example =
    find_first_empty_data_block-Takes image_disk image-IsDisk stack behind big described 5
      (map_at 4) 0
      (both_halves-IsReady image_disk image-IsDisk 3 descriptor_block (formatted 4) (omega arith)
        (omega arith) (formatted-IsReady 4 (omega arith)))
      (omega arith) (length-replicate {A = ℕ} 1000 0)
      (ap (λ b. free_blocks_count b == 0) at_three ∙ fields.0)
      (ap descriptor_block_number at_three ∙ fields.1)
      (subst (λ b. StoresMap b (map_at 4)) (sym at_four) (formatted-StoresMap 4 (omega arith))) refl
      (omega arith) fresh_clear
