-- ===== src/BlockGroup/FormatTests.antt =====
-- A blank image is formatted.
use ex2_file_system.Disk.Tests.{image_disk, image-IsDisk, RamFile, blank, blank-IsReady}
use ex2_file_system.Block.Transfer.{num_blocks}
use ex2_file_system.BlockGroup.Address.{get_starting_block_inode, num_groups, group_stride}
use ex2_file_system.BlockGroup.Manager.{find_first_empty_inode, initialize_block_group_bitmaps}
use ex2_file_system.BlockGroup.Manager.Format.{initialize_bitmaps-IsFresh}
use ex2_file_system.BlockGroup.Manager.FreshMaps.{IsFresh}
use ex2_file_system.BlockGroup.Manager.FirstInode.{find_first_empty_inode-initialize_bitmaps}
use ex2_file_system.BlockGroup.Tests.{stack, behind, big, descriptor, counted}
use ex2_file_system.Effect.{done}
use ex2_file_system.Base.{ℕ, ◌+◌, ◌*◌, ◌≡◌, ◌<◌, ◌≤◌, arith}

initialize_bitmaps_example :
    (s' : RamFile) × (initialize_block_group_bitmaps image_disk stack behind blank ≡ done 0 s')
    × image-IsDisk.IsReady s'
    × ((g : ℕ) → g < num_groups → IsFresh image_disk image-IsDisk s' g)
initialize_bitmaps_example =
    initialize_bitmaps-IsFresh image_disk image-IsDisk stack behind big blank blank-IsReady

first_inode_example :
    (s' s'' : RamFile) × (initialize_block_group_bitmaps image_disk stack behind blank ≡ done 0 s')
    × (find_first_empty_inode image_disk stack behind 2 descriptor s'
        ≡ done (2 * group_stride + 6) s'')
    × (0 < 2 → num_blocks ≤ get_starting_block_inode (2 * group_stride + 6))
first_inode_example =
    find_first_empty_inode-initialize_bitmaps image_disk image-IsDisk stack behind big blank 2
      descriptor blank-IsReady (omega arith) counted
