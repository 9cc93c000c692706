-- ===== src/BlockGroup/Manager/FirstInode.antt =====
-- Allocation from a group that was formatted.
use ex2_file_system.Memory.{Bytes}
use ex2_file_system.Disk.Store.{SectorStore, IsDisk}
use ex2_file_system.Bits.{testbit}
use ex2_file_system.BitMap.{fresh}
use ex2_file_system.BitMap.Spec.{bit, AllSet}
use ex2_file_system.Block.Transfer.{num_blocks}
use ex2_file_system.BlockGroup.Address.{
  get_starting_block_inode, get_starting_block_inode_bitmap, num_groups, group_stride,
}
use ex2_file_system.BlockGroup.Address.Layout.{inode_outside}
use ex2_file_system.BlockGroup.Manager.{
  find_first_empty_inode, free_inodes_count, initialize_block_group_bitmaps,
}
use ex2_file_system.BlockGroup.Manager.Allocate.{find_first_empty_inode-Claims}
use ex2_file_system.BlockGroup.Manager.Format.{initialize_bitmaps-IsFresh}
use ex2_file_system.BlockGroup.Manager.FreshMaps.{fresh_map}
use ex2_file_system.Effect.{done}
use ex2_file_system.Base.{
  ℕ, zero, suc, ◌+◌, ◌*◌, ◌<◌, ◌≤◌, ◌≡◌, ◌==◌, refl, ap, ◌∙◌, length, arith, false,
}

first_clear : bit (fresh_map 0).bits 0 ≡ false
unfolding fresh testbit
first_clear = refl

-- The first clear bit is the first bit.
lowest_zero : (lowest : ℕ) → AllSet (bit (fresh 7800)) 0 lowest → lowest ≡ 0
lowest_zero zero all = refl
lowest_zero (suc n) all = absurd (ground (arith, all 0, first_clear))

-- After the bit maps are formatted, on a disk that is ready, an allocation from any group whose
-- descriptor counts free inodes returns 15604 times the group's number plus 6. Taken as an inode
-- number, this stands for a block behind the end of the disk for every group but the first.
pub find_first_empty_inode-initialize_bitmaps :
    (d : SectorStore) (disk : IsDisk d) (stack behind : Bytes)
    → length stack ≡ 2048
    → (s : d.State) (group : ℕ) (descriptor : Bytes) → disk.IsReady s
    → group < num_groups
    → (free_inodes_count descriptor == 0) ≡ false
    → (s' s'' : d.State) × (initialize_block_group_bitmaps d stack behind s ≡ done 0 s')
      × (find_first_empty_inode d stack behind group descriptor s'
          ≡ done (group * group_stride + 6) s'')
      × (0 < group → num_blocks ≤ get_starting_block_inode (group * group_stride + 6))
find_first_empty_inode-initialize_bitmaps d disk stack behind big s group descriptor ready small
      counted =
    let (s', runs, ready', filled) = initialize_bitmaps-IsFresh d disk stack behind big s ready in
    let (lowest, s'', found, claims) =
      find_first_empty_inode-Claims d disk stack behind big s' group descriptor
        (fresh_map (get_starting_block_inode_bitmap group)) 0 ready' small counted
        (filled group small).inodes refl (omega arith) first_clear in
    (
      s',
      s'',
      runs,
      found ∙ ap (λ n. done n s'') (omega (arith, lowest_zero lowest claims.picks.first)),
      λ later. inode_outside (group * group_stride + 6) (omega arith) (omega arith),
    )
