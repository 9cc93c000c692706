-- ===== src/BlockGroup/Manager/Allocate.antt =====
-- `find_first_empty_inode` hands out the first clear bit of the group's map and marks it on the disk.
use ex2_file_system.Memory.{Bytes}
use ex2_file_system.Disk.Store.{SectorStore, IsDisk}
use ex2_file_system.Block.Transfer.{block, num_blocks, after_both, read_steps, length-block}
use ex2_file_system.BitMap.Spec.{bit}
use ex2_file_system.BlockGroup.Address.{
  get_starting_block_inode_bitmap, get_starting_block_group_descriptor, num_groups, group_stride,
}
use ex2_file_system.BlockGroup.Address.Layout.{metadata_blocks}
use ex2_file_system.BlockGroup.BitMapBlock.{GroupBitMap}
use ex2_file_system.BlockGroup.Manager.{find_first_empty_inode, free_inodes_count}
use ex2_file_system.Effect.{done}
use ex2_file_system.Base.{ℕ, ◌+◌, ◌*◌, ◌<◌, ◌≡◌, ap, ◌∙◌, false, length, arith, ◌==◌}
use ex2_file_system.BlockGroup.Manager.Claim.{
  StoresMap, read_stored, pick, inode_number, Claims, claim, claimed_state, write_back,
}

module _ (d : SectorStore) (disk : IsDisk d) (stack behind : Bytes)
    (big : length stack ≡ 2048) where
  -- With a clear bit in the group's inode map on a disk that is ready, where the map carries its own
  -- block number, and a descriptor that counts free inodes: `find_first_empty_inode` returns the
  -- group's stride of 15604 blocks times its number, plus 6 and the index of the first clear bit. It
  -- sets that bit in the map on the disk, and changes no other block.
  pub find_first_empty_inode-Claims :
      (s : d.State) (group : ℕ) (descriptor : Bytes) (g : GroupBitMap) (i : ℕ)
      → disk.IsReady s
      → group < num_groups
      → (free_inodes_count descriptor == 0) ≡ false
      → StoresMap (block d disk s (get_starting_block_inode_bitmap group)) g
      → g.block_number ≡ get_starting_block_inode_bitmap group
      → i < 7800
      → bit g.bits i ≡ false
      → (lowest : ℕ) × (s' : d.State) × (find_first_empty_inode d stack behind group descriptor s
          ≡ done (group * group_stride + 6 + lowest) s')
        × Claims d disk s s' (get_starting_block_inode_bitmap group) lowest g
  unfolding find_first_empty_inode claimed_state
  find_first_empty_inode-Claims s group descriptor g i ready small counted st num h clear =
      let (lowest, b', found, set, p) = pick g st.is_map i h clear in
      let at = metadata_blocks group small in
      let addr = get_starting_block_inode_bitmap group in
      let inside : addr < num_blocks = at.3 in
      (
        lowest,
        _,
        simp
            (
              counted,
              read_steps d disk addr stack s ready inside,
              read_stored stack big (block d disk s addr) g (length-block d disk s addr) st,
              found,
              set,
              (write_back d disk stack behind big (record g { bits = b' }) addr
                  (after_both d disk s addr) p.is_map num inside).1,
            )
            (ap
              (λ n. done n (claimed_state d disk stack behind big s addr (record g { bits = b' })))
              (inode_number (get_starting_block_group_descriptor group) lowest (omega arith) p.below
                ∙ omega arith)),
        claim d disk stack behind big s addr g (record g { bits = b' }) lowest ready inside p,
      )
