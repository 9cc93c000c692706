-- ===== src/FileSystem/Blocks/Appending.antt =====
-- `my_file_system_write` where the bytes go into the last block of the file.
use ex2_file_system.FileSystem.Blocks.Writing.{
  filled, length-filled, stored_part, write_blocks_lem, fits_lem, other_field,
}
use ex2_file_system.Memory.{Bytes, overwrite, slice, get_field, put_field, length-put_field}
use ex2_file_system.Memory.Copies.{get_field-overwrite_front, get_field-take}
use ex2_file_system.Disk.Store.{SectorStore, IsDisk}
use ex2_file_system.Block.Transfer.{
  block, num_blocks, after_both, block-after_both, after_both-IsReady, both_halves,
  block-both_halves, both_halves-IsReady,
}
use ex2_file_system.BlockGroup.Address.{get_starting_block_inode}
use ex2_file_system.BlockGroup.Manager.{inode_bytes, uid}
use ex2_file_system.BlockGroup.Manager.Stored.{
  inode_of, length-inode_of, read_stored, after_destroy, destroy_steps, after_destroy-IsReady,
  block-after_destroy, inode_of-after_destroy,
}
use ex2_file_system.FileSystem.{MyFile, FileSystem, assign, get_file_info}
use ex2_file_system.FileSystem.Blocks.{my_file_system_write, add_int}
use ex2_file_system.FileSystem.Blocks.OnDisk.{IsFile}
use ex2_file_system.Effect.{done}
use ex2_file_system.Base.{
  ℕ, ◌+◌, ◌-◌, ◌*◌, ◌/◌, ◌%◌, ◌^◌, ◌<◌, ◌≤◌, ◌≡◌, ◌==◌, false, some, refl, ap, ◌∙◌, length, arith,
  take, length-take, inl, inr, ltb, if◌then◌else◌, to_u64, ==_refl,
}

module _ (d : SectorStore) (disk : IsDisk d) (stack behind : Bytes)
    (big : length stack ≡ 2048) where
  module _ (fs : FileSystem d.State) (ready : disk.IsReady fs.disk) (fd size now : ℕ)
      (file : MyFile) (buffer : Bytes) (opened : get_file_info fd fs ≡ some file)
      (stored : IsFile d disk stack behind big fs.disk file.inode_number) where
    abbrev inode : Bytes
    inode = inode_of d disk stack behind big fs.disk file.inode_number

    -- The inode with the new size and time.
    abbrev pub modified : Bytes
    modified = put_field 8 72 now (put_field 4 8 (add_int size file.file_size) inode)

    -- The number of the last block of the file.
    abbrev pub last_block : ℕ
    last_block = get_field 4 (16 + 4 * (file.file_size / 1024)) inode

    whole : length modified ≡ 144
    whole =
        length-put_field 8 72 now _
        ∙ length-put_field 4 8 (add_int size file.file_size) inode
        ∙ length-inode_of d disk stack behind big fs.disk file.inode_number

    own_modified : uid modified ≡ file.inode_number
    own_modified =
        other_field now (add_int size file.file_size) 2 2 inode (inl (omega arith)) ∙ stored.own

    abbrev written_to : Bytes
    written_to =
        filled d disk stack behind big
          (after_both d disk fs.disk (get_starting_block_inode file.inode_number)) last_block
          (file.file_size % 1024) (slice 0 size buffer)

    abbrev after_write : d.State
    after_write =
        both_halves d disk
          (after_both d disk
            (after_both d disk fs.disk (get_starting_block_inode file.inode_number)) last_block)
          last_block written_to

    long_written : 1024 ≤ length written_to
    long_written = omega (
      arith,
      length-filled d disk stack behind big
          (after_both d disk fs.disk (get_starting_block_inode file.inode_number)) last_block
          (file.file_size % 1024) (slice 0 size buffer),
    )

    block-after_write :
        (m : ℕ)
        → last_block < num_blocks
        → block d disk after_write m
          ≡ (if last_block == m then take 1024 written_to else block d disk fs.disk m)
    block-after_write m h =
        block-both_halves d disk last_block m written_to _ h long_written
        ∙ ap (λ b. if last_block == m then take 1024 written_to else b)
            (block-after_both d disk last_block m
                (after_both d disk fs.disk (get_starting_block_inode file.inode_number))
              ∙ block-after_both d disk (get_starting_block_inode file.inode_number) m fs.disk)

    -- On an open file below 9 blocks whose inode is on a ready disk, a write of one byte or more, no
    -- more than the buffer has, that go behind the last ones in the last block of the file, where
    -- position + size is below 2^31 and position + size - 1 lies in that same block, which the inode
    -- names, which is on the disk, not block 0 and not the inode's own: the write returns 0.
    -- The bytes are in the block, the size is larger by their number, and the time of modification is
    -- in the inode, whose first 133 bytes are else as they were. No other block changes.
    pub my_file_system_write_lem :
        0 < size
        → file.file_size < 9 * 1024
        → file.file_size % 1024 + size ≤ 1024
        → (file.position + size - 1) / 1024 ≡ file.file_size / 1024
        → file.position + size < 2 ^ 31
        → (last_block == 0) ≡ false
        → last_block < num_blocks
        → (get_starting_block_inode file.inode_number == last_block) ≡ false
        → size ≤ length buffer
        → (s' : d.State) × (my_file_system_write d stack behind now fd buffer size fs
            ≡ done 0 (record fs {
              mp = assign fd (record file { file_size = add_int size file.file_size }) fs.mp;
              disk = s';
            }))
          × disk.IsReady s'
          × (block d disk s' last_block
              ≡ overwrite
                  (block d disk fs.disk last_block)
                  (file.file_size % 1024)
                  (slice 0 size buffer))
          × ((m : ℕ)
              → (get_starting_block_inode file.inode_number == m) ≡ false
              → (last_block == m) ≡ false
              → block d disk s' m ≡ block d disk fs.disk m)
          × ((w o : ℕ)
              → o + w ≤ 133
              → get_field w o (inode_of d disk stack behind big s' file.inode_number)
                ≡ get_field w o modified)
    unfolding my_file_system_write get_file_info
    my_file_system_write_lem some_bytes small one_block same room31 named inside apart room =
        let n = file.inode_number in
        let s1 = after_both d disk fs.disk (get_starting_block_inode n) in
        let i = file.file_size / 1024 in
        let ready1 = after_both-IsReady d disk (get_starting_block_inode n) fs.disk ready in
        let entry : get_field 4 (16 + 4 * i) modified ≡ last_block =
          other_field now (add_int size file.file_size) 4 (16 + 4 * i) inode
            (inr (inl (omega arith, omega arith))) in
        let fits : ltb (9 * 1024) (to_u64 (add_int size file.file_size)) ≡ false =
          fits_lem (size + file.file_size) (omega arith) in
        let named' : (get_field 4 (16 + 4 * i) modified == 0) ≡ false = rw entry named in
        (
          after_destroy d disk stack behind big after_write modified,
          simp (
            opened,
            fits,
            read_stored d disk stack behind big fs.disk n stored.inside ready,
            stored.linked,
            write_blocks_lem d disk stack behind big s1 file size modified buffer ready1 some_bytes
                small one_block same room31 named' (omega (arith, entry)) room,
            entry,
            destroy_steps d disk stack behind big after_write n modified own_modified stored.inside
                whole,
          ),
          after_destroy-IsReady d disk stack behind big after_write n modified own_modified
              stored.inside whole
              (both_halves-IsReady d disk last_block written_to _ inside long_written
                (after_both-IsReady d disk last_block s1 ready1)),
          block-after_destroy d disk stack behind big after_write n modified own_modified
                stored.inside whole last_block apart
              ∙ block-after_write last_block inside
              ∙ rw (==_refl last_block) (
                  stored_part d disk stack behind big s1 last_block (file.file_size % 1024)
                    (slice 0 size buffer) (omega (arith, length-take size buffer))
                  ∙ ap (λ b. overwrite b (file.file_size % 1024) (slice 0 size buffer))
                      (block-after_both d disk (get_starting_block_inode n) last_block fs.disk)),
          λ m other other'.
              block-after_destroy d disk stack behind big after_write n modified own_modified
                stored.inside whole m other
              ∙ block-after_write m inside
              ∙ rw other' refl,
          λ w o h.
              ap (get_field w o) (
                inode_of-after_destroy d disk stack behind big after_write n modified own_modified
                  stored.inside whole)
              ∙ get_field-overwrite_front w o (take inode_bytes stack) (take 133 modified)
                  (omega (arith, whole, length-take 133 modified))
                  (omega (arith, whole, length-take 133 modified, length-take 144 stack))
              ∙ get_field-take w o 133 modified h,
        )
