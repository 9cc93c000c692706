-- ===== src/FileSystem/Blocks/OnDisk.antt =====
-- `my_open` and `my_file_system_read` on a file whose inode is on the disk.
use ex2_file_system.Memory.{
  Bytes, overwrite, slice, get_field, put_field, length-put_field, get-put_field_ne,
}
use ex2_file_system.Memory.Copies.{get_field-overwrite_front, get_field-take}
use ex2_file_system.Disk.Store.{SectorStore, IsDisk}
use ex2_file_system.Block.Transfer.{
  block, num_blocks, after_both, block-after_both, after_both-IsReady,
}
use ex2_file_system.BlockGroup.Address.{get_starting_block_inode}
use ex2_file_system.BlockGroup.Manager.{hard_link_count, inode_bytes, uid}
use ex2_file_system.BlockGroup.Manager.Stored.{
  inode_of, length-inode_of, read_stored, after_destroy, destroy_steps, after_destroy-IsReady,
  block-after_destroy, inode_of-after_destroy, Kept, read_back-Kept,
}
use ex2_file_system.FileSystem.{
  MyFile, FileSystem, assign, get_file_info, my_open, permits, inode_file_size, is_directory_flag,
}
use ex2_file_system.FileSystem.Blocks.{my_file_system_read, add_int}
use ex2_file_system.FileSystem.Blocks.Reading.{read_blocks_lem}
use ex2_file_system.Effect.{done}
use ex2_file_system.Base.{
  ℕ, ◌+◌, ◌*◌, ◌/◌, ◌%◌, ◌^◌, ◌<◌, ◌≤◌, ◌≡◌, ◌==◌, true, false, some, ap, ◌∙◌, length, arith,
  int_mod, lt_int, take, length-take, inl,
}

module _ (d : SectorStore) (disk : IsDisk d) (stack behind : Bytes)
    (big : length stack ≡ 2048) where
  -- An inode that has a block on the disk, has its own number and has a hard link.
  pub record IsFile (s : d.State) (n : ℕ) : Type 0 where
    pub inside : get_starting_block_inode n < num_blocks
    pub own : uid (inode_of d disk stack behind big s n) ≡ n
    pub linked : (hard_link_count (inode_of d disk stack behind big s n) == 0) ≡ false

  pub Kept-IsFile :
      (s s' : d.State) (n : ℕ) → IsFile s n → Kept d disk stack behind big s s' n → IsFile s' n
  Kept-IsFile s s' n file kept = record {
    inside = file.inside;
    own = ap uid kept.same_inode ∙ file.own;
    linked = ap (λ i. hard_link_count i == 0) kept.same_inode ∙ file.linked;
  }

  -- The open file of such an inode.
  abbrev pub file_at : d.State → ℕ → ℕ → MyFile
  file_at s junk n = record {
    inode_number = n;
    position = 0;
    file_size = inode_file_size (inode_of d disk stack behind big s n);
    permissions = junk;
    is_directory = is_directory_flag (inode_of d disk stack behind big s n);
  }

  pub open_steps :
      (fs : FileSystem d.State) (junk n mask : ℕ)
      → disk.IsReady fs.disk
      → IsFile fs.disk n
      → permits mask (inode_of d disk stack behind big fs.disk n) ≡ true
      → fs.created_file_descriptors + 1 < 2 ^ 32
      → (s' : d.State) × (my_open d stack behind junk n mask fs
          ≡ done fs.created_file_descriptors (record {
            mp = assign fs.created_file_descriptors (file_at fs.disk junk n) fs.mp;
            created_file_descriptors = fs.created_file_descriptors + 1;
            disk = s';
          }))
        × Kept d disk stack behind big fs.disk s' n
  unfolding my_open
  open_steps fs junk n mask ready file allowed more =
      let inode = inode_of d disk stack behind big fs.disk n in
      let s1 = after_both d disk fs.disk (get_starting_block_inode n) in
      let wraps : (fs.created_file_descriptors + 1) % int_mod ≡ fs.created_file_descriptors + 1 =
        omega arith in
      (
        after_destroy d disk stack behind big s1 inode,
        simp (
          read_stored d disk stack behind big fs.disk n file.inside ready,
          file.linked,
          allowed,
          destroy_steps d disk stack behind big s1 n inode file.own file.inside
              (length-inode_of d disk stack behind big fs.disk n),
          wraps,
        ),
        read_back-Kept d disk stack behind big fs.disk n file.inside ready file.own,
      )

  module _ (fs : FileSystem d.State) (ready : disk.IsReady fs.disk) (fd size now : ℕ)
      (file : MyFile) (buffer : Bytes) (opened : get_file_info fd fs ≡ some file)
      (stored : IsFile fs.disk file.inode_number)
      (fits : lt_int file.file_size (add_int size file.position) ≡ false) where
    abbrev inode : Bytes
    inode = inode_of d disk stack behind big fs.disk file.inode_number

    abbrev accessed : Bytes
    accessed = put_field 8 64 now inode

    -- The number of the block that the position lies in.
    abbrev pub data_block : ℕ
    data_block = get_field 4 (16 + 4 * (file.position / 1024)) inode

    early_field : (w o : ℕ) → o + w ≤ 64 → get_field w o accessed ≡ get_field w o inode
    early_field w o h = get-put_field_ne w o 8 64 now inode (inl h)

    whole : length accessed ≡ 144
    whole =
        length-put_field 8 64 now inode
        ∙ length-inode_of d disk stack behind big fs.disk file.inode_number

    own_accessed : uid accessed ≡ file.inode_number
    own_accessed = early_field 2 2 (omega arith) ∙ stored.own

    abbrev after_read : d.State
    after_read =
        after_both d disk (after_both d disk fs.disk (get_starting_block_inode file.inode_number))
          data_block

    -- On an open file whose inode is on a ready disk, a read of bytes that lie before the end of the
    -- file and within one block, which the inode names, returns 0 with these bytes at the front of
    -- the buffer. It moves the position behind them. On the disk no block but the inode's changes,
    -- and the fields of the inode before the time of access do not.
    pub my_file_system_read_lem :
        0 < size
        → file.position % 1024 + size ≤ 1024
        → file.position < 9 * 1024
        → data_block < num_blocks
        → size ≤ length buffer
        → (s' : d.State) × (my_file_system_read d stack behind now fd buffer size fs
            ≡ done
                (
                  0,
                  overwrite buffer 0
                      (slice (file.position % 1024) size (block d disk fs.disk data_block)),
                )
                (record fs {
                  mp = assign fd (record file { position = add_int file.position size }) fs.mp;
                  disk = s';
                }))
          × disk.IsReady s'
          × ((m : ℕ)
              → (get_starting_block_inode file.inode_number == m) ≡ false
              → block d disk s' m ≡ block d disk fs.disk m)
          × ((w o : ℕ)
              → o + w ≤ 64
              → get_field w o (inode_of d disk stack behind big s' file.inode_number)
                ≡ get_field w o inode)
    unfolding my_file_system_read get_file_info
    my_file_system_read_lem some_bytes one_block inside on_disk room =
        let n = file.inode_number in
        let s1 = after_both d disk fs.disk (get_starting_block_inode n) in
        let entry : get_field 4 (16 + 4 * (file.position / 1024)) accessed ≡ data_block =
          early_field 4 (16 + 4 * (file.position / 1024)) (omega arith) in
        (
          after_destroy d disk stack behind big after_read accessed,
          simp (
            opened,
            fits,
            read_stored d disk stack behind big fs.disk n stored.inside ready,
            stored.linked,
            read_blocks_lem d disk stack behind big s1 file.position size accessed buffer
                (after_both-IsReady d disk (get_starting_block_inode n) fs.disk ready) some_bytes
                one_block inside (omega (arith, entry)) room,
            entry,
            block-after_both d disk (get_starting_block_inode n) data_block fs.disk,
            destroy_steps d disk stack behind big after_read n accessed own_accessed stored.inside
                whole,
          ),
          after_destroy-IsReady d disk stack behind big after_read n accessed own_accessed
              stored.inside whole
              (after_both-IsReady d disk data_block s1
                (after_both-IsReady d disk (get_starting_block_inode n) fs.disk ready)),
          λ m other.
              block-after_destroy d disk stack behind big after_read n accessed own_accessed
                stored.inside whole m other
              ∙ block-after_both d disk data_block m s1
              ∙ block-after_both d disk (get_starting_block_inode n) m fs.disk,
          λ w o h.
              ap (get_field w o) (
                inode_of-after_destroy d disk stack behind big after_read n accessed own_accessed
                  stored.inside whole)
              ∙ get_field-overwrite_front w o (take inode_bytes stack) (take 133 accessed)
                  (omega (arith, whole, length-take 133 accessed))
                  (omega (arith, whole, length-take 133 accessed, length-take 144 stack))
              ∙ get_field-take w o 133 accessed (omega arith)
              ∙ early_field w o h,
        )
