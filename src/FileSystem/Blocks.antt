-- ===== src/FileSystem/Blocks.antt =====
-- ex2.cpp: `my_file_system_read`, `my_file_system_write` and `my_file_system_write_at`. The caller's
-- buffer is its bytes with the offset that the `char *&` of a helper moves. `none` and `undefined`
-- are a `memcpy` or an index outside its object. Sums of `int`s wrap.
pub mod Reading
pub mod OnDisk
pub mod Writing
pub mod Appending
use ex2_file_system.Memory.{Bytes, overwrite, slice, get_field, put_field}
use ex2_file_system.Disk.Store.{SectorStore}
use ex2_file_system.Block.{write_block_disk_helper, retreive_block_disk_helper}
use ex2_file_system.BlockGroup.Address.{blocks_per_inode}
use ex2_file_system.BlockGroup.Manager.{
  Disk, read_inode_info, destroy_inode, hard_link_count, inode_bytes, find_first_empty_data_block,
  write_out,
}
use ex2_file_system.FileSystem.{
  MyFile, FileSystem, Files, returned, on_disk, found, with_file, set_file, inode_file_size,
}
use ex2_file_system.Effect.{Run, Outcome, done, pure, exit, lift, ◌>>=◌, ◌>>◌, and_then}
use ex2_file_system.Base.{
  ℕ, zero, suc, ◌+◌, ◌-◌, ◌*◌, ◌/◌, ◌%◌, ◌^◌, ◌==◌, ◌&&◌, not, Bool, true, false, if◌then◌else◌,
  minus_one, int_mod, to_u64, lt_int, take, leb, ltb, length, Option, none, some, bit_and,
}

abbrev pub bytes_per_block : ℕ
bytes_per_block = 1024

-- An `int` divided by, and modulo, a `uint64_t` constant, stored in an `int`.
abbrev pub quotient_u64 : ℕ → ℕ → ℕ
quotient_u64 n k = to_u64 n / k % int_mod

abbrev pub remainder_u64 : ℕ → ℕ → ℕ
remainder_u64 n k = to_u64 n % k % int_mod

abbrev pub add_int : ℕ → ℕ → ℕ
add_int a b = (a + b) % int_mod

-- The rounds of a loop `for (i = first; i < last; i++)` on `int`s.
abbrev pub rounds_between : ℕ → ℕ → ℕ
rounds_between first last = if lt_int first last then (last + int_mod - first) % int_mod else 0

unfoldable pub read_helper : ℕ → ℕ → Bytes × ℕ → Bytes → Option (Bytes × ℕ)
read_helper starting_byte ending_byte (destination, ptr) src =
    let size = ending_byte - starting_byte in
    if leb starting_byte ending_byte
      && leb ending_byte (length src)
      && leb (ptr + size) (length destination)
    then some (overwrite destination ptr (slice starting_byte size src), ptr + size)
    else none

-- The block afterwards, and where the source pointer stands.
unfoldable pub write_helper : ℕ → ℕ → Bytes → Bytes → ℕ → Option (Bytes × ℕ)
write_helper starting_byte ending_byte destination src ptr =
    let size = ending_byte - starting_byte in
    if leb starting_byte ending_byte
      && leb ending_byte (length destination)
      && leb (ptr + size) (length src)
    then some (overwrite destination starting_byte (slice ptr size src), ptr + size)
    else none

-- `inode.blocks[block_idx]`
unfoldable pub block_entry : ℕ → Bytes → Option ℕ
block_entry block_idx inode =
    if ltb block_idx blocks_per_inode then some (get_field 4 (16 + 4 * block_idx) inode) else none

module _ (d : SectorStore) (stack behind : Bytes) where
  -- A call of `retreive_block_disk_helper`: the status and `block.data` afterwards.
  abbrev pub retreive : ℕ → Bytes → Disk d stack behind (ℕ × Bytes)
  retreive block_number bytes s =
      let (status, bytes', s') = retreive_block_disk_helper d block_number bytes s in
      done (status, bytes') s'

  -- Status, inode and `block->data`.
  unfoldable pub get_data_block : ℕ → ℕ → Bytes → Bytes → Disk d stack behind (ℕ × Bytes × Bytes)
  get_data_block inode_number block_idx inode bytes = do
    entry ← lift (block_entry block_idx inode)
    if not (entry == 0)
        then (do (status, bytes') ← retreive entry bytes; pure (status, inode, bytes'))
        else do
          free_block_number ← find_first_empty_data_block d stack behind inode_number
          (status, bytes') ← retreive free_block_number bytes
          pure (status, put_field 4 (16 + 4 * block_idx) free_block_number inode, bytes')

  -- A block of `my_file_system_read` with its test; the last block goes without.
  unfoldable pub read_part :
      ℕ → ℕ → ℕ → Bytes → Bytes × ℕ → Bytes → Disk d stack behind ((Bytes × ℕ) × Bytes)
  read_part starting_byte ending_byte block_idx inode buffer bytes = do
    block_number ← lift (block_entry block_idx inode)
    (status, bytes') ← retreive block_number bytes
    if status == minus_one then exit 0 else do
      buffer' ← lift (read_helper starting_byte ending_byte buffer bytes')
      pure (buffer', bytes')

  -- The loop over the blocks between: rounds left and block index.
  unfoldable pub read_loop :
      ℕ → ℕ → Bytes → Bytes × ℕ → Bytes → Disk d stack behind ((Bytes × ℕ) × Bytes)
  read_loop zero curr_block_idx inode buffer bytes = pure (buffer, bytes)
  read_loop (suc k) curr_block_idx inode buffer bytes = do
    (buffer', bytes') ← read_part 0 bytes_per_block curr_block_idx inode buffer bytes
    read_loop k (curr_block_idx + 1) inode buffer' bytes'

  unfoldable pub read_blocks : ℕ → ℕ → Bytes → Bytes → Disk d stack behind (Bytes × ℕ)
  read_blocks position size inode buffer = do
    let starting_block = quotient_u64 position bytes_per_block
    let last = add_int (add_int position size) minus_one
    let ending_block = quotient_u64 last bytes_per_block
    let first_byte = remainder_u64 position bytes_per_block
    if starting_block == ending_block
        then (do
          (buffer', bytes) ←
              read_part first_byte (add_int first_byte size) starting_block inode (buffer, 0) stack
          pure buffer')
        else do
          (buffer', bytes) ←
              read_part first_byte bytes_per_block starting_block inode (buffer, 0) stack
          (buffer'', bytes') ←
              read_loop (rounds_between (starting_block + 1) ending_block) (starting_block + 1)
                inode buffer' bytes
          block_number ← lift (block_entry ending_block inode)
          (status, bytes'') ← retreive block_number bytes'
          lift (read_helper 0 (remainder_u64 last bytes_per_block + 1) buffer'' bytes'')

  -- The status, and the caller's buffer afterwards.
  unfoldable pub my_file_system_read : ℕ → ℕ → Bytes → ℕ → Files d stack behind (ℕ × Bytes)
  my_file_system_read now file_descriptor buffer size =
      with_file file_descriptor (exit 0) (λ my_file.
        if lt_int my_file.file_size (add_int size my_file.position)
        then pure (minus_one, buffer)
        else do
          inode ←
              on_disk (read_inode_info d stack behind my_file.inode_number (take inode_bytes stack))
          if hard_link_count inode == 0
              then (on_disk (destroy_inode d stack behind inode) >> pure (minus_one, buffer))
              else do
                let accessed = put_field 8 64 now inode
                (buffer', ptr) ← on_disk (read_blocks my_file.position size accessed buffer)
                set_file file_descriptor
                    (record my_file { position = add_int my_file.position size })
                on_disk (destroy_inode d stack behind accessed)
                pure (0, buffer'))

  -- `get_data_block`, `write_helper` and `write_block_disk_helper`, whose status is dropped: the
  -- inode, the block and the source offset afterwards.
  unfoldable pub write_part :
      ℕ → ℕ → ℕ → ℕ → Bytes → Bytes → Bytes → ℕ → Disk d stack behind (Bytes × Bytes × ℕ)
  write_part inode_number block_idx starting_byte ending_byte inode bytes buffer ptr = do
    (status, inode', bytes') ← get_data_block inode_number block_idx inode bytes
    (bytes'', ptr') ← lift (write_helper starting_byte ending_byte bytes' buffer ptr)
    block_number ← lift (block_entry block_idx inode')
    write_out d stack behind block_number bytes''
    pure (inode', bytes'', ptr')

  -- The loop over whole blocks: rounds left and block index.
  unfoldable pub write_part_loop :
      ℕ → ℕ → ℕ → Bytes → Bytes → Bytes → ℕ → Disk d stack behind (Bytes × Bytes × ℕ)
  write_part_loop inode_number zero block_idx inode bytes buffer ptr = pure (inode, bytes, ptr)
  write_part_loop inode_number (suc k) block_idx inode bytes buffer ptr = do
    (inode', bytes', ptr') ←
        write_part inode_number block_idx 0 bytes_per_block inode bytes buffer ptr
    write_part_loop inode_number k (block_idx + 1) inode' bytes' buffer ptr'

  -- The inode after the writes of `my_file_system_write`: its loop starts at the first block again.
  unfoldable pub write_blocks : MyFile → ℕ → Bytes → Bytes → Disk d stack behind Bytes
  write_blocks file size inode buffer = do
    let n = file.inode_number
    let starting_block = quotient_u64 file.file_size bytes_per_block
    let last = add_int (add_int file.position size) minus_one
    let ending_block = quotient_u64 last bytes_per_block
    if starting_block == ending_block
        then (do
          let starting_byte = remainder_u64 file.file_size bytes_per_block
          (inode', bytes, ptr) ←
              write_part n starting_block starting_byte (add_int starting_byte size) inode stack
                buffer 0
          pure inode')
        else do
          (inode', bytes, ptr) ←
              write_part n starting_block (remainder_u64 file.position bytes_per_block)
                bytes_per_block inode stack buffer 0
          (inode'', bytes', ptr') ←
              write_part_loop n (rounds_between starting_block ending_block) starting_block inode'
                bytes buffer ptr
          (inode''', bytes'', ptr'') ←
              write_part n ending_block 0 (remainder_u64 last bytes_per_block + 1) inode'' bytes'
                buffer ptr'
          pure inode'''

  unfoldable pub my_file_system_write : ℕ → ℕ → Bytes → ℕ → Files d stack behind ℕ
  my_file_system_write now file_descriptor buffer size =
      with_file file_descriptor (exit 0) (λ my_file.
        let new_size = add_int size my_file.file_size in
        if ltb (blocks_per_inode * bytes_per_block) (to_u64 new_size) then exit 0 else do
          inode ←
              on_disk (read_inode_info d stack behind my_file.inode_number (take inode_bytes stack))
          if hard_link_count inode == 0
              then (on_disk (destroy_inode d stack behind inode) >> pure minus_one)
              else do
                let modified = put_field 8 72 now (put_field 4 8 new_size inode)
                inode' ← on_disk (write_blocks my_file size modified buffer)
                set_file file_descriptor (record my_file { file_size = new_size })
                on_disk (destroy_inode d stack behind inode')
                pure 0)

  -- The inode after the writes of `my_file_system_write_at`, which takes `BLOCKS_PER_INODE` for the
  -- size of a block.
  unfoldable pub write_blocks_at : ℕ → ℕ → ℕ → Bytes → Bytes → Disk d stack behind Bytes
  write_blocks_at n start_position size inode buffer = do
    let end_position = add_int start_position size
    let starting_block = quotient_u64 start_position blocks_per_inode
    let ending_block = quotient_u64 (add_int end_position minus_one) blocks_per_inode
    let starting_byte = remainder_u64 start_position bytes_per_block
    if starting_block == ending_block
        then (do
          (inode', bytes, ptr) ←
              write_part n starting_block starting_byte end_position inode stack buffer 0
          pure inode')
        else do
          (inode', bytes, ptr) ←
              write_part n starting_block starting_byte bytes_per_block inode stack buffer 0
          (inode'', bytes', ptr') ←
              write_part_loop n (rounds_between (starting_block + 1) ending_block)
                (starting_block + 1) inode' bytes buffer ptr
          (inode''', bytes'', ptr'') ←
              write_part n ending_block 0 (remainder_u64 end_position bytes_per_block) inode''
                bytes' buffer ptr'
          pure inode'''

  unfoldable pub my_file_system_write_at : ℕ → ℕ → ℕ → Bytes → ℕ → Files d stack behind ℕ
  my_file_system_write_at now file_descriptor start_position buffer size =
      with_file file_descriptor (pure minus_one) (λ my_file.
        if not (bit_and my_file.permissions 4 == 0) then pure minus_one else do
          inode ←
              on_disk (read_inode_info d stack behind my_file.inode_number (take inode_bytes stack))
          inode' ← on_disk (
              write_blocks_at my_file.inode_number start_position size (put_field 8 72 now inode)
                buffer)
          on_disk (destroy_inode d stack behind inode')
          pure 1)
