-- ===== src/FileSystem/Blocks/Reading.antt =====
-- `read_blocks` where the bytes lie in one block.
use ex2_file_system.Memory.{Bytes, overwrite, slice, get_field, length-overwrite}
use ex2_file_system.Memory.Copies.{slice-overwrite_front}
use ex2_file_system.Disk.Store.{SectorStore, IsDisk}
use ex2_file_system.Block.Transfer.{block, num_blocks, after_both, read_steps, length-block}
use ex2_file_system.FileSystem.Blocks.{
  read_blocks, read_part, read_helper, block_entry, bytes_per_block, quotient_u64, remainder_u64,
  add_int,
}
use ex2_file_system.Effect.{done}
use ex2_file_system.Base.{
  ℕ, ◌+◌, ◌-◌, ◌*◌, ◌/◌, ◌%◌, ◌≤◌, ◌<◌, ◌≡◌, ap₂, ◌∙◌, some, length, arith, le→leb, lt→ltb,
  minus_one, ==_refl,
}

-- Inside both objects `read_helper` copies.
read_helper_lem :
    (start end : ℕ) (destination : Bytes) (ptr : ℕ) (src : Bytes)
    → start ≤ end
    → end ≤ length src
    → ptr + (end - start) ≤ length destination
    → read_helper start end (destination, ptr) src
      ≡ some (overwrite destination ptr (slice start (end - start) src), ptr + (end - start))
unfolding read_helper
read_helper_lem start end destination ptr src h k room = rw (
  le→leb start end h,
  le→leb end (length src) k,
  le→leb (ptr + (end - start)) (length destination) room,
)

pub entry_lem :
    (i : ℕ) (inode : Bytes) → i < 9 → block_entry i inode ≡ some (get_field 4 (16 + 4 * i) inode)
unfolding block_entry
entry_lem i inode h = rw (lt→ltb i 9 h)

module _ (d : SectorStore) (disk : IsDisk d) (stack behind : Bytes)
    (big : length stack ≡ 2048) where
  -- One block of a read, into the local block.
  read_part_lem :
      (s : d.State) (start end i : ℕ) (inode destination : Bytes) (ptr : ℕ) (bytes : Bytes)
      → disk.IsReady s
      → i < 9
      → get_field 4 (16 + 4 * i) inode < num_blocks
      → start ≤ end
      → end ≤ 1024
      → ptr + (end - start) ≤ length destination
      → length bytes ≡ 2048
      → read_part d stack behind start end i inode (destination, ptr) bytes s
        ≡ done
            (
              (
                overwrite destination ptr
                    (slice start (end - start) (block d disk s (get_field 4 (16 + 4 * i) inode))),
                ptr + (end - start),
              ),
              overwrite bytes 0 (block d disk s (get_field 4 (16 + 4 * i) inode)),
            )
            (after_both d disk s (get_field 4 (16 + 4 * i) inode))
  unfolding read_part
  read_part_lem s start end i inode destination ptr bytes ready h inside le le' room long =
      let n = get_field 4 (16 + 4 * i) inode in
      let len : length (overwrite bytes 0 (block d disk s n)) ≡ 2048 =
        length-overwrite bytes 0 (block d disk s n) ∙ long in
      simp (
        entry_lem i inode h,
        read_steps d disk n bytes s ready inside,
        read_helper_lem start end destination ptr (overwrite bytes 0 (block d disk s n)) le
            (omega arith) room,
        slice-overwrite_front bytes (block d disk s n) start (end - start)
            (omega (arith, length-block d disk s n)) (omega (arith, length-block d disk s n)),
      )

  -- When the bytes to read lie in one block of the file and the inode names a block of a ready disk
  -- for it, the read succeeds, puts these bytes at the front of the buffer, and moves the pointer
  -- behind them.
  pub read_blocks_lem :
      (s : d.State) (position size : ℕ) (inode buffer : Bytes)
      → disk.IsReady s
      → 0 < size
      → position % 1024 + size ≤ 1024
      → position < 9 * 1024
      → get_field 4 (16 + 4 * (position / 1024)) inode < num_blocks
      → size ≤ length buffer
      → read_blocks d stack behind position size inode buffer s
        ≡ done
            (
              overwrite buffer 0 (
                  slice
                    (position % 1024)
                    size
                    (block d disk s (get_field 4 (16 + 4 * (position / 1024)) inode))),
              size,
            )
            (after_both d disk s (get_field 4 (16 + 4 * (position / 1024)) inode))
  unfolding read_blocks
  read_blocks_lem s position size inode buffer ready some_bytes one_block inside on_disk room =
      simp
        (
          first,
          last,
          first_byte,
          ending,
          ==_refl (position / 1024),
          read_part_lem s (position % 1024) (position % 1024 + size) (position / 1024) inode buffer
              0 stack ready (omega arith) on_disk (omega arith) one_block (omega arith) big,
        )
        (ap₂
          (λ k moved.
            done (overwrite buffer 0 (slice (position % 1024) k (block d disk s n)), moved)
              (after_both d disk s n))
          only (omega arith))
    where
      first : quotient_u64 position bytes_per_block ≡ position / 1024
      first = ground arith

      last :
          quotient_u64 (add_int (add_int position size) minus_one) bytes_per_block ≡ position / 1024
      last = ground arith

      first_byte : remainder_u64 position bytes_per_block ≡ position % 1024
      first_byte = ground arith

      ending : add_int (position % 1024) size ≡ position % 1024 + size
      ending = omega arith

      n : ℕ
      n = get_field 4 (16 + 4 * (position / 1024)) inode

      only : position % 1024 + size - position % 1024 ≡ size
      only = omega arith
