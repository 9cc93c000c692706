-- ===== src/Block.antt =====
-- helpers/helpers.h: blocks of 1024 bytes, two sectors each, over the disk that is the section's
-- parameter. An `int` is its pattern below 2 ^ 32.
pub mod Transfer
pub mod Tests
use ex2_file_system.Memory.{Bytes, overwrite, slice}
use ex2_file_system.Disk.Store.{SectorStore}
use ex2_file_system.Base.{
  ℕ, zero, suc, ◌+◌, ◌*◌, ◌/◌, ◌%◌, ◌==◌, if◌then◌else◌, minus_one, int_mod, take, drop, replicate,
}

-- shared_types.h
abbrev pub block_size : ℕ
block_size = 2 * 512

abbrev pub sector_size : ℕ
sector_size = 512

abbrev pub sectors_per_block : ℕ
sectors_per_block = block_size / sector_size

module _ (d : SectorStore) where
  -- The loop of `write_block_disk_helper`, with the rounds left, the sector number and what
  -- `start_ptr` points at.
  unfoldable pub write_loop : ℕ → ℕ → Bytes → d.State → ℕ × d.State
  write_loop zero sector_number start s = (0, s)
  write_loop (suc k) sector_number start s =
      let (status, s') = d.write_sector sector_number (take sector_size start) s in
      let rest = write_loop k ((sector_number + 1) % int_mod) (drop sector_size start) s' in
      if status == minus_one then (minus_one, s') else rest

  unfoldable pub write_block_disk_helper : ℕ → Bytes → d.State → ℕ × d.State
  write_block_disk_helper block_number bytes s =
      write_loop sectors_per_block (block_number * sectors_per_block % int_mod) bytes s

  -- The loop of `retreive_block_disk_helper`: rounds left, round number, sector number, the local
  -- `buffer` and the buffer of `disk_sector`.
  unfoldable pub read_loop : ℕ → ℕ → ℕ → Bytes → Bytes → d.State → ℕ × Bytes × d.State
  read_loop zero i sector_number buffer disk_sector s = (0, buffer, s)
  read_loop (suc k) i sector_number buffer disk_sector s =
      let (status, disk_sector', s') = d.populate_sector sector_number disk_sector s in
      let rest =
        read_loop k (i + 1) ((sector_number + 1) % int_mod)
          (overwrite buffer (i * sector_size) (take sector_size disk_sector')) disk_sector' s' in
      if status == minus_one then (minus_one, buffer, s') else rest

  -- The two locals start as whatever the stack holds, here as zeros: a successful call has
  -- overwritten both, and a failed one drops them. `bytes` is the caller's `block->data`.
  unfoldable pub retreive_block_disk_helper : ℕ → Bytes → d.State → ℕ × Bytes × d.State
  retreive_block_disk_helper block_number bytes s =
      let (status, buffer, s') =
        read_loop sectors_per_block 0 (block_number * sectors_per_block % int_mod)
          (replicate block_size 0) (replicate sector_size 0) s in
      if status == minus_one then (minus_one, bytes, s') else (0, overwrite bytes 0 buffer, s')
