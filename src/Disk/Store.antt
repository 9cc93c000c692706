-- ===== src/Disk/Store.antt =====
-- What the file system takes from a disk: sectors by number. The record of the two operations, and
-- the laws that a working disk has. `Disk.Image` shows that `Disk` over a regular file has them.
use ex2_file_system.Memory.{Bytes}
use ex2_file_system.Base.{ℕ, ◌+◌, ◌*◌, ◌/◌, ◌^◌, ◌<◌, ◌≡◌, length, if◌then◌else◌, ◌==◌}

-- shared_types.h: `NUM_SECTORS`, the sectors that the image has.
abbrev pub num_sectors : ℕ
num_sectors = (2 ^ 30 + 3 * 1024) / 512

pub record SectorStore : Type 1 where
  pub State : Type 0
  -- Sector number and the caller's buffer; the status, the buffer afterwards, the new state.
  pub populate_sector : ℕ → Bytes → State → ℕ × Bytes × State
  pub write_sector : ℕ → Bytes → State → ℕ × State

pub record IsDisk (d : SectorStore) : Type 1 where
  -- The image is at least as large as the disk.
  pub IsReady : d.State → Type 0
  pub sector : d.State → ℕ → Bytes
  pub length-sector : (s : d.State) (n : ℕ) → length (sector s n) ≡ 512
  pub populate_status :
      (n : ℕ) (buffer : Bytes) (s : d.State)
      → IsReady s
      → n < num_sectors
      → (d.populate_sector n buffer s).0 ≡ 0
  pub populate_buffer :
      (n : ℕ) (buffer : Bytes) (s : d.State)
      → IsReady s
      → n < num_sectors
      → length buffer ≡ 512
      → (d.populate_sector n buffer s).1 ≡ sector s n
  pub populate_sectors :
      (n : ℕ) (buffer : Bytes) (s : d.State) (m : ℕ)
      → sector (d.populate_sector n buffer s).2 m ≡ sector s m
  pub populate-IsReady :
      (n : ℕ) (buffer : Bytes) (s : d.State) → IsReady s → IsReady (d.populate_sector n buffer s).2
  pub write_status :
      (n : ℕ) (buffer : Bytes) (s : d.State)
      → n < num_sectors
      → length buffer ≡ 512
      → (d.write_sector n buffer s).0 ≡ 0
  pub write_sectors :
      (n : ℕ) (buffer : Bytes) (s : d.State) (m : ℕ)
      → n < num_sectors
      → length buffer ≡ 512
      → sector (d.write_sector n buffer s).1 m ≡ (if n == m then buffer else sector s m)
  pub write-IsReady :
      (n : ℕ) (buffer : Bytes) (s : d.State)
      → n < num_sectors
      → length buffer ≡ 512
      → IsReady s
      → IsReady (d.write_sector n buffer s).1
