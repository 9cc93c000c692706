-- ===== src/Block/Tests.antt =====
-- Blocks of a blank image.
use ex2_file_system.Memory.{Bytes, overwrite}
use ex2_file_system.Disk.Tests.{image_disk, image-IsDisk, blank, blank-IsReady, RamFile}
use ex2_file_system.Block.{write_block_disk_helper, retreive_block_disk_helper}
use ex2_file_system.Block.Transfer.{block, write_block_lem, read_block_lem}
use ex2_file_system.Base.{ℕ, ◌≡◌, ◌==◌, if◌then◌else◌, take, replicate, arith, length-replicate}

abbrev ones : Bytes
ones = replicate 1024 1

abbrev contents : RamFile → ℕ → Bytes
contents = block image_disk image-IsDisk

write_block_example :
    ((write_block_disk_helper image_disk 7 ones blank).0 ≡ 0)
    × ((m : ℕ)
        → contents (write_block_disk_helper image_disk 7 ones blank).1 m
          ≡ (if 7 == m then take 1024 ones else contents blank m))
    × (image-IsDisk.IsReady blank
        → image-IsDisk.IsReady (write_block_disk_helper image_disk 7 ones blank).1)
write_block_example =
    write_block_lem image_disk image-IsDisk 7 ones blank (omega arith)
      (omega (arith, length-replicate {A = ℕ} 1024 1))

read_block_example :
    ((retreive_block_disk_helper image_disk 7 ones blank).0 ≡ 0)
    × ((retreive_block_disk_helper image_disk 7 ones blank).1 ≡ overwrite ones 0 (contents blank 7))
    × ((m : ℕ)
        → contents (retreive_block_disk_helper image_disk 7 ones blank).2 m ≡ contents blank m)
    × image-IsDisk.IsReady (retreive_block_disk_helper image_disk 7 ones blank).2
read_block_example = read_block_lem image_disk image-IsDisk 7 ones blank blank-IsReady (omega arith)
