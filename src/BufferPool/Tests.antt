-- ===== src/BufferPool/Tests.antt =====
-- A pool of one node over an image of zeros.
use ex2_file_system.LinkedList.{Heap}
use ex2_file_system.LinkedList.Shape.{Holds, IsLoose}
use ex2_file_system.LinkedList.Tests.{cells, list, five, cells-Holds, seven-IsLoose}
use ex2_file_system.Disk.{bytes_from}
use ex2_file_system.Disk.Store.{IsDisk}
use ex2_file_system.Disk.Tests.{image_disk, image-IsDisk, RamFile, blank, blank-IsReady}
use ex2_file_system.Block.Transfer.{block}
use ex2_file_system.BufferPool.{BufferPool, find_node, get, free}
use ex2_file_system.BufferPool.Cached.{get-cached, free-cached}
use ex2_file_system.BufferPool.Eviction.{get-evicts, get-stale}
use ex2_file_system.Effect.{done}
use ex2_file_system.Base.{ℕ, ◌≡◌, ◌==◌, refl, some, [], ◌∷◌, if◌then◌else◌, arith}

-- Node 5 waits on the list, with memory at 1000, and number 9 is mapped to it.
abbrev pool : BufferPool RamFile
pool = record {
  free_list = list;
  mp_block_list_node = (9, 5) ∷ (8, 7) ∷ [];
  heap = cells;
  node_data = λ q. 1000;
  memory = λ q. 0;
  disk = blank;
}

get-cached_example :
    (h : Heap) × (get image_disk 3 4000 9 pool ≡ done 1000 (record pool { heap = h }))
    × Holds h list []
    × IsLoose h 5
get-cached_example = get-cached image_disk pool 9 5 refl 3 4000 [] [] (omega arith) cells-Holds

free-cached_example :
    (h : Heap) × (free image_disk 8 pool ≡ done 0 (record pool { heap = h }))
    × Holds h list (7 ∷ five)
free-cached_example = free-cached image_disk pool 8 7 refl five cells-Holds seven-IsLoose refl refl

get-evicts_example :
    (pool' : BufferPool RamFile) × (get image_disk 3 4000 12 pool ≡ done 1000 pool')
    × Holds pool'.heap pool'.free_list []
    × IsLoose pool'.heap 5
    × ((m : ℕ)
        → find_node m pool'.mp_block_list_node
          ≡ (if m == 12 then some 5 else find_node m pool.mp_block_list_node))
    × (bytes_from pool'.memory 1006 1024 ≡ block image_disk image-IsDisk blank 12)
    × IsDisk.IsReady image-IsDisk pool'.disk
    × ((m : ℕ) → block image_disk image-IsDisk pool'.disk m ≡ block image_disk image-IsDisk blank m)
get-evicts_example =
    get-evicts image_disk image-IsDisk pool 12 5 [] 3 4000 (omega arith) refl cells-Holds refl
      blank-IsReady

get-stale_example :
    (pool' : BufferPool RamFile) × (heap : Heap) × (get image_disk 3 4000 12 pool ≡ done 1000 pool')
    × (get image_disk 3 4000 9 pool' ≡ done 1000 (record pool' { heap = heap }))
    × (bytes_from pool'.memory 1006 1024 ≡ block image_disk image-IsDisk blank 12)
get-stale_example =
    get-stale image_disk image-IsDisk pool 12 5 [] 3 4000 (omega arith) refl cells-Holds refl
      blank-IsReady 9 (omega arith) refl
