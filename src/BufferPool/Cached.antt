-- ===== src/BufferPool/Cached.antt =====
-- A block that is in the pool, and one that is given back.
use ex2_file_system.LinkedList.{Ptr, Heap}
use ex2_file_system.LinkedList.Shape.{has, Holds, IsLoose}
use ex2_file_system.LinkedList.Unlink.{unlink-Holds}
use ex2_file_system.LinkedList.Insert.{insert_head-Holds}
use ex2_file_system.Disk.Store.{SectorStore}
use ex2_file_system.Block.Transfer.{num_blocks}
use ex2_file_system.BufferPool.{BufferPool, find_node, is_set_at, lock, get, free}
use ex2_file_system.Effect.{done}
use ex2_file_system.Base.{
  ℕ, ◌+◌, ◌<◌, ◌≡◌, ◌||◌, false, List, [], ◌∷◌, ◌++◌, some, arith, leb, to_u64, is_negative,
}

-- A number that is below the blocks of the disk passes the first test of `get`.
pub in_range :
    (number : ℕ)
    → number < num_blocks
    → (leb num_blocks (to_u64 number) || is_negative number) ≡ false
in_range number h = ground arith

module _ (d : SectorStore) (pool : BufferPool d.State) (number : ℕ) (p : Ptr)
    (cached : find_node number pool.mp_block_list_node ≡ some p) where
  -- A block in the pool whose node waits on the list: `get` returns its address and takes the node
  -- off the list. Memory and disk stay as they are, so nothing is read.
  pub get-cached :
      (node block : ℕ) (us vs : List Ptr)
      → number < num_blocks
      → Holds pool.heap pool.free_list (us ++ p ∷ vs)
      → (h : Heap) × (get d node block number pool
          ≡ done (pool.node_data p) (record pool { heap = h }))
        × Holds h pool.free_list (us ++ vs)
        × IsLoose h p
  unfolding get lock
  get-cached node block us vs h holds =
      let (heap, runs, holds', loose) = unlink-Holds pool.free_list pool.heap us vs p holds in
      (heap, simp (in_range number h, cached, runs), holds', loose)

  -- A block of the pool's own memory whose node is off the list: `free` returns 0 and puts the node at
  -- the head of the list. Memory and disk stay as they are, so nothing is written.
  pub free-cached :
      (xs : List Ptr)
      → Holds pool.heap pool.free_list xs
      → IsLoose pool.heap p
      → has p (pool.free_list.head ∷ xs ++ pool.free_list.tail ∷ []) ≡ false
      → is_set_at (pool.node_data p + 4) pool.memory ≡ false
      → (h : Heap) × (free d number pool ≡ done 0 (record pool { heap = h }))
        × Holds h pool.free_list (p ∷ xs)
  unfolding free
  free-cached xs holds loose out own =
      let (heap, runs, holds') = insert_head-Holds pool.free_list pool.heap xs p holds loose out in
      (heap, simp (cached, loose.live, own, runs), holds')
