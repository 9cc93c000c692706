-- ===== src/BufferPool.antt =====
-- buffer_pool/buffer_pool.h and buffer_pool.cpp: `BufferPool`, memory blocks by block number, with the
-- blocks that may be taken away on a `LinkedList` of nodes. `node_data` is the `data` of the nodes, the
-- address of a `MemoryBlock` in `memory`: the number in bytes 0 to 3, `os_operated` in byte 4,
-- `is_dirty` in byte 5 and `data` from byte 6 on. Addresses are chosen by the allocator, as arguments;
-- memory that `malloc` returns holds what it held. The build leaves the directory out.
pub mod Cached
pub mod Eviction
pub mod Tests
use ex2_file_system.Memory.{Bytes, from_bytes}
use ex2_file_system.Disk.{bytes_from, written}
use ex2_file_system.Disk.Store.{SectorStore}
use ex2_file_system.Block.{write_block_disk_helper, retreive_block_disk_helper}
use ex2_file_system.Block.Transfer.{num_blocks}
use ex2_file_system.LinkedList.{
  Ptr, null, Heap, LinkedList, unlink, insert_head, insert_tail, get_tail, create,
}
use ex2_file_system.Effect.{Run, Outcome, done, undefined, pure, lift, exit, ◌>>=◌, ◌>>◌}
use ex2_file_system.Base.{
  ℕ, zero, suc, ◌+◌, ◌*◌, ◌==◌, ◌||◌, not, Bool, true, false, if◌then◌else◌, Option, none, some,
  List, [], ◌∷◌, leb, to_u64, is_negative, minus_one,
}

-- `map<int, BlockListNode<MemoryBlock *> *>`
abbrev pub NodeMap : Type 0
NodeMap = List (ℕ × Ptr)

abbrev pub find_node : ℕ → NodeMap → Option Ptr
find_node k [] = none
find_node k ((j, p) ∷ mp) = if k == j then some p else find_node k mp

abbrev pub put_node : ℕ → Ptr → NodeMap → NodeMap
put_node k p mp = (k, p) ∷ mp

pub record BufferPool (S : Type 0) : Type 0 where
  pub free_list : LinkedList
  pub mp_block_list_node : NodeMap
  pub heap : Heap
  pub node_data : Ptr → ℕ
  pub memory : ℕ → ℕ
  pub disk : S

-- The members of the `MemoryBlock` at an address.
abbrev pub block_number : ℕ → (ℕ → ℕ) → ℕ
block_number p memory = from_bytes (bytes_from memory p 4)

abbrev pub is_set_at : ℕ → (ℕ → ℕ) → Bool
is_set_at p memory = not (memory p == 0)

abbrev pub set_byte : ℕ → ℕ → (ℕ → ℕ) → ℕ → ℕ
set_byte p b memory q = if p == q then b else memory q

abbrev pub data_bytes : ℕ
data_bytes = 2048

module _ {S : Type 0} where
  -- An operation on the list's heap.
  abbrev pub from_list : {A : Type 0} → BufferPool S → Option (A × Heap) → Outcome (BufferPool S) A
  from_list pool none = undefined
  from_list pool (some (a, h)) = done a (record pool { heap = h })

  -- `mp_block_list_node[block_number]`, which enters `nullptr` for a number that is missing.
  abbrev pub node_of : Option Ptr → ℕ → Run (BufferPool S) Ptr
  node_of none number pool =
      done null (record pool { mp_block_list_node = put_node number null pool.mp_block_list_node })
  node_of (some p) number pool = done p pool

  abbrev pub node_at : ℕ → Run (BufferPool S) Ptr
  node_at number pool = node_of (find_node number pool.mp_block_list_node) number pool

  unfoldable pub lock : ℕ → Run (BufferPool S) ℕ
  lock number = do
    list_node ← node_at number
    λ pool. from_list pool (unlink pool.free_list list_node pool.heap)

  unfoldable pub get_victim : Run (BufferPool S) Ptr
  get_victim pool = lift (get_tail pool.free_list pool.heap) pool

-- `malloc` of a node and of a block for it, when no node can be taken away.
unfoldable pub operated_by_os : {S : Type 0} → Ptr → ℕ → Run (BufferPool S) Ptr
operated_by_os node block pool = done node (record pool {
  heap = record pool.heap { allocated = λ q. if node == q then true else pool.heap.allocated q };
  node_data = λ q. if node == q then block else pool.node_data q;
  memory = set_byte (block + 4) 1 pool.memory;
})

module _ (d : SectorStore) where
  abbrev pub Pool : Type 0 → Type 0
  Pool = Run (BufferPool d.State)

  unfoldable pub force_flush_memory_block : ℕ → Pool ℕ
  force_flush_memory_block block pool =
      let number = block_number block pool.memory in
      if number == minus_one || not (is_set_at (block + 5) pool.memory)
      then done 0 pool
      else let (status, s) =
          write_block_disk_helper d number (bytes_from pool.memory (block + 6) data_bytes)
            pool.disk in
        done status (record pool { memory = set_byte (block + 5) 0 pool.memory; disk = s })

  unfoldable pub read_memory_block_helper : ℕ → ℕ → Pool ℕ
  read_memory_block_helper number block pool =
      let (status, bytes, s) =
        retreive_block_disk_helper d number (bytes_from pool.memory (block + 6) data_bytes)
          pool.disk in
      done status (record pool { memory = written pool.memory (block + 6) bytes; disk = s })

  -- The victim's node, or a new one with the two addresses.
  abbrev pub take_node : Ptr → ℕ → Pool Ptr
  take_node node block = do
    victim_node ← get_victim
    if victim_node == null then operated_by_os node block else pure victim_node

  -- The lines of `get` for a block that is not in the pool.
  unfoldable pub load : Ptr → ℕ → ℕ → Pool ℕ
  load node block number = do
    victim_node ← take_node node block
    λ pool.
        (do
          force_flush_memory_block (pool.node_data victim_node)
          status ← read_memory_block_helper number (pool.node_data victim_node)
          if status == minus_one then pure null else do
            (λ pool'. done tt (record pool' {
              mp_block_list_node = put_node number victim_node pool'.mp_block_list_node;
            }))
            status' ← lock number
            pure (if status' == minus_one then null else pool.node_data victim_node))
          pool

  -- The address of the block, or `nullptr`.
  unfoldable pub get : Ptr → ℕ → ℕ → Pool ℕ
  get node block number pool =
      if leb num_blocks (to_u64 number) || is_negative number
      then done null pool
      else elim (find_node number pool.mp_block_list_node) [
        | none ↦ load node block number pool
        | some p ↦
            (do
              lock number
              list_node ← node_at number
              λ pool'. done (pool'.node_data list_node) pool')
              pool
      ]

  -- `delete list_node` makes the node's address invalid.
  unfoldable pub free : ℕ → Pool ℕ
  free number = do
    list_node ← node_at number
    λ pool.
        (if not (pool.heap.allocated list_node)
          then undefined
          else if is_set_at (pool.node_data list_node + 4) pool.memory
          then (do
            status ← force_flush_memory_block (pool.node_data list_node)
            if status == minus_one then pure status else λ pool'. done status (record pool' {
              heap = record pool'.heap {
                allocated = λ q. if list_node == q then false else pool'.heap.allocated q;
              };
            }))
              pool
          else (do
            (λ pool'. from_list pool' (insert_head pool'.free_list list_node pool'.heap))
            pure 0)
              pool)

  -- The loop of `allocate_memory_regions`: the nodes still to make, and `start_ptr`.
  unfoldable pub allocate_loop : List Ptr → ℕ → Pool (Unit {0})
  allocate_loop [] start_ptr = pure tt
  allocate_loop (node ∷ nodes) start_ptr = do
    (λ pool.
        from_list
          (record pool { node_data = λ q. if node == q then start_ptr else pool.node_data q })
          (insert_tail pool.free_list node (record pool.heap {
            allocated = λ q. if node == q then true else pool.heap.allocated q;
          })))
    allocate_loop nodes (start_ptr + 1024)

  -- `mlock_status` is what `mlock` returns, `nodes` what `malloc` returns in the `num_blocks` rounds.
  unfoldable pub allocate_memory_regions : ℕ → ℕ → List Ptr → Pool ℕ
  allocate_memory_regions mlock_status region nodes =
      if mlock_status == minus_one then pure minus_one else (allocate_loop nodes region >> pure 0)

  -- The body of the constructor, on an object whose list is constructed.
  unfoldable pub construct : ℕ → ℕ → List Ptr → Pool ℕ
  construct mlock_status region nodes = do
    status ← allocate_memory_regions mlock_status region nodes
    if status == minus_one then exit 0 else pure 0
