-- ===== src/BufferPool/Eviction.antt =====
-- A block that is not in the pool takes the place of the last one on the list.
use mathlib.Core.List.{append-nil}
use mathlib.Core.Option.{some-ne-none}
use ex2_file_system.Memory.{Bytes, overwrite, length-overwrite}
use ex2_file_system.Memory.Copies.{take-overwrite_front}
use ex2_file_system.LinkedList.{Ptr, Heap, null, unlink}
use ex2_file_system.LinkedList.Shape.{Holds, IsLoose, has-append}
use ex2_file_system.LinkedList.Unlink.{unlink-Holds}
use ex2_file_system.LinkedList.Insert.{unlinked, unlink_loose}
use ex2_file_system.LinkedList.Last.{get_tail-Holds, last_not_sentinel}
use ex2_file_system.Disk.{bytes_from, written}
use ex2_file_system.Disk.Image.{bytes_from-written}
use ex2_file_system.Disk.Store.{SectorStore, IsDisk}
use ex2_file_system.Block.Transfer.{
  block, num_blocks, after_both, read_steps, length-block, block-after_both, after_both-IsReady,
}
use ex2_file_system.BufferPool.{
  BufferPool, find_node, put_node, is_set_at, block_number, data_bytes, lock, get, get_victim, load,
  take_node, force_flush_memory_block, read_memory_block_helper,
}
use ex2_file_system.BufferPool.Cached.{in_range}
use ex2_file_system.Effect.{done}
use ex2_file_system.Base.{
  ℕ, zero, suc, ==_refl, Bool-cases, inl, inr, minus_one, ◌+◌, ◌<◌, ◌≤◌, ◌≡◌, ◌==◌, false, ==_refl,
  true, List, [], ◌∷◌, ◌++◌, none, some, arith, refl, ap, sym, ◌∙◌, subst, length, take, take_all,
  if◌then◌else◌,
}

-- A read of fewer bytes is the front of a longer one.
take-bytes_from :
    (c : ℕ → ℕ) (n m pos : ℕ) → n ≤ m → take n (bytes_from c pos m) ≡ bytes_from c pos n
unfolding bytes_from
take-bytes_from c zero m pos h = refl
take-bytes_from c (suc n) zero pos h = absurd (omega arith)
take-bytes_from c (suc n) (suc m) pos h =
    ap (◌∷◌ (c pos)) (take-bytes_from c n m (pos + 1) (omega arith))

length-bytes_from : (c : ℕ → ℕ) (pos n : ℕ) → length (bytes_from c pos n) ≡ n
unfolding bytes_from
length-bytes_from c pos zero = refl
length-bytes_from c pos (suc n) = ap suc (length-bytes_from c (pos + 1) n)

-- Behind a copy of 1024 bytes to the front of a block's data these are its first bytes.
loaded_bytes :
    (c : ℕ → ℕ) (pos : ℕ) (bs : Bytes)
    → length bs ≡ 1024
    → bytes_from (written c pos (overwrite (bytes_from c pos data_bytes) 0 bs)) pos 1024 ≡ bs
loaded_bytes c pos bs len =
    sym (take-bytes_from (written c pos all) 1024 data_bytes pos (omega arith))
    ∙ ap (take 1024) (
        subst (λ n. bytes_from (written c pos all) pos n ≡ all) whole
          (bytes_from-written c pos all))
    ∙ take-overwrite_front (bytes_from c pos data_bytes) bs 1024 (omega arith)
        (omega (arith, length-bytes_from c pos data_bytes))
    ∙ take_all 1024 bs (omega arith)
  where
    all : Bytes
    all = overwrite (bytes_from c pos data_bytes) 0 bs

    whole : length all ≡ data_bytes
    whole = length-overwrite (bytes_from c pos data_bytes) 0 bs ∙ length-bytes_from c pos data_bytes

==_sound : (m n : ℕ) → (m == n) ≡ true → m ≡ n
==_sound m n e = ground arith

module _ (d : SectorStore) (disk : IsDisk d) (pool : BufferPool d.State) (number : ℕ) (v : Ptr)
    (xs : List Ptr) (node addr : ℕ) (small : number < num_blocks)
    (missing : find_node number pool.mp_block_list_node ≡ none)
    (holds : Holds pool.heap pool.free_list (xs ++ v ∷ []))
    (clean : is_set_at (pool.node_data v + 5) pool.memory ≡ false)
    (ready : disk.IsReady pool.disk) where
  abbrev victim_data : ℕ
  victim_data = pool.node_data v

  -- The pool with the new block in the victim's memory, over the heap that `unlink` leaves.
  abbrev loaded : Heap → BufferPool d.State
  loaded h = record pool {
    mp_block_list_node = put_node number v pool.mp_block_list_node;
    heap = h;
    memory = written pool.memory (victim_data + 6) (
        overwrite (bytes_from pool.memory (victim_data + 6) data_bytes) 0
          (block d disk pool.disk number));
    disk = after_both d disk pool.disk number;
  }

  not_null : (v == null) ≡ false
  not_null = ground (
    arith,
    holds.no_null,
    has-append null (xs ++ v ∷ []) (pool.free_list.tail ∷ []),
    has-append null xs (v ∷ []),
  )

  victim_steps : get_victim pool ≡ done v pool
  unfolding get_victim
  victim_steps = simp (get_tail-Holds pool.heap pool.free_list xs v holds)

  take_steps : take_node d node addr pool ≡ done v pool
  take_steps = simp (victim_steps, not_null)

  flush_steps : force_flush_memory_block d victim_data pool ≡ done 0 pool
  unfolding force_flush_memory_block
  flush_steps = elim (Bool-cases (block_number victim_data pool.memory == minus_one)) [
    | inl e ↦ simp (e, clean)
    | inr e ↦ simp (e, clean)
  ]

  load_steps :
      (h : Heap)
      → unlink pool.free_list v pool.heap ≡ some (1, h)
      → load d node addr number pool ≡ done victim_data (loaded h)
  unfolding load read_memory_block_helper lock
  load_steps h unlinks = simp (
    take_steps,
    flush_steps,
    read_steps d disk number (bytes_from pool.memory (victim_data + 6) data_bytes) pool.disk ready
        small,
    ==_refl number,
    unlinks,
  )

  get_steps :
      (h : Heap)
      → unlink pool.free_list v pool.heap ≡ some (1, h)
      → get d node addr number pool ≡ done victim_data (loaded h)
  unfolding get
  get_steps h unlinks = simp (in_range number small, missing, load_steps h unlinks)

  -- A block that is not in the pool, when the last node of the list has memory that need not be
  -- written back: `get` returns the address in that node. The memory there holds the block's bytes, the
  -- number is mapped to the node, every other entry of the map is as before, the node is off the list,
  -- and the blocks of the disk are as they were.
  pub get-evicts :
      (pool' : BufferPool d.State) × (get d node addr number pool ≡ done victim_data pool')
      × Holds pool'.heap pool'.free_list xs
      × IsLoose pool'.heap v
      × ((m : ℕ)
          → find_node m pool'.mp_block_list_node
            ≡ (if m == number then some v else find_node m pool.mp_block_list_node))
      × (bytes_from pool'.memory (victim_data + 6) 1024 ≡ block d disk pool.disk number)
      × disk.IsReady pool'.disk
      × ((m : ℕ) → block d disk pool'.disk m ≡ block d disk pool.disk m)
  get-evicts =
      let (h, unlinks, holds', loose) = unlink-Holds pool.free_list pool.heap xs [] v holds in
      (
        loaded h,
        get_steps h unlinks,
        subst (Holds h pool.free_list) (append-nil xs) holds',
        loose,
        λ m. refl,
        loaded_bytes pool.memory (victim_data + 6) (block d disk pool.disk number)
            (length-block d disk pool.disk number),
        after_both-IsReady d disk number pool.disk ready,
        λ m. block-after_both d disk number m pool.disk,
      )

  -- The same eviction when another number `m` was mapped to that node: a later `get` of `m` succeeds
  -- and returns the same address. It changes neither memory nor disk, so what it hands out are the
  -- bytes of the block `number`.
  pub get-stale :
      (m : ℕ)
      → m < num_blocks
      → find_node m pool.mp_block_list_node ≡ some v
      → (pool' : BufferPool d.State) × (heap : Heap) × (get d node addr number pool
          ≡ done victim_data pool')
        × (get d node addr m pool' ≡ done victim_data (record pool' { heap = heap }))
        × (bytes_from pool'.memory (victim_data + 6) 1024 ≡ block d disk pool.disk number)
  unfolding get lock
  get-stale m small_m old =
      let (h, unlinks, holds', loose) = unlink-Holds pool.free_list pool.heap xs [] v holds in
      let other : (m == number) ≡ false = elim (Bool-cases (m == number)) [
        | inl e ↦ absurd (
            some-ne-none v (
              sym old
              ∙ subst (λ k. find_node k pool.mp_block_list_node ≡ none) (sym (==_sound m number e))
                  missing))
        | inr e ↦ e
      ] in
      let (not_head, not_tail) = last_not_sentinel pool.heap pool.free_list xs v holds in
      let again : (h' : Heap) × (unlink pool.free_list v h ≡ some (1, h')) = (
        unlinked pool.free_list h v loose,
        unlink_loose pool.free_list h v loose (simp (not_head, not_tail)),
      ) in
      (
        loaded h,
        again.0,
        get_steps h unlinks,
        simp (in_range m small_m, other, old, again.1),
        loaded_bytes pool.memory (victim_data + 6) (block d disk pool.disk number)
            (length-block d disk pool.disk number),
      )
