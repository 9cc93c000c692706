-- ===== src/Block/Transfer.antt =====
-- A block that was written is read back, and no other block changes.
use ex2_file_system.Memory.{Bytes, overwrite}
use ex2_file_system.Memory.Copies.{overwrite_both}
use ex2_file_system.Disk.Store.{SectorStore, IsDisk, num_sectors}
use ex2_file_system.Block.{
  write_loop, write_block_disk_helper, read_loop, retreive_block_disk_helper, sectors_per_block,
}
use ex2_file_system.Base.{
  ℕ, ◌+◌, ◌*◌, ◌/◌, ◌%◌, ◌≤◌, ◌<◌, ◌≡◌, refl, ap₂, ◌∙◌, ◌++◌, length, ◌==◌, if◌then◌else◌, arith,
  Bool-cases, false, inl, inr, int_mod, take, drop, replicate, length-take, length-drop,
  length-replicate, length-append, take_split, subst, take_all,
}

abbrev pub num_blocks : ℕ
num_blocks = num_sectors / 2

module _ (d : SectorStore) (disk : IsDisk d) where
  -- Block `n` of the disk.
  abbrev pub block : d.State → ℕ → Bytes
  block s n = disk.sector s (n * 2) ++ disk.sector s (n * 2 + 1)

  first_half : d.State → ℕ → Bytes → d.State
  first_half s n bytes = (d.write_sector (n * 2) (take 512 bytes) s).1

  pub both_halves : d.State → ℕ → Bytes → d.State
  unfolding first_half
  both_halves s n bytes =
      (d.write_sector (n * 2 + 1) (take 512 (drop 512 bytes)) (first_half s n bytes)).1

  half_length :
      (bytes : Bytes)
      → 1024 ≤ length bytes
      → (length (take 512 bytes) ≡ 512) × (length (take 512 (drop 512 bytes)) ≡ 512)
  half_length bytes h = (
    omega (arith, length-take 512 bytes),
    omega (arith, length-take 512 (drop 512 bytes), length-drop 512 bytes),
  )

  pub write_steps :
      (n : ℕ) (bytes : Bytes) (s : d.State)
      → n < num_blocks
      → 1024 ≤ length bytes
      → write_block_disk_helper d n bytes s ≡ (0, both_halves s n bytes)
  unfolding write_block_disk_helper write_loop both_halves
  write_steps n bytes s h len =
      let first : n * sectors_per_block % int_mod ≡ n * 2 = omega arith in
      let second : (n * 2 + 1) % int_mod ≡ n * 2 + 1 = omega arith in
      rw (
        first,
        disk.write_status (n * 2) (take 512 bytes) s (omega arith) (half_length bytes len).0,
        second,
        disk.write_status (n * 2 + 1) (take 512 (drop 512 bytes)) (first_half s n bytes)
            (omega arith) (half_length bytes len).1,
      )

  sector-both_halves :
      (n m : ℕ) (bytes : Bytes) (s : d.State)
      → n < num_blocks
      → 1024 ≤ length bytes
      → disk.sector (both_halves s n bytes) m ≡ (
          if n * 2 + 1 == m
          then take 512 (drop 512 bytes)
          else if n * 2 == m
          then take 512 bytes
          else disk.sector s m)
  unfolding both_halves
  sector-both_halves n m bytes s h len = rw (
    disk.write_sectors (n * 2 + 1) _ (first_half s n bytes) m (omega arith)
        (half_length bytes len).1,
    disk.write_sectors (n * 2) _ s m (omega arith) (half_length bytes len).0,
  )

  odd_even : (n m : ℕ) → (n * 2 + 1 == m * 2) ≡ false
  odd_even n m = ground arith

  even_odd : (n m : ℕ) → (n * 2 == m * 2 + 1) ≡ false
  even_odd n m = ground arith

  odd_odd : (n m : ℕ) → (n * 2 + 1 == m * 2 + 1) ≡ (n == m)
  odd_odd n m = ground arith

  even_even : (n m : ℕ) → (n * 2 == m * 2) ≡ (n == m)
  even_even n m = ground arith

  pub block-both_halves :
      (n m : ℕ) (bytes : Bytes) (s : d.State)
      → n < num_blocks
      → 1024 ≤ length bytes
      → block (both_halves s n bytes) m ≡ (if n == m then take 1024 bytes else block s m)
  block-both_halves n m bytes s h len =
      rw
        (
          sector-both_halves n (m * 2) bytes s h len,
          sector-both_halves n (m * 2 + 1) bytes s h len,
          odd_even n m,
          even_odd n m,
          odd_odd n m,
          even_even n m,
        )
        (elim (Bool-cases (n == m)) [
          | inl same ↦ rw same (take_split 512 512 1024 bytes refl)
          | inr other ↦ rw other
        ])

  pub both_halves-IsReady :
      (n : ℕ) (bytes : Bytes) (s : d.State)
      → n < num_blocks
      → 1024 ≤ length bytes
      → disk.IsReady s
      → disk.IsReady (both_halves s n bytes)
  unfolding both_halves first_half
  both_halves-IsReady n bytes s h len ready =
      disk.write-IsReady (n * 2 + 1) _ _ (omega arith) (half_length bytes len).1
        (disk.write-IsReady (n * 2) _ s (omega arith) (half_length bytes len).0 ready)

  -- Writing a block inside the disk succeeds, puts the first 1024 bytes there, changes no other
  -- block, and leaves a disk that was ready ready.
  pub write_block_lem :
      (n : ℕ) (bytes : Bytes) (s : d.State)
      → n < num_blocks
      → 1024 ≤ length bytes
      → ((write_block_disk_helper d n bytes s).0 ≡ 0)
        × ((m : ℕ)
            → block (write_block_disk_helper d n bytes s).1 m
              ≡ (if n == m then take 1024 bytes else block s m))
        × (disk.IsReady s → disk.IsReady (write_block_disk_helper d n bytes s).1)
  write_block_lem n bytes s h len =
      rw (write_steps n bytes s h len)
        (refl, λ m. block-both_halves n m bytes s h len, both_halves-IsReady n bytes s h len)

  after_first : d.State → ℕ → d.State
  after_first s n = (d.populate_sector (n * 2) (replicate 512 0) s).2

  pub after_both : d.State → ℕ → d.State
  unfolding after_first
  after_both s n = (d.populate_sector (n * 2 + 1) (disk.sector s (n * 2)) (after_first s n)).2

  sector-after_both : (s : d.State) (n m : ℕ) → disk.sector (after_both s n) m ≡ disk.sector s m
  unfolding after_both
  sector-after_both s n m = disk.populate_sectors _ _ _ m ∙ disk.populate_sectors _ _ _ m

  filled :
      (a b : Bytes)
      → length a ≡ 512
      → length b ≡ 512
      → overwrite (overwrite (replicate 1024 0) 0 a) 512 b ≡ a ++ b
  filled a b h k =
      subst (λ at. overwrite (overwrite (replicate 1024 0) 0 a) at b ≡ a ++ b) h
        (overwrite_both (replicate 1024 0) a b (omega (arith, length-replicate {A = ℕ} 1024 0)))

  pub read_steps :
      (n : ℕ) (bytes : Bytes) (s : d.State)
      → disk.IsReady s
      → n < num_blocks
      → retreive_block_disk_helper d n bytes s ≡ (0, overwrite bytes 0 (block s n), after_both s n)
  unfolding retreive_block_disk_helper read_loop after_both after_first
  read_steps n bytes s ready h =
      let first : n * sectors_per_block % int_mod ≡ n * 2 = omega arith in
      let second : (n * 2 + 1) % int_mod ≡ n * 2 + 1 = omega arith in
      let s' = after_first s n in
      let ready' : disk.IsReady s' = disk.populate-IsReady (n * 2) (replicate 512 0) s ready in
      rw (
        first,
        disk.populate_status (n * 2) (replicate 512 0) s ready (omega arith),
        disk.populate_buffer (n * 2) (replicate 512 0) s ready (omega arith) refl,
        second,
        disk.populate_status (n * 2 + 1) (disk.sector s (n * 2)) s' ready' (omega arith),
        disk.populate_buffer (n * 2 + 1) (disk.sector s (n * 2)) s' ready' (omega arith)
            (disk.length-sector s (n * 2)),
        disk.populate_sectors (n * 2) (replicate 512 0) s (n * 2 + 1),
        take_all 512 (disk.sector s (n * 2)) (omega (arith, disk.length-sector s (n * 2))),
        take_all 512 (disk.sector s (n * 2 + 1)) (omega (arith, disk.length-sector s (n * 2 + 1))),
        filled (disk.sector s (n * 2)) (disk.sector s (n * 2 + 1)) (disk.length-sector s (n * 2))
            (disk.length-sector s (n * 2 + 1)),
      )

  pub block-after_both : (n m : ℕ) (s : d.State) → block (after_both s n) m ≡ block s m
  block-after_both n m s =
      ap₂ (λ a b. a ++ b) (sector-after_both s n (m * 2)) (sector-after_both s n (m * 2 + 1))

  pub after_both-IsReady : (n : ℕ) (s : d.State) → disk.IsReady s → disk.IsReady (after_both s n)
  unfolding after_both after_first
  after_both-IsReady n s ready = disk.populate-IsReady _ _ _ (disk.populate-IsReady _ _ _ ready)

  -- Reading a block inside a disk that is ready succeeds, copies its 1024 bytes to the front of the
  -- caller's block, changes no block of the disk, and leaves the disk ready.
  pub read_block_lem :
      (n : ℕ) (bytes : Bytes) (s : d.State)
      → disk.IsReady s
      → n < num_blocks
      → ((retreive_block_disk_helper d n bytes s).0 ≡ 0)
        × ((retreive_block_disk_helper d n bytes s).1 ≡ overwrite bytes 0 (block s n))
        × ((m : ℕ) → block (retreive_block_disk_helper d n bytes s).2 m ≡ block s m)
        × disk.IsReady (retreive_block_disk_helper d n bytes s).2
  read_block_lem n bytes s ready h =
      rw (read_steps n bytes s ready h)
        (refl, refl, λ m. block-after_both n m s, after_both-IsReady n s ready)

  pub length-block : (s : d.State) (n : ℕ) → length (block s n) ≡ 1024
  length-block s n = omega (
    arith,
    length-append (disk.sector s (n * 2)) (disk.sector s (n * 2 + 1)),
    disk.length-sector s (n * 2),
    disk.length-sector s (n * 2 + 1),
  )
