-- ===== src/BlockGroup/Manager/FreshMaps.antt =====
-- The fresh bit maps that formatting writes, one at a time.
use ex2_file_system.Memory.{Bytes}
use ex2_file_system.Disk.Store.{SectorStore, IsDisk}
use ex2_file_system.Block.{write_block_disk_helper}
use ex2_file_system.Block.Transfer.{
  block, num_blocks, both_halves, write_steps, block-both_halves, both_halves-IsReady,
}
use ex2_file_system.BitMap.{fresh}
use ex2_file_system.BitMap.Update.{fresh-IsValid}
use ex2_file_system.BlockGroup.Address.{get_starting_block_inode_bitmap, get_starting_block_bitmap}
use ex2_file_system.BlockGroup.BitMapBlock.{GroupBitMap}
use ex2_file_system.BlockGroup.BitMapBlock.RoundTrip.{IsGroupMap, image, length-image}
use ex2_file_system.BlockGroup.Manager.Claim.{StoresMap, stored_image}
use ex2_file_system.Base.{
  ℕ, ◌^◌, ◌<◌, ◌≤◌, ◌≡◌, ◌==◌, if◌then◌else◌, refl, subst, length, arith, ==_refl, take, Bool-cases,
  inl, inr,
}

-- The empty map of a group at a block.
abbrev pub fresh_map : ℕ → GroupBitMap
fresh_map n = record { bits = fresh 7800; block_number = n }

pub fresh_map-IsGroupMap : (n : ℕ) → n < 2 ^ 32 → IsGroupMap (fresh_map n)
unfolding fresh
fresh_map-IsGroupMap n h = record {
  valid = fresh-IsValid 7800 (omega arith);
  size = refl;
  number = h;
}

-- The two maps of group `g` are empty.
pub record IsFresh (d : SectorStore) (disk : IsDisk d) (s : d.State) (g : ℕ) : Type 0 where
  pub inodes :
      StoresMap
        (block d disk s (get_starting_block_inode_bitmap g))
        (fresh_map (get_starting_block_inode_bitmap g))
  pub blocks :
      StoresMap
        (block d disk s (get_starting_block_bitmap g))
        (fresh_map (get_starting_block_bitmap g))

module _ (d : SectorStore) (disk : IsDisk d) (stack behind : Bytes)
    (big : length stack ≡ 2048) where
  -- One write of a map over a local block.
  unfoldable pub put_map : d.State → ℕ → Bytes → d.State
  put_map s addr buffer = both_halves d disk s addr (image (fresh_map addr) buffer)

  pub put_map-steps :
      (s : d.State) (addr : ℕ) (buffer : Bytes)
      → addr < num_blocks
      → length buffer ≡ 2048
      → write_block_disk_helper d addr (image (fresh_map addr) buffer) s
        ≡ (0, put_map s addr buffer)
  unfolding put_map
  put_map-steps s addr buffer h len =
      rw (write_steps d disk addr (image (fresh_map addr) buffer) s h long)
    where
      long : 1024 ≤ length (image (fresh_map addr) buffer)
      long = omega (
        arith,
        length-image (fresh_map addr) (fresh_map-IsGroupMap addr (omega arith)) buffer
            (omega arith),
      )

  pub block-put_map :
      (s : d.State) (addr n : ℕ) (buffer : Bytes)
      → addr < num_blocks
      → length buffer ≡ 2048
      → block d disk (put_map s addr buffer) n
        ≡ (if addr == n then take 1024 (image (fresh_map addr) buffer) else block d disk s n)
  unfolding put_map
  block-put_map s addr n buffer h len =
      block-both_halves d disk addr n (image (fresh_map addr) buffer) s h (
        omega (
          arith,
          length-image (fresh_map addr) (fresh_map-IsGroupMap addr (omega arith)) buffer
              (omega arith),
        ))

  -- The map is there afterwards, and one that was there before still is.
  pub put_map-self :
      (s : d.State) (addr : ℕ) (buffer : Bytes)
      → addr < num_blocks
      → length buffer ≡ 2048
      → StoresMap (block d disk (put_map s addr buffer) addr) (fresh_map addr)
  put_map-self s addr buffer h len =
      rw (block-put_map s addr addr buffer h len, ==_refl addr)
        (stored_image buffer len (fresh_map addr) (fresh_map-IsGroupMap addr (omega arith)))

  pub put_map-keeps :
      (s : d.State) (addr n : ℕ) (buffer : Bytes)
      → addr < num_blocks
      → length buffer ≡ 2048
      → StoresMap (block d disk s n) (fresh_map n)
      → StoresMap (block d disk (put_map s addr buffer) n) (fresh_map n)
  put_map-keeps s addr n buffer h len st = elim (Bool-cases (addr == n)) [
    | inl e ↦
        (let same : addr ≡ n = ground arith in
          subst (λ m. StoresMap (block d disk (put_map s addr buffer) m) (fresh_map m)) same
            (put_map-self s addr buffer h len))
    | inr e ↦ rw (block-put_map s addr n buffer h len, e) st
  ]

  pub put_map-IsReady :
      (s : d.State) (addr : ℕ) (buffer : Bytes)
      → addr < num_blocks
      → length buffer ≡ 2048
      → disk.IsReady s
      → disk.IsReady (put_map s addr buffer)
  unfolding put_map
  put_map-IsReady s addr buffer h len ready =
      both_halves-IsReady d disk addr (image (fresh_map addr) buffer) s h
        (omega (
          arith,
          length-image (fresh_map addr) (fresh_map-IsGroupMap addr (omega arith)) buffer
              (omega arith),
        ))
        ready
