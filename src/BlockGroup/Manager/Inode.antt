-- ===== src/BlockGroup/Manager/Inode.antt =====
-- `write_inode_info` followed by `read_inode_info`: what comes back, and what does not.
use ex2_file_system.Memory.{Bytes, overwrite, slice, get_field, length-overwrite}
use ex2_file_system.Memory.Copies.{
  overwrite_append, take-overwrite_front, take-take, get_field-overwrite_front,
  get_field-overwrite_above, get_field-take,
}
use ex2_file_system.Disk.Store.{SectorStore, IsDisk}
use ex2_file_system.Block.Transfer.{
  block, num_blocks, both_halves, write_steps, block-both_halves, both_halves-IsReady, after_both,
  read_steps,
}
use ex2_file_system.BlockGroup.Address.{get_starting_block_inode}
use ex2_file_system.BlockGroup.Address.Layout.{inode_inside_iff}
use ex2_file_system.BlockGroup.Manager.{copy_helper, write_inode_info, read_inode_info}
use ex2_file_system.Effect.{done}
use ex2_file_system.Base.{
  ℕ, ◌+◌, ◌<◌, ◌≤◌, ◌≡◌, refl, ap, ◌∙◌, length, arith, ==_refl, take, length-take, take_split,
}

-- The next copy makes the copied prefix longer.
grow :
    (dest src : Bytes) (m n k : ℕ)
    → k ≡ m + n
    → m ≤ length src
    → overwrite (overwrite dest 0 (take m src)) m (slice m n src) ≡ overwrite dest 0 (take k src)
grow dest src m n k e h =
    overwrite_append dest 0 m (take m src) (slice m n src) (omega (arith, length-take m src))
    ∙ ap (overwrite dest 0) (take_split m n k src e)

-- The five copies are one copy of 133 bytes.
pub copy_helper_lem :
    (dest src : Bytes) → 133 ≤ length src → copy_helper dest src ≡ overwrite dest 0 (take 133 src)
unfolding copy_helper
copy_helper_lem dest src h = rw (
  grow dest src 6 44 50 refl (omega arith),
  grow dest src 50 32 82 refl (omega arith),
  grow dest src 82 1 83 refl (omega arith),
  grow dest src 83 50 133 refl (omega arith),
)

-- Only the first 133 bytes of an inode take part in a copy through a block of the disk.
through_block :
    (stack inode : Bytes)
    → length stack ≡ 2048
    → length inode ≡ 144
    → take 133 (overwrite stack 0 (take 1024 (overwrite stack 0 (take 133 inode)))) ≡ take 133 inode
through_block stack inode big whole =
    take-overwrite_front stack (take 1024 copy) 133 (omega (arith, short)) (omega (arith, short))
    ∙ take-take 133 1024 copy (omega arith)
    ∙ take-overwrite_front stack (take 133 inode) 133 (omega (arith, length-take 133 inode))
        (omega (arith, length-take 133 inode))
    ∙ take-take 133 133 inode (omega arith)
  where
    copy : Bytes
    copy = overwrite stack 0 (take 133 inode)

    short : length (take 1024 copy) ≡ 1024
    short = omega (arith, length-take 1024 copy, length-overwrite stack 0 (take 133 inode))

module _ (d : SectorStore) (disk : IsDisk d) (stack behind : Bytes)
    (big : length stack ≡ 2048) where
  inode_state : d.State → ℕ → Bytes → d.State
  inode_state s n inode =
      both_halves d disk s (get_starting_block_inode n) (copy_helper stack inode)

  write_inode_steps :
      (s : d.State) (n : ℕ) (inode : Bytes)
      → get_starting_block_inode n < num_blocks
      → length inode ≡ 144
      → write_inode_info d stack behind n inode s ≡ done 0 (inode_state s n inode)
  unfolding write_inode_info inode_state
  write_inode_steps s n inode h whole = rw (write_steps d disk _ (copy_helper stack inode) s h long)
    where
      long : 1024 ≤ length (copy_helper stack inode)
      long =
          rw (copy_helper_lem stack inode (omega arith))
            (omega (arith, length-overwrite stack 0 (take 133 inode)))

  stored_inode :
      (s : d.State) (n : ℕ) (inode : Bytes)
      → get_starting_block_inode n < num_blocks
      → length inode ≡ 144
      → block d disk (inode_state s n inode) (get_starting_block_inode n)
        ≡ take 1024 (overwrite stack 0 (take 133 inode))
  unfolding inode_state
  stored_inode s n inode h whole = rw (copy_helper_lem stack inode (omega arith)) (
      rw (
        block-both_halves d disk (get_starting_block_inode n) (get_starting_block_inode n)
            (overwrite stack 0 (take 133 inode)) s h
            (omega (arith, length-overwrite stack 0 (take 133 inode))),
        ==_refl (get_starting_block_inode n),
      ))

  read_inode_steps :
      (s : d.State) (n : ℕ) (inode target : Bytes)
      → get_starting_block_inode n < num_blocks
      → disk.IsReady s
      → length inode ≡ 144
      → read_inode_info d stack behind n target (inode_state s n inode)
        ≡ done
            (overwrite target 0 (take 133 inode))
            (after_both d disk (inode_state s n inode) (get_starting_block_inode n))
  unfolding read_inode_info
  read_inode_steps s n inode target h ready whole =
      rw (read_steps d disk (get_starting_block_inode n) stack (inode_state s n inode) ready' h) (
        ap (λ r. done r (after_both d disk (inode_state s n inode) (get_starting_block_inode n)))
          (copy_helper_lem target (overwrite stack 0 bs)
              (omega (arith, length-overwrite stack 0 bs))
            ∙ ap (λ t. overwrite target 0 (take 133 (overwrite stack 0 t)))
                (stored_inode s n inode h whole)
            ∙ ap (overwrite target 0) (through_block stack inode big whole)))
    where
      bs : Bytes
      bs = block d disk (inode_state s n inode) (get_starting_block_inode n)

      ready' : disk.IsReady (inode_state s n inode)
      ready' =
          unfold inode_state in
          both_halves-IsReady d disk (get_starting_block_inode n) (copy_helper stack inode) s h
            (rw (copy_helper_lem stack inode (omega arith))
              (omega (arith, length-overwrite stack 0 (take 133 inode))))
            ready

  -- On a ready disk, for an inode number below 612 and objects of 144 bytes: of an inode that is
  -- written and read again, the first 133 bytes come back and the bytes behind them are those that the
  -- target had before. The name field takes bytes 89 to 138, so a name loses what stands behind its
  -- 44th character.
  pub write-read_inode :
      (s : d.State) (n : ℕ) (inode target : Bytes)
      → disk.IsReady s
      → n < 612
      → length inode ≡ 144
      → length target ≡ 144
      → (s' s'' : d.State) × (result : Bytes) × (write_inode_info d stack behind n inode s
          ≡ done 0 s')
        × (read_inode_info d stack behind n target s' ≡ done result s'')
        × ((w o : ℕ) → o + w ≤ 133 → get_field w o result ≡ get_field w o inode)
        × ((w o : ℕ) → 133 ≤ o → get_field w o result ≡ get_field w o target)
  write-read_inode s n inode target ready h whole room = (
    inode_state s n inode,
    after_both d disk (inode_state s n inode) (get_starting_block_inode n),
    overwrite target 0 (take 133 inode),
    write_inode_steps s n inode inside whole,
    read_inode_steps s n inode target inside ready whole,
    λ w o k.
        get_field-overwrite_front w o target (take 133 inode) (omega (arith, length-take 133 inode))
          (omega (arith, length-take 133 inode))
        ∙ get_field-take w o 133 inode k,
    λ w o k.
        get_field-overwrite_above w o 0 target (take 133 inode)
          (omega (arith, length-take 133 inode)),
  )
    where
      inside : get_starting_block_inode n < num_blocks
      inside = (inode_inside_iff n (omega arith)).0 h
