-- ===== src/BlockGroup/Manager/Stored.antt =====
-- The inode that a block of the disk holds, as `read_inode_info` gives it and `~BlockGroupINode`
-- writes it back.
use ex2_file_system.Memory.{Bytes, overwrite, get_field, length-overwrite}
use ex2_file_system.Memory.Copies.{
  take-overwrite_front, take-take, get_field-overwrite_front, get_field-take,
}
use ex2_file_system.Disk.Store.{SectorStore, IsDisk}
use ex2_file_system.Block.Transfer.{
  block, num_blocks, both_halves, write_steps, block-both_halves, both_halves-IsReady, after_both,
  read_steps, block-after_both, after_both-IsReady, length-block,
}
use ex2_file_system.BlockGroup.Address.{get_starting_block_inode}
use ex2_file_system.BlockGroup.Manager.{
  copy_helper, read_inode_info, destroy_inode, uid, inode_bytes,
}
use ex2_file_system.BlockGroup.Manager.Inode.{copy_helper_lem}
use ex2_file_system.Effect.{done}
use ex2_file_system.Base.{
  ℕ, ◌+◌, ◌<◌, ◌≤◌, ◌≡◌, ◌==◌, false, ap, sym, ◌∙◌, length, arith, ==_refl, take, length-take,
  subst,
}

module _ (d : SectorStore) (disk : IsDisk d) (stack behind : Bytes)
    (big : length stack ≡ 2048) where
  -- The inode with number `n`, read into a local one.
  pub inode_of : d.State → ℕ → Bytes
  inode_of s n =
      overwrite (take inode_bytes stack) 0 (take 133 (block d disk s (get_starting_block_inode n)))

  pub length-inode_of : (s : d.State) (n : ℕ) → length (inode_of s n) ≡ 144
  unfolding inode_of
  length-inode_of s n = omega (
    arith,
    length-overwrite (take inode_bytes stack) 0
        (take 133 (block d disk s (get_starting_block_inode n))),
    length-take 144 stack,
  )

  -- Its fields are those of the block, whatever the local object held.
  pub inode_of_field :
      (s : d.State) (n w o : ℕ)
      → o + w ≤ 133
      → get_field w o (inode_of s n) ≡ get_field w o (block d disk s (get_starting_block_inode n))
  unfolding inode_of
  inode_of_field s n w o h =
      let bs = block d disk s (get_starting_block_inode n) in
      let part : length (take 133 bs) ≡ 133 =
        omega (arith, length-take 133 bs, length-block d disk s (get_starting_block_inode n)) in
      get_field-overwrite_front w o (take inode_bytes stack) (take 133 bs) (omega (arith, part))
        (omega (arith, part, length-take inode_bytes stack))
      ∙ get_field-take w o 133 bs h

  pub read_stored :
      (s : d.State) (n : ℕ)
      → get_starting_block_inode n < num_blocks
      → disk.IsReady s
      → read_inode_info d stack behind n (take inode_bytes stack) s
        ≡ done (inode_of s n) (after_both d disk s (get_starting_block_inode n))
  unfolding read_inode_info inode_of
  read_stored s n h ready =
      let bs = block d disk s (get_starting_block_inode n) in
      let len = length-block d disk s (get_starting_block_inode n) in
      simp (read_steps d disk (get_starting_block_inode n) stack s ready h) (
        ap (λ r. done r (after_both d disk s (get_starting_block_inode n)))
          (copy_helper_lem (take inode_bytes stack) (overwrite stack 0 bs)
              (omega (arith, length-overwrite stack 0 bs))
            ∙ ap (overwrite (take inode_bytes stack) 0)
                (take-overwrite_front stack bs 133 (omega arith) (omega arith))))

  -- The disk after the destructor of an inode.
  pub after_destroy : d.State → Bytes → d.State
  after_destroy s inode =
      both_halves d disk s (get_starting_block_inode (uid inode)) (copy_helper stack inode)

  module _ (s : d.State) (n : ℕ) (inode : Bytes) (own : uid inode ≡ n)
      (inside : get_starting_block_inode n < num_blocks) (whole : length inode ≡ 144) where
    inside_own : get_starting_block_inode (uid inode) < num_blocks
    inside_own = subst (λ k. get_starting_block_inode k < num_blocks) (sym own) inside

    long : 1024 ≤ length (copy_helper stack inode)
    long =
        rw (copy_helper_lem stack inode (omega arith))
          (omega (arith, length-overwrite stack 0 (take 133 inode)))

    pub destroy_steps : destroy_inode d stack behind inode s ≡ done 0 (after_destroy s inode)
    unfolding destroy_inode after_destroy
    destroy_steps = rw (write_steps d disk _ (copy_helper stack inode) s inside_own long)

    pub after_destroy-IsReady : disk.IsReady s → disk.IsReady (after_destroy s inode)
    unfolding after_destroy
    after_destroy-IsReady ready = both_halves-IsReady d disk _ _ s inside_own long ready

    pub block-after_destroy :
        (m : ℕ)
        → (get_starting_block_inode n == m) ≡ false
        → block d disk (after_destroy s inode) m ≡ block d disk s m
    unfolding after_destroy
    block-after_destroy m other =
        block-both_halves d disk (get_starting_block_inode (uid inode)) m _ s inside_own long
        ∙ rw own (rw other)

    -- The first 133 bytes are stored.
    pub inode_of-after_destroy :
        inode_of (after_destroy s inode) n ≡ overwrite (take inode_bytes stack) 0 (take 133 inode)
    unfolding after_destroy inode_of
    inode_of-after_destroy =
        let copy = overwrite stack 0 (take 133 inode) in
        let stored : block d disk (after_destroy s inode) (get_starting_block_inode n)
            ≡ take 1024 copy =
          block-both_halves d disk (get_starting_block_inode (uid inode))
            (get_starting_block_inode n) _ s inside_own long
          ∙ rw own (
              rw (==_refl (get_starting_block_inode n))
                (ap (take 1024) (copy_helper_lem stack inode (omega arith)))) in
        ap (λ t. overwrite (take inode_bytes stack) 0 (take 133 t)) stored
        ∙ ap (overwrite (take inode_bytes stack) 0) (
            take-take 133 1024 copy (omega arith)
            ∙ take-overwrite_front stack (take 133 inode) 133 (omega (arith, length-take 133 inode))
                (omega (arith, length-take 133 inode))
            ∙ take-take 133 133 inode (omega arith))

  -- What a call leaves that reads the inode and writes it back.
  pub record Kept (s s' : d.State) (n : ℕ) : Type 0 where
    pub ready : disk.IsReady s'
    pub same_inode : inode_of s' n ≡ inode_of s n
    pub others :
        (m : ℕ) → (get_starting_block_inode n == m) ≡ false → block d disk s' m ≡ block d disk s m

  front_of :
      (s : d.State) (n : ℕ)
      → overwrite (take inode_bytes stack) 0 (take 133 (inode_of s n)) ≡ inode_of s n
  unfolding inode_of
  front_of s n =
      let bs = block d disk s (get_starting_block_inode n) in
      let len = length-block d disk s (get_starting_block_inode n) in
      ap (overwrite (take inode_bytes stack) 0) (
        take-overwrite_front (take inode_bytes stack) (take 133 bs) 133
          (omega (arith, length-take 133 bs))
          (omega (arith, length-take 133 bs, length-take 144 stack))
        ∙ take-take 133 133 bs (omega arith))

  -- Only the inode's block counts.
  pub inode_of-block :
      (s s' : d.State) (n : ℕ)
      → block d disk s' (get_starting_block_inode n) ≡ block d disk s (get_starting_block_inode n)
      → inode_of s' n ≡ inode_of s n
  unfolding inode_of
  inode_of-block s s' n e = ap (λ t. overwrite (take inode_bytes stack) 0 (take 133 t)) e

  -- An inode that is read and written back is as it was, and so is every other block.
  pub read_back-Kept :
      (s : d.State) (n : ℕ)
      → get_starting_block_inode n < num_blocks
      → disk.IsReady s
      → uid (inode_of s n) ≡ n
      → Kept s (after_destroy (after_both d disk s (get_starting_block_inode n)) (inode_of s n)) n
  read_back-Kept s n h ready own =
      let s1 = after_both d disk s (get_starting_block_inode n) in
      let whole = length-inode_of s n in
      record {
        ready =
            after_destroy-IsReady s1 n (inode_of s n) own h whole
              (after_both-IsReady d disk (get_starting_block_inode n) s ready);
        same_inode = inode_of-after_destroy s1 n (inode_of s n) own h whole ∙ front_of s n;
        others = λ m other.
            block-after_destroy s1 n (inode_of s n) own h whole m other
            ∙ block-after_both d disk (get_starting_block_inode n) m s;
      }
