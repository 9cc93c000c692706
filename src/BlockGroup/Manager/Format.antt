-- ===== src/BlockGroup/Manager/Format.antt =====
-- `initialize_block_group_bitmaps` puts fresh bit maps into all groups.
use ex2_file_system.BlockGroup.Manager.FreshMaps.{
  fresh_map, fresh_map-IsGroupMap, IsFresh, put_map, put_map-steps, put_map-self, put_map-keeps,
  put_map-IsReady,
}
use ex2_file_system.Memory.{Bytes, get_field}
use ex2_file_system.Disk.Store.{SectorStore, IsDisk}
use ex2_file_system.Block.Transfer.{block, num_blocks, both_halves}
use ex2_file_system.BlockGroup.Address.{
  get_starting_block_inode_bitmap, get_starting_block_bitmap, num_groups,
}
use ex2_file_system.BlockGroup.Address.Layout.{metadata_blocks}
use ex2_file_system.BlockGroup.BitMapBlock.RoundTrip.{image, copy_write-image, length-image}
use ex2_file_system.BlockGroup.Manager.{initialize_bitmaps_loop, initialize_block_group_bitmaps}
use ex2_file_system.BlockGroup.Manager.Claim.{StoresMap, write_back}
use ex2_file_system.Effect.{done}
use ex2_file_system.Base.{
  ℕ, zero, suc, ◌+◌, ◌<◌, ◌≤◌, ◌≡◌, ◌==◌, refl, ◌∙◌, subst, length, arith, Bool-cases, inl, inr,
}

module _ (d : SectorStore) (disk : IsDisk d) (stack behind : Bytes)
    (big : length stack ≡ 2048) where
  -- One round of the loop: the inode map, then the data map, over one local block.
  next_buffer : ℕ → Bytes → Bytes
  next_buffer addr buffer = image (fresh_map addr) buffer

  length-next_buffer :
      (addr : ℕ) (buffer : Bytes)
      → addr < num_blocks
      → length buffer ≡ 2048
      → length (next_buffer addr buffer) ≡ 2048
  unfolding next_buffer
  length-next_buffer addr buffer h len =
      length-image (fresh_map addr) (fresh_map-IsGroupMap addr (omega arith)) buffer (omega arith)
      ∙ len

  abbrev inodes_at : ℕ → ℕ
  inodes_at = get_starting_block_inode_bitmap

  abbrev blocks_at : ℕ → ℕ
  blocks_at = get_starting_block_bitmap

  after_round : d.State → ℕ → Bytes → d.State
  after_round s g buffer =
      put_map d disk stack behind big (put_map d disk stack behind big s (inodes_at g) buffer)
        (blocks_at g) (next_buffer (inodes_at g) buffer)

  module _ (g : ℕ) (small : g < num_groups) where
    inodes_inside : inodes_at g < num_blocks
    inodes_inside = (metadata_blocks g small).3

    blocks_inside : blocks_at g < num_blocks
    blocks_inside =
        omega (arith, (metadata_blocks g small).1, (metadata_blocks g small).2, inodes_inside)

    round_steps :
        (k n m : ℕ) (buffer : Bytes) (s : d.State)
        → length buffer ≡ 2048
        → initialize_bitmaps_loop d stack behind (suc k) g (fresh_map n) (fresh_map m) buffer s
          ≡ initialize_bitmaps_loop d stack behind k
              (g + 1)
              (fresh_map (inodes_at g))
              (fresh_map (blocks_at g))
              (next_buffer (blocks_at g) (next_buffer (inodes_at g) buffer))
              (after_round s g buffer)
    unfolding initialize_bitmaps_loop next_buffer after_round
    round_steps k n m buffer s len =
        let len' = length-next_buffer (inodes_at g) buffer inodes_inside len in
        simp (
          copy_write-image (fresh_map (inodes_at g))
              (fresh_map-IsGroupMap (inodes_at g) (omega (arith, inodes_inside))) buffer
              (omega arith),
          put_map-steps d disk stack behind big s (inodes_at g) buffer inodes_inside len,
          copy_write-image (fresh_map (blocks_at g))
              (fresh_map-IsGroupMap (blocks_at g) (omega (arith, blocks_inside)))
              (image (fresh_map (inodes_at g)) buffer) (omega arith),
          put_map-steps d disk stack behind big
              (put_map d disk stack behind big s (inodes_at g) buffer) (blocks_at g)
              (image (fresh_map (inodes_at g)) buffer) blocks_inside len',
        )

    round-IsReady :
        (buffer : Bytes) (s : d.State)
        → length buffer ≡ 2048
        → disk.IsReady s
        → disk.IsReady (after_round s g buffer)
    unfolding after_round
    round-IsReady buffer s len ready =
        put_map-IsReady d disk stack behind big
          (put_map d disk stack behind big s (inodes_at g) buffer) (blocks_at g)
          (next_buffer (inodes_at g) buffer) blocks_inside
          (length-next_buffer (inodes_at g) buffer inodes_inside len)
          (put_map-IsReady d disk stack behind big s (inodes_at g) buffer inodes_inside len ready)

    round-IsFresh :
        (buffer : Bytes) (s : d.State)
        → length buffer ≡ 2048
        → ((j : ℕ) → j < g → IsFresh d disk s j)
        → (j : ℕ) → j < g + 1
        → IsFresh d disk (after_round s g buffer) j
    unfolding after_round
    round-IsFresh buffer s len old j h = elim (Bool-cases (j == g)) [
      | inl e ↦
          (let same : g ≡ j = ground arith in
            subst (IsFresh d disk (after_round s g buffer)) same (record {
              inodes =
                  keep (inodes_at g)
                    (put_map-self d disk stack behind big s (inodes_at g) buffer inodes_inside len);
              blocks =
                  put_map-self d disk stack behind big s1 (blocks_at g) buffer' blocks_inside len';
            }))
      | inr e ↦
          (let before = old j (ground arith) in
            record {
              inodes = keep (inodes_at j) (
                  put_map-keeps d disk stack behind big s (inodes_at g) (inodes_at j) buffer
                    inodes_inside len before.inodes);
              blocks = keep (blocks_at j) (
                  put_map-keeps d disk stack behind big s (inodes_at g) (blocks_at j) buffer
                    inodes_inside len before.blocks);
            })
    ]
      where
        s1 : d.State
        s1 = put_map d disk stack behind big s (inodes_at g) buffer

        buffer' : Bytes
        buffer' = next_buffer (inodes_at g) buffer

        len' : length buffer' ≡ 2048
        len' = length-next_buffer (inodes_at g) buffer inodes_inside len

        keep :
            (n : ℕ)
            → StoresMap (block d disk s1 n) (fresh_map n)
            → StoresMap
                (block d disk (put_map d disk stack behind big s1 (blocks_at g) buffer') n)
                (fresh_map n)
        keep n st =
            put_map-keeps d disk stack behind big s1 (blocks_at g) n buffer' blocks_inside len' st

  -- What the loop leaves, with the block numbers that the two locals end with.
  record Formatted (s : d.State) (k g n m : ℕ) (buffer : Bytes) : Type 0 where
    n' : ℕ
    m' : ℕ
    s' : d.State
    runs :
        initialize_bitmaps_loop d stack behind k g (fresh_map n) (fresh_map m) buffer s
        ≡ done (fresh_map n', fresh_map m') s'
    ready : disk.IsReady s'
    filled : (j : ℕ) → j < g + k → IsFresh d disk s' j
    n'_inside : n' < num_blocks
    m'_inside : m' < num_blocks

  loop_lem :
      (k g n m : ℕ) (buffer : Bytes) (s : d.State)
      → g + k ≤ num_groups
      → length buffer ≡ 2048
      → disk.IsReady s
      → ((j : ℕ) → j < g → IsFresh d disk s j)
      → n < num_blocks
      → m < num_blocks
      → Formatted s k g n m buffer
  loop_lem zero g n m buffer s h len ready old n_in m_in = record {
    n' = n;
    m' = m;
    s' = s;
    runs = unfold initialize_bitmaps_loop in refl;
    ready = ready;
    filled = λ j k. old j (omega arith);
    n'_inside = n_in;
    m'_inside = m_in;
  }
  loop_lem (suc k) g n m buffer s h len ready old n_in m_in =
      let small : g < num_groups = omega arith in
      let len' = length-next_buffer (inodes_at g) buffer (inodes_inside g small) len in
      let rest =
        loop_lem k (g + 1) (inodes_at g) (blocks_at g)
          (next_buffer (blocks_at g) (next_buffer (inodes_at g) buffer)) (after_round s g buffer)
          (omega arith)
          (length-next_buffer (blocks_at g) (next_buffer (inodes_at g) buffer)
            (blocks_inside g small) len')
          (round-IsReady g small buffer s len ready) (round-IsFresh g small buffer s len old)
          (inodes_inside g small) (blocks_inside g small) in
      record {
        n' = rest.n';
        m' = rest.m';
        s' = rest.s';
        runs = round_steps g small k n m buffer s len ∙ rest.runs;
        ready = rest.ready;
        filled = λ j below. rest.filled j (omega arith);
        n'_inside = rest.n'_inside;
        m'_inside = rest.m'_inside;
      }

  -- The whole function: the first round starts from locals with no block number, and the destructors
  -- write the two locals once more.
  format_steps :
      (s : d.State) (n m : ℕ) (s' : d.State)
      → initialize_bitmaps_loop d stack behind num_groups 0
          (fresh_map (get_field 4 0 stack))
          (fresh_map (get_field 4 0 stack))
          stack
          s
        ≡ done (fresh_map n, fresh_map m) s'
      → n < num_blocks
      → m < num_blocks
      → initialize_block_group_bitmaps d stack behind s
        ≡ done 0
            (put_map d disk stack behind big (put_map d disk stack behind big s' m stack) n stack)
  unfolding initialize_block_group_bitmaps put_map
  format_steps s n m s' runs n_in m_in = simp (
    runs,
    (write_back d disk stack behind big (fresh_map m) m s' (fresh_map-IsGroupMap m (omega arith))
        refl m_in).0,
    (write_back d disk stack behind big (fresh_map n) n
        (both_halves d disk s' m (image (fresh_map m) stack)) (fresh_map-IsGroupMap n (omega arith))
        refl n_in).1,
  )

  -- On a disk that is ready `initialize_block_group_bitmaps` returns, the disk is ready still, and
  -- both bit maps of each group are stored, with no bit set and with their own block's number.
  pub initialize_bitmaps-IsFresh :
      (s : d.State)
      → disk.IsReady s
      → (s' : d.State) × (initialize_block_group_bitmaps d stack behind s ≡ done 0 s')
        × disk.IsReady s'
        × ((g : ℕ) → g < num_groups → IsFresh d disk s' g)
  initialize_bitmaps-IsFresh s ready =
      let zero_small : 0 < num_groups = omega arith in
      let junk = get_field 4 0 stack in
      let len' = length-next_buffer (inodes_at 0) stack (inodes_inside 0 zero_small) big in
      let rest =
        loop_lem 3 1 (inodes_at 0) (blocks_at 0)
          (next_buffer (blocks_at 0) (next_buffer (inodes_at 0) stack)) (after_round s 0 stack)
          (omega arith)
          (length-next_buffer (blocks_at 0) (next_buffer (inodes_at 0) stack)
            (blocks_inside 0 zero_small) len')
          (round-IsReady 0 zero_small stack s big ready)
          (round-IsFresh 0 zero_small stack s big (λ j h. absurd (omega arith)))
          (inodes_inside 0 zero_small) (blocks_inside 0 zero_small) in
      let s1 = put_map d disk stack behind big rest.s' rest.m' stack in
      (
        put_map d disk stack behind big s1 rest.n' stack,
        format_steps s rest.n' rest.m' rest.s'
            (round_steps 0 zero_small 3 junk junk stack s big ∙ rest.runs) rest.n'_inside
            rest.m'_inside,
        put_map-IsReady d disk stack behind big s1 rest.n' stack rest.n'_inside big (
            put_map-IsReady d disk stack behind big rest.s' rest.m' stack rest.m'_inside big
              rest.ready),
        λ g h.
            let kept = rest.filled g (omega arith) in
            record {
              inodes =
                  twice rest.s' rest.m' rest.n' (inodes_at g) rest.m'_inside rest.n'_inside
                    kept.inodes;
              blocks =
                  twice rest.s' rest.m' rest.n' (blocks_at g) rest.m'_inside rest.n'_inside
                    kept.blocks;
            },
      )
    where
      twice :
          (s : d.State) (m n a : ℕ)
          → m < num_blocks
          → n < num_blocks
          → StoresMap (block d disk s a) (fresh_map a)
          → StoresMap
              (block d disk
                (put_map d disk stack behind big
                  (put_map d disk stack behind big s m stack)
                  n
                  stack)
                a)
              (fresh_map a)
      twice s m n a h k st =
          put_map-keeps d disk stack behind big (put_map d disk stack behind big s m stack) n a
            stack k big (put_map-keeps d disk stack behind big s m a stack h big st)
