-- ===== src/FileSystem/Table.antt =====
-- The table of open files: what `my_open`, `my_file_system_seek` and `my_close` do to it.
use ex2_file_system.Memory.{Bytes}
use ex2_file_system.Disk.Store.{SectorStore}
use ex2_file_system.Block.{write_block_disk_helper}
use ex2_file_system.BlockGroup.Address.{get_starting_block_inode}
use ex2_file_system.BlockGroup.Manager.{
  uid, copy_helper, read_inode_info, destroy_inode, hard_link_count, inode_bytes,
}
use ex2_file_system.FileSystem.{
  MyFile, Table, lookup, erase, assign, FileSystem, inode_file_size, is_directory_flag,
  get_file_info, my_close, my_file_system_seek, permits, my_open, inode_mode,
}
use ex2_file_system.FileSystem.Permissions.{allows, permits-allows}
use ex2_file_system.Effect.{done, exits}
use ex2_file_system.Base.{
  ℕ, ◌+◌, ◌%◌, ◌<◌, ◌≤◌, ◌≡◌, ◌⊎◌, subst, ◌==◌, ◌||◌, ◌^◌, not, true, false, if◌then◌else◌, none,
  some, [], ◌∷◌, minus_one, int_mod, lt_int, take, arith, refl, ap, sym, ◌∙◌, Bool-cases,
  Option-cases, inl, inr,
}

pub lookup-erase :
    (fd j : ℕ) (mp : Table) → lookup j (erase fd mp) ≡ (if fd == j then none else lookup j mp)
lookup-erase fd j [] = ground arith
lookup-erase fd j ((k, file) ∷ mp) = ground (arith, lookup-erase fd j mp)

lookup-assign :
    (fd j : ℕ) (file : MyFile) (mp : Table)
    → lookup j (assign fd file mp) ≡ (if fd == j then some file else lookup j mp)
lookup-assign fd j file mp = ground (arith, lookup-erase fd j mp)

still_there :
    (fd j : ℕ) (file : MyFile) (mp : Table)
    → lookup j (erase fd mp) ≡ some file
    → lookup j mp ≡ some file
still_there fd j file mp h = elim (Bool-cases (fd == j)) [
  | inl e ↦ absurd (ground (arith, lookup-erase fd j mp))
  | inr e ↦ sym (lookup-erase fd j mp ∙ rw e) ∙ h
]

-- The descriptors in the table were handed out before, and each open file is at a position that a
-- seek allows.
pub record IsTable {S : Type 0} (fs : FileSystem S) : Type 0 where
  pub handed_out :
      (fd : ℕ) (file : MyFile) → get_file_info fd fs ≡ some file → fd < fs.created_file_descriptors
  pub inside :
      (fd : ℕ) (file : MyFile)
      → get_file_info fd fs ≡ some file
      → lt_int file.file_size file.position ≡ false

assigned :
    (fd j : ℕ) (file g : MyFile) (mp : Table)
    → lookup j (assign fd file mp) ≡ some g
    → ((fd ≡ j) × (some file ≡ some g)) ⊎ (lookup j mp ≡ some g)
assigned fd j file g mp h = elim (Bool-cases (fd == j)) [
  | inl e ↦ inl (ground arith, sym (lookup-assign fd j file mp ∙ rw e) ∙ h)
  | inr e ↦ inr (sym (lookup-assign fd j file mp ∙ rw e) ∙ h)
]

-- A file that is put into the table under a descriptor that was handed out.
pub assign-IsTable :
    {S : Type 0} (fs : FileSystem S)
    → IsTable fs
    → (fd : ℕ) (file : MyFile) (created : ℕ) (s : S) → fd < created
    → fs.created_file_descriptors ≤ created
    → lt_int file.file_size file.position ≡ false
    → IsTable (record { mp = assign fd file fs.mp; created_file_descriptors = created; disk = s })
unfolding get_file_info
assign-IsTable fs ok fd file created s h k inside = record {
  handed_out = λ j g m. elim (assigned fd j file g fs.mp m) [
    | inl (e, _) ↦ subst (λ i. i < created) e h
    | inr old ↦ (let below = ok.handed_out j g old in omega arith)
  ];
  inside = λ j g m. elim (assigned fd j file g fs.mp m) [
    | inl (_, e) ↦
        subst
          (λ o. elim o as (λ _. Type 0) [
            | none ↦ Unit {0}
            | some f ↦ lt_int f.file_size f.position ≡ false
          ])
          e inside
    | inr old ↦ ok.inside j g old
  ];
}

module _ {S : Type 0} (fs : FileSystem S) (ok : IsTable fs) where
  -- `my_close` on an open descriptor returns 0 and removes it and no other; on any other descriptor
  -- it returns -1 and changes nothing. The table stays well-formed.
  pub my_close_lem :
      (fd : ℕ)
      → (fs' : FileSystem S) × (my_close fd fs
          ≡ done (elim (get_file_info fd fs) [ none ↦ minus_one | some file ↦ 0 ]) fs')
        × ((j : ℕ) → get_file_info j fs' ≡ (if fd == j then none else get_file_info j fs))
        × (fs'.disk ≡ fs.disk)
        × IsTable fs'
  unfolding my_close get_file_info
  my_close_lem fd = elim (Option-cases (lookup fd fs.mp)) [
    | inl e ↦ (fs, rw e, λ j. ground (arith, ap (λ o. o) e), refl, ok)
    | inr (file, e) ↦ (
      record fs { mp = erase fd fs.mp },
      rw e,
      λ j. lookup-erase fd j fs.mp,
      refl,
      record {
        handed_out = λ j f h. ok.handed_out j f (still_there fd j f fs.mp h);
        inside = λ j f h. ok.inside j f (still_there fd j f fs.mp h);
      },
    )
  ]

  -- On an open descriptor, at a position that is not behind the end of the file, `my_file_system_seek`
  -- sets the position and returns 0. No other file changes, and the table stays well-formed.
  pub seek_lem :
      (fd position : ℕ) (file : MyFile)
      → get_file_info fd fs ≡ some file
      → lt_int file.file_size position ≡ false
      → (fs' : FileSystem S) × (my_file_system_seek fd position fs ≡ done 0 fs')
        × ((j : ℕ)
            → get_file_info j fs' ≡ (
                if fd == j then some (record file { position = position }) else get_file_info j fs))
        × (fs'.disk ≡ fs.disk)
        × IsTable fs'
  unfolding my_file_system_seek get_file_info
  seek_lem fd position file e inside = (
    record fs { mp = assign fd (record file { position = position }) fs.mp },
    rw e (rw inside),
    λ j. lookup-assign fd j (record file { position = position }) fs.mp,
    refl,
    assign-IsTable fs ok fd (record file { position = position }) _ fs.disk
        (ok.handed_out fd file e) (omega arith) inside,
  )

module _ (d : SectorStore) (stack behind : Bytes) (fs : FileSystem d.State) (junk n mask : ℕ)
    (inode : Bytes) (s : d.State)
    (reads : read_inode_info d stack behind n (take inode_bytes stack) fs.disk ≡ done inode s) where
  -- The file that `my_open` makes.
  abbrev pub opened : MyFile
  opened = record {
    inode_number = n;
    position = 0;
    file_size = inode_file_size inode;
    permissions = junk;
    is_directory = is_directory_flag inode;
  }

  -- When the inode that is read has no hard link, or the mask, below 2^31, asks for a bit that is
  -- neither read nor write or that its mode lacks, `my_open` ends the process, with status -1 where
  -- there is no link and 0 otherwise, and the table is as it was.
  pub open_refused :
      mask < 2 ^ 31
      → (hard_link_count inode == 0 || not (allows mask (inode_mode inode))) ≡ true
      → my_open d stack behind junk n mask fs
        ≡ exits (if hard_link_count inode == 0 then minus_one else 0) (record fs { disk = s })
  unfolding my_open
  open_refused small h = elim (Bool-cases (hard_link_count inode == 0)) [
    | inl e ↦ rw reads (rw e)
    | inr e ↦
        (let lacks : allows mask (inode_mode inode) ≡ false = ground arith in
          let e' : permits mask inode ≡ false = permits-allows mask inode small ∙ lacks in
          rw reads (rw (e, e')))
  ]

  -- The disk once the destructor of the local inode has written it back.
  abbrev written_back : d.State
  written_back =
      (write_block_disk_helper d (get_starting_block_inode (uid inode)) (copy_helper stack inode)
        s).1

  -- When the inode that is read has a hard link and permits the mask, and while descriptors last,
  -- `my_open` returns a descriptor that was not in use, and the table has the new file under it and
  -- is otherwise as it was; it stays well-formed if the size of the file is an `int`.
  pub open_lem :
      IsTable fs
      → (hard_link_count inode == 0) ≡ false
      → permits mask inode ≡ true
      → fs.created_file_descriptors + 1 < 2 ^ 32
      → inode_file_size inode < 2 ^ 31
      → (fs' : FileSystem d.State) × (my_open d stack behind junk n mask fs
          ≡ done fs.created_file_descriptors fs')
        × (get_file_info fs.created_file_descriptors fs ≡ none)
        × ((j : ℕ)
            → get_file_info j fs'
              ≡ (if fs.created_file_descriptors == j then some opened else get_file_info j fs))
        × IsTable fs'
  unfolding my_open get_file_info destroy_inode
  open_lem ok linked allowed more small = (
    record {
      mp = assign fs.created_file_descriptors opened fs.mp;
      created_file_descriptors = fs.created_file_descriptors + 1;
      disk = written_back;
    },
    rw reads (
        rw (linked, allowed)
          (ap
            (λ c. done fs.created_file_descriptors (record {
              mp = assign fs.created_file_descriptors opened fs.mp;
              created_file_descriptors = c;
              disk = written_back;
            }))
            wraps)),
    unused,
    λ j. lookup-assign fs.created_file_descriptors j opened fs.mp,
    assign-IsTable fs ok fs.created_file_descriptors opened _ _ (omega arith) (omega arith)
        (ground arith),
  )
    where
      wraps : (fs.created_file_descriptors + 1) % int_mod ≡ fs.created_file_descriptors + 1
      wraps = omega arith

      unused : lookup fs.created_file_descriptors fs.mp ≡ none
      unused = elim (Option-cases (lookup fs.created_file_descriptors fs.mp)) [
        | inl e ↦ e
        | inr (file, e) ↦
            (let below = ok.handed_out fs.created_file_descriptors file e in absurd (omega arith))
      ]
