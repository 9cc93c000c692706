-- ===== src/Shell/Commands/Entering.antt =====
-- `change_directory` to a name in a working directory that is on the disk.
use ex2_file_system.Memory.{Bytes, overwrite}
use ex2_file_system.Memory.Copies.{overwrite_whole}
use ex2_file_system.Disk.Store.{SectorStore, IsDisk}
use ex2_file_system.Block.Transfer.{block}
use ex2_file_system.BlockGroup.Address.{get_starting_block_inode}
use ex2_file_system.FileSystem
use ex2_file_system.FileSystem.{FileSystem}
use ex2_file_system.Shell.Entry.{
  entry_bytes, entry_name, name_bytes, entry_is_directory, entry_inode_number,
}
use ex2_file_system.Shell.Names.{c_string}
use ex2_file_system.Shell.Names.Splitting.{AreNames, split_file_name-join}
use ex2_file_system.Shell.Directory.{get_file_info, walk_loop, traverse_hierachy}
use ex2_file_system.Shell.Directory.Search.{Members, Listing, AreRecordsOf, Answers, first_named}
use ex2_file_system.Shell.Directory.OnDisk.{IsDirectory, get_file_info-first_named}
use ex2_file_system.Shell.Commands.{ShellManager, change_directory}
use ex2_file_system.Effect.{done}
use ex2_file_system.Base.{
  ℕ, ◌+◌, ◌^◌, ◌<◌, ◌≡◌, ◌==◌, true, false, if◌then◌else◌, Option, none, some, List, [], ◌∷◌, ◌++◌,
  refl, subst, ap, sym, ◌∙◌, length, arith, minus_one, Bool-cases, inl, inr, take, length-take,
}

-- Where `change_directory` leads by what the listing says of the name: to a directory.
abbrev pub destination : Option Members → Option ℕ
destination none = none
destination (some (m, permissions, false)) = none
destination (some (m, permissions, true)) = if m == minus_one then none else some m

abbrev pub status_of : Option ℕ → ℕ
status_of none = minus_one
status_of (some m) = 0

abbrev pub number_after : ℕ → Option ℕ → ℕ
number_after current none = current
number_after current (some m) = m

-- The 50 bytes of the working directory's name afterwards: as before, or those of a string with the
-- name that was entered.
abbrev pub IsNameAfter : Bytes → Bytes → Option ℕ → Bytes → Type 0
IsNameAfter name before none after = after ≡ before
IsNameAfter name before (some m) after = (length after ≡ name_bytes) × (c_string after ≡ some name)

module _ (d : SectorStore) (disk : IsDisk d) (stack behind : Bytes) (big : length stack ≡ 2048)
    (now junk : ℕ) (sh : ShellManager d.State) (name : Bytes) (spelled : AreNames (name ∷ []))
    (named : c_string (name ++ 0 ∷ []) ≡ some name)
    (field : length sh.curr_directory_name ≡ name_bytes) where
  abbrev n : ℕ
  n = sh.curr_directory_inode_number

  -- What the command does with the answer of the search.
  entered :
      (listed : Option Members) (answer : ℕ × Bytes) (fs' : FileSystem d.State)
      → get_file_info d stack behind now junk n name (take entry_bytes stack) sh.files
        ≡ done answer fs'
      → Answers name (take entry_bytes stack) listed answer
      → (sh' : ShellManager d.State) × (change_directory d stack behind now junk name sh
          ≡ done (status_of (destination listed)) sh')
        × (sh'.curr_directory_inode_number ≡ number_after n (destination listed))
        × IsNameAfter name sh.curr_directory_name (destination listed) sh'.curr_directory_name
        × Path (FileSystem d.State) sh'.files fs'
  unfolding change_directory traverse_hierachy walk_loop
  entered none (status, out) fs' runs (failed, same) = (
    record sh { files = fs' },
    simp (split_file_name-join (name ∷ []) [] spelled, runs, failed),
    refl,
    refl,
    refl,
  )
  entered (some (m, permissions, false)) (status, out) fs' runs (found, (whole, called, held)) =
      let flag : entry_is_directory out ≡ false = ap (λ x. x.2) held in
      (
        record sh { files = fs' },
        simp (split_file_name-join (name ∷ []) [] spelled, runs, found, flag),
        refl,
        refl,
        refl,
      )
  entered (some (m, permissions, true)) (status, out) fs' runs (found, (whole, called, held)) =
      let flag : entry_is_directory out ≡ true = ap (λ x. x.2) held in
      let number : entry_inode_number out ≡ m = ap (λ x. x.0) held in
      let front : length (entry_name out) ≡ name_bytes =
        omega (arith, length-take name_bytes out) in
      let copied : overwrite sh.curr_directory_name 0 (entry_name out) ≡ entry_name out =
        overwrite_whole sh.curr_directory_name (entry_name out) (field ∙ sym front) in
      elim (Bool-cases (m == minus_one)) [
        | inl e ↦ rw e (
          record sh { files = fs' },
          simp (split_file_name-join (name ∷ []) [] spelled, runs, found, flag, number, e),
          refl,
          refl,
          refl,
        )
        | inr e ↦ rw e (
          record {
            files = fs';
            curr_directory_name = overwrite sh.curr_directory_name 0 (entry_name out);
            curr_directory_inode_number = m;
          },
          simp (split_file_name-join (name ∷ []) [] spelled, runs, found, flag, number, e),
          refl,
          (ap length copied ∙ front, ap c_string copied ∙ called),
          refl,
        )
      ]

  -- On a ready disk, for a working directory whose inode permits reading, names its own number and
  -- has a link, with 1 to 17 records of 60 bytes in one block, which is on the disk and not the
  -- inode's own, each with a name that ends within its field and any padding, with a descriptor to
  -- hand out, for a name that is not empty and has no slash or NUL: `change_directory` returns. Where
  -- the listing has a directory by that name, and its number is not -1, it returns 0, and the working
  -- directory's number is that directory's and its name, of 50 bytes, is a string with the name; else
  -- it returns -1 and both stay. The descriptor that it used is closed, and every other open file and
  -- every block but that of the old directory's inode is as it was.
  pub change_directory_lem :
      (rs : List Bytes) (dir : Listing)
      → disk.IsReady sh.files.disk
      → IsDirectory d disk stack behind big sh.files.disk n rs
      → AreRecordsOf rs dir
      → sh.files.created_file_descriptors + 1 < 2 ^ 32
      → (sh' : ShellManager d.State) × (change_directory d stack behind now junk name sh
          ≡ done (status_of (destination (first_named name dir))) sh')
        × (sh'.curr_directory_inode_number ≡ number_after n (destination (first_named name dir)))
        × IsNameAfter name sh.curr_directory_name
            (destination (first_named name dir))
            sh'.curr_directory_name
        × ((j : ℕ)
            → FileSystem.get_file_info j sh'.files ≡ (
                if sh.files.created_file_descriptors == j
                then none
                else FileSystem.get_file_info j sh.files))
        × disk.IsReady sh'.files.disk
        × ((m : ℕ)
            → (get_starting_block_inode n == m) ≡ false
            → block d disk sh'.files.disk m ≡ block d disk sh.files.disk m)
  change_directory_lem rs dir ready directory listed more =
      let (answer, fs', runs, answers, table, ready', others) =
        get_file_info-first_named d disk stack behind big sh.files now junk n rs ready directory
          more name name dir (take entry_bytes stack) named listed
          (omega (arith, length-take entry_bytes stack)) in
      let (sh', goes, number, called, same) =
        entered (first_named name dir) answer fs' runs answers in
      (
        sh',
        goes,
        number,
        called,
        λ j. ap (FileSystem.get_file_info j) same ∙ table j,
        subst (λ fs. disk.IsReady fs.disk) (sym same) ready',
        λ m other. ap (λ fs. block d disk fs.disk m) same ∙ others m other,
      )
