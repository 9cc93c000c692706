-- ===== src/FileSystem.antt =====
-- file_system_manager/ex2_interface/ex2.h and ex2.cpp: `EX2FILESYSTEM`, the table of open files over
-- `BlockDescriptorManager`, with `my_open`, `my_close`, `my_file_system_seek` and `get_file_info`.
-- An entry of `mp` is the `MyFile` that the pointer leads to: each has one owner, its descriptor.
-- `super_block` is read once and never used, and is left out. A call of `exit` runs no destructor of
-- a local. Messages to the terminal are left out.
pub mod Files
pub mod Blocks
pub mod Permissions
pub mod Table
pub mod Tests
use ex2_file_system.Memory.{Bytes, get_field}
use ex2_file_system.Disk.Store.{SectorStore}
use ex2_file_system.BlockGroup.Manager.{
  Disk, read_inode_info, destroy_inode, hard_link_count, inode_bytes,
}
use ex2_file_system.Effect.{Run, Outcome, done, exits, undefined, pure, exit, ◌>>=◌, ◌>>◌, and_then}
use ex2_file_system.Base.{
  ℕ, ◌+◌, ◌%◌, ◌==◌, ◌&&◌, not, Bool, if◌then◌else◌, Option, none, some, List, [], ◌∷◌, bit_and,
  bit_or, minus_one, int_mod, lt_int, take,
}

pub record MyFile : Type 0 where
  pub inode_number : ℕ
  pub position : ℕ
  pub file_size : ℕ
  pub permissions : ℕ
  pub is_directory : Bool

-- `unordered_map<int, MyFile *>`
abbrev pub Table : Type 0
Table = List (ℕ × MyFile)

abbrev pub lookup : ℕ → Table → Option MyFile
lookup fd [] = none
lookup fd ((k, file) ∷ mp) = if fd == k then some file else lookup fd mp

abbrev pub erase : ℕ → Table → Table
erase fd [] = []
erase fd ((k, file) ∷ mp) = let rest = erase fd mp in if fd == k then rest else (k, file) ∷ rest

abbrev pub assign : ℕ → MyFile → Table → Table
assign fd file mp = (fd, file) ∷ erase fd mp

pub record FileSystem (S : Type 0) : Type 0 where
  pub mp : Table
  pub created_file_descriptors : ℕ
  pub disk : S

-- Fields of `BlockGroupINode`.
abbrev pub inode_mode : Bytes → ℕ
inode_mode = get_field 2 0

abbrev pub inode_file_size : Bytes → ℕ
inode_file_size = get_field 4 8

abbrev pub is_directory_flag : Bytes → Bool
is_directory_flag inode = not (get_field 1 88 inode == 0)

module _ {S A : Type 0} where
  -- A call of the block manager, on the disk of the file system.
  abbrev pub returned : FileSystem S → Outcome S A → Outcome (FileSystem S) A
  returned fs (done a s) = done a (record fs { disk = s })
  returned fs (exits status s) = exits status (record fs { disk = s })
  returned fs undefined = undefined

  abbrev pub on_disk : Run S A → Run (FileSystem S) A
  on_disk m fs = returned fs (m fs.disk)

  -- `if (!mp.count(fd)) ...; MyFile *file = mp[fd]; ...`
  abbrev pub found :
      Option MyFile → Run (FileSystem S) A → (MyFile → Run (FileSystem S) A) → Run (FileSystem S) A
  found none missing k = missing
  found (some file) missing k = k file

  abbrev pub with_file :
      ℕ → Run (FileSystem S) A → (MyFile → Run (FileSystem S) A) → Run (FileSystem S) A
  with_file fd missing k fs = found (lookup fd fs.mp) missing k fs

module _ {S : Type 0} where
  -- An assignment to the open file behind a descriptor, or a new one.
  abbrev pub set_file : ℕ → MyFile → Run (FileSystem S) (Unit {0})
  set_file fd file fs = done tt (record fs { mp = assign fd file fs.mp })

  abbrev pub new_descriptor : Run (FileSystem S) ℕ
  new_descriptor fs =
      done fs.created_file_descriptors
        (record fs { created_file_descriptors = (fs.created_file_descriptors + 1) % int_mod })

  -- `none` is `nullptr`.
  unfoldable pub get_file_info : ℕ → FileSystem S → Option MyFile
  get_file_info file_descriptor fs = lookup file_descriptor fs.mp

  unfoldable pub my_close : ℕ → Run (FileSystem S) ℕ
  my_close file_descriptor =
      with_file file_descriptor (pure minus_one)
        (λ my_file fs. done 0 (record fs { mp = erase file_descriptor fs.mp }))

  unfoldable pub my_file_system_seek : ℕ → ℕ → Run (FileSystem S) ℕ
  my_file_system_seek file_descriptor position = with_file file_descriptor (exit 0) (λ my_file.
      if lt_int my_file.file_size position
      then exit 0
      else do set_file file_descriptor (record my_file { position = position }); pure 0)

-- The two tests of `check_permissions`.
unfoldable pub permits : ℕ → Bytes → Bool
permits mask_permissions inode =
    not (lt_int 3 (bit_or mask_permissions 3))
    && bit_and mask_permissions (inode_mode inode) == mask_permissions

module _ (d : SectorStore) (stack behind : Bytes) where
  abbrev pub Files : Type 0 → Type 0
  Files = Run (FileSystem d.State)

  -- `permissions` of the new `MyFile` is what `malloc` left there.
  unfoldable pub my_open : ℕ → ℕ → ℕ → Files ℕ
  my_open junk inode_number mask_permissions = do
    inode ← on_disk (read_inode_info d stack behind inode_number (take inode_bytes stack))
    if hard_link_count inode == 0
        then exit minus_one
        else if not (permits mask_permissions inode)
        then exit 0
        else do
          file_descriptor_id ← new_descriptor
          set_file file_descriptor_id (record {
            inode_number = inode_number;
            position = 0;
            file_size = inode_file_size inode;
            permissions = junk;
            is_directory = is_directory_flag inode;
          })
          on_disk (destroy_inode d stack behind inode)
          pure file_descriptor_id
