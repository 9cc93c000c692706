-- ===== src/Shell/Entry/RoundTrip.antt =====
-- An entry that is written to a buffer is read back.
use ex2_file_system.Memory.{
  Bytes, slice, get_field, from_bytes, length-overwrite, slice-overwrite_below,
}
use ex2_file_system.Memory.Copies.{slice-overwrite_front, slice-overwrite_inside, slice-slice}
use ex2_file_system.Shell.Entry.{
  entry_bytes, entry_name, entry_inode_number, entry_permissions, entry_is_directory,
  write_char_bytes, copy_char_bytes,
}
use ex2_file_system.Base.{
  ℕ, ◌+◌, ◌≤◌, ◌≡◌, ◌==◌, not, refl, ap, ◌∙◌, length, length-take, length-drop, arith, drop,
}

length-slice : (o w : ℕ) (bs : Bytes) → o + w ≤ length bs → length (slice o w bs) ≡ w
length-slice o w bs h = omega (arith, length-take w (drop o bs), length-drop o bs)

pub length-write_char_bytes :
    (entry buffer : Bytes) → length (write_char_bytes entry buffer) ≡ length buffer
unfolding write_char_bytes
length-write_char_bytes entry buffer = length-overwrite _ _ _ ∙ length-overwrite _ _ _

pub length-copy_char_bytes :
    (buffer entry : Bytes) → length (copy_char_bytes buffer entry) ≡ length entry
unfolding copy_char_bytes
length-copy_char_bytes buffer entry = length-overwrite _ _ _ ∙ length-overwrite _ _ _

-- What `copy_char_bytes` takes out of a buffer: the name's bytes, and those of the other members.
module _ (buffer target : Bytes) (buffer_whole : length buffer ≡ entry_bytes)
    (target_whole : length target ≡ entry_bytes) where
  copy_front : (o w : ℕ) → o + w ≤ 50 → slice o w (copy_char_bytes buffer target) ≡ slice o w buffer
  unfolding copy_char_bytes
  copy_front o w h =
      let half = length-slice 0 50 buffer (omega arith) in
      slice-overwrite_below _ 52 o w _ (omega arith)
      ∙ slice-overwrite_front target (slice 0 50 buffer) o w (omega (arith, half))
          (omega (arith, half))
      ∙ slice-slice o w 0 50 o buffer (omega arith) h

  copy_back :
      (k w : ℕ)
      → k + w ≤ 7
      → slice (52 + k) w (copy_char_bytes buffer target) ≡ slice (50 + k) w buffer
  unfolding copy_char_bytes
  copy_back k w h =
      let seven = length-slice 50 7 buffer (omega arith) in
      slice-overwrite_inside _ (slice 50 7 buffer) 52 k (52 + k) w refl (omega (arith, seven))
        (omega (arith, seven, length-overwrite target 0 (slice 0 50 buffer)))
      ∙ slice-slice k w 50 7 (50 + k) buffer refl h

  -- The members that come out of the buffer.
  pub copy_char_bytes_lem :
      (entry_name (copy_char_bytes buffer target) ≡ slice 0 50 buffer)
      × (entry_inode_number (copy_char_bytes buffer target) ≡ get_field 4 50 buffer)
      × (entry_permissions (copy_char_bytes buffer target) ≡ get_field 2 54 buffer)
      × (entry_is_directory (copy_char_bytes buffer target) ≡ not (get_field 1 56 buffer == 0))
  unfolding get_field
  copy_char_bytes_lem = (
    copy_front 0 50 (omega arith),
    ap from_bytes (copy_back 0 4 (omega arith)),
    ap from_bytes (copy_back 4 2 (omega arith)),
    ap (λ bs. not (from_bytes bs == 0)) (copy_back 6 1 (omega arith)),
  )

-- What `write_char_bytes` puts into a buffer.
module _ (entry buffer : Bytes) (entry_whole : length entry ≡ entry_bytes)
    (buffer_whole : length buffer ≡ entry_bytes) where
  write_front : (o w : ℕ) → o + w ≤ 50 → slice o w (write_char_bytes entry buffer) ≡ slice o w entry
  unfolding write_char_bytes
  write_front o w h =
      let half = length-slice 0 50 entry (omega arith) in
      slice-overwrite_below _ 50 o w _ (omega arith)
      ∙ slice-overwrite_front buffer (slice 0 50 entry) o w (omega (arith, half))
          (omega (arith, half))
      ∙ slice-slice o w 0 50 o entry (omega arith) h

  write_back :
      (k w : ℕ)
      → k + w ≤ 7
      → slice (50 + k) w (write_char_bytes entry buffer) ≡ slice (52 + k) w entry
  unfolding write_char_bytes
  write_back k w h =
      let seven = length-slice 52 7 entry (omega arith) in
      slice-overwrite_inside _ (slice 52 7 entry) 50 k (50 + k) w refl (omega (arith, seven))
        (omega (arith, seven, length-overwrite buffer 0 (slice 0 50 entry)))
      ∙ slice-slice k w 52 7 (52 + k) entry refl h

  -- The members that are in the buffer.
  pub write_char_bytes_lem :
      (slice 0 50 (write_char_bytes entry buffer) ≡ entry_name entry)
      × (get_field 4 50 (write_char_bytes entry buffer) ≡ entry_inode_number entry)
      × (get_field 2 54 (write_char_bytes entry buffer) ≡ entry_permissions entry)
      × (not (get_field 1 56 (write_char_bytes entry buffer) == 0) ≡ entry_is_directory entry)
  unfolding get_field
  write_char_bytes_lem = (
    write_front 0 50 (omega arith),
    ap from_bytes (write_back 0 4 (omega arith)),
    ap from_bytes (write_back 4 2 (omega arith)),
    ap (λ bs. not (from_bytes bs == 0)) (write_back 6 1 (omega arith)),
  )

module _ (entry buffer target : Bytes) (entry_whole : length entry ≡ entry_bytes)
    (buffer_whole : length buffer ≡ entry_bytes) (target_whole : length target ≡ entry_bytes) where
  -- Of an entry that `write_char_bytes` writes and `copy_char_bytes` reads into another one, the
  -- name, the inode number, the permissions and the directory flag come back.
  pub copy-write_char_bytes :
      (entry_name (copy_char_bytes (write_char_bytes entry buffer) target) ≡ entry_name entry)
      × (entry_inode_number (copy_char_bytes (write_char_bytes entry buffer) target)
          ≡ entry_inode_number entry)
      × (entry_permissions (copy_char_bytes (write_char_bytes entry buffer) target)
          ≡ entry_permissions entry)
      × (entry_is_directory (copy_char_bytes (write_char_bytes entry buffer) target)
          ≡ entry_is_directory entry)
  copy-write_char_bytes =
      let whole = length-write_char_bytes entry buffer ∙ buffer_whole in
      let out = copy_char_bytes_lem (write_char_bytes entry buffer) target whole target_whole in
      let into = write_char_bytes_lem entry buffer entry_whole buffer_whole in
      (out.0 ∙ into.0, out.1 ∙ into.1, out.2 ∙ into.2, out.3 ∙ into.3)
