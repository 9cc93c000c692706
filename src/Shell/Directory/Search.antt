-- ===== src/Shell/Directory/Search.antt =====
-- A directory's bytes against the list of names and members that they stand for.
use mathlib.Core.List.{append_assoc, append-nil}
use mathlib.Core.Option
use mathlib.Core.Option.{some-ne-none}
use ex2_file_system.Memory.{Bytes, overwrite, slice, get_field}
use ex2_file_system.Disk.Store.{SectorStore}
use ex2_file_system.Shell.Entry.{
  entry_bytes, name_bytes, entry_name, entry_inode_number, entry_permissions, entry_is_directory,
  write_char_bytes, copy_char_bytes, copy_directory_info,
}
use ex2_file_system.Shell.Entry.RoundTrip.{
  copy-write_char_bytes, length-write_char_bytes, length-copy_char_bytes, copy_char_bytes_lem,
  write_char_bytes_lem,
}
use ex2_file_system.Shell.Names.{c_string}
use ex2_file_system.Shell.Directory.{same_bytes, find_entry, read_entries, found_info}
use ex2_file_system.Base.{
  ℕ, zero, suc, ◌≤◌, ◌≡◌, ◌==◌, Bool, if◌then◌else◌, Option, none, some, List, [], ◌∷◌, ◌++◌, map,
  refl, ap, ap₂, sym, ◌∙◌, length, take, drop, length-drop, length-take, arith, minus_one, subst,
  Bool-cases, inl, inr, not, true, false,
}

-- The inode number, the permissions and the directory flag of a file.
abbrev pub Members : Type 0
Members = ℕ × ℕ × Bool

-- The members that an entry holds.
abbrev pub members : Bytes → Members
members entry = (entry_inode_number entry, entry_permissions entry, entry_is_directory entry)

-- A directory as the names that it lists, in order.
abbrev pub Listing : Type 0
Listing = List (Bytes × Members)

-- The first file with the name.
abbrev pub first_named : Bytes → Listing → Option Members
first_named name [] = none
first_named name ((n, m) ∷ dir) = if same_bytes name n then some m else first_named name dir

-- An entry of 60 bytes, whose name ends within its field.
abbrev pub IsEntryOf : Bytes → Bytes × Members → Type 0
IsEntryOf entry (name, m) =
    (length entry ≡ entry_bytes) × (c_string (entry_name entry) ≡ some name) × (members entry ≡ m)

-- The members in a stored record, which are two bytes lower than in an entry.
abbrev pub stored_members : Bytes → Members
stored_members r = (get_field 4 50 r, get_field 2 54 r, not (get_field 1 56 r == 0))

-- A record of 60 bytes as the disk holds it: the name, which ends within its field, the members, and
-- three bytes of any value.
abbrev pub IsRecordOf : Bytes → Bytes × Members → Type 0
IsRecordOf r (name, m) =
    (length r ≡ entry_bytes) × (c_string (slice 0 50 r) ≡ some name) × (stored_members r ≡ m)

abbrev pub AreRecordsOf : List Bytes → Listing → Type 0
AreRecordsOf [] [] = Unit {0}
AreRecordsOf [] (f ∷ dir) = ⊥
AreRecordsOf (r ∷ rs) [] = ⊥
AreRecordsOf (r ∷ rs) (f ∷ dir) = IsRecordOf r f × AreRecordsOf rs dir

-- What a directory's file holds: its records in a row.
abbrev pub directory_bytes : List Bytes → Bytes
directory_bytes [] = []
directory_bytes (r ∷ rs) = r ++ directory_bytes rs

-- What `get_file_info` has to answer to a search for `name`, by what the listing says: -1 and the
-- caller's entry as it was, or 0 and the file's name and members in the caller's entry.
abbrev pub Answers : Bytes → Bytes → Option Members → ℕ × Bytes → Type 0
Answers name dir_struct none (status, out) = (status ≡ minus_one) × (out ≡ dir_struct)
Answers name dir_struct (some m) (status, out) = (status ≡ 0) × IsEntryOf out (name, m)

-- An entry, or none, for what the listing says.
abbrev Agrees : Bytes → Option Bytes → Option Members → Type 0
Agrees name none none = Unit {0}
Agrees name none (some m) = ⊥
Agrees name (some e) none = ⊥
Agrees name (some e) (some m) = IsEntryOf e (name, m)

together :
    {a a' b b' : ℕ} {c c' : Bool} → a ≡ a' → b ≡ b' → c ≡ c' → Path Members (a, b, c) (a', b', c')
together p q r = λ i. (p i, q i, r i)

take-drop : (n : ℕ) (xs : Bytes) → take n xs ++ drop n xs ≡ xs
take-drop zero xs = refl
take-drop (suc n) [] = refl
take-drop (suc n) (x ∷ xs) = ap (◌∷◌ x) (take-drop n xs)

take-front : (n : ℕ) (xs ys : Bytes) → n ≤ length xs → take n (xs ++ ys) ≡ take n xs
take-front zero xs ys h = refl
take-front (suc n) [] ys h = absurd (omega arith)
take-front (suc n) (x ∷ xs) ys h = ap (◌∷◌ x) (take-front n xs ys (omega arith))

drop-front : (n : ℕ) (xs ys : Bytes) → n ≤ length xs → drop n (xs ++ ys) ≡ drop n xs ++ ys
drop-front zero xs ys h = refl
drop-front (suc n) [] ys h = absurd (omega arith)
drop-front (suc n) (x ∷ xs) ys h = drop-front n xs ys (omega arith)

drop-length : (n : ℕ) (xs ys : Bytes) → length xs ≡ n → drop n (xs ++ ys) ≡ ys
drop-length zero [] ys h = refl
drop-length zero (x ∷ xs) ys h = absurd (omega arith)
drop-length (suc n) [] ys h = absurd (omega arith)
drop-length (suc n) (x ∷ xs) ys h = drop-length n xs ys (omega arith)

-- A string that ends in the first bytes is the string of more bytes.
longer :
    (o o' : Option Bytes) (x : ℕ) (name : Bytes)
    → ((n : Bytes) → o ≡ some n → o' ≡ some n)
    → Option.map (λ s. x ∷ s) o ≡ some name
    → Option.map (λ s. x ∷ s) o' ≡ some name
longer none o' x name k h = absurd (some-ne-none name (sym h))
longer (some n) o' x name k h = ap (Option.map (λ s. x ∷ s)) (k n refl) ∙ h

c_string-append : (xs ys name : Bytes) → c_string xs ≡ some name → c_string (xs ++ ys) ≡ some name
unfolding c_string
c_string-append [] ys name h = absurd (some-ne-none name (sym h))
c_string-append (x ∷ xs) ys name h = elim (Bool-cases (x == 0)) [
  | inl e ↦ rw e (rw e at h)
  | inr e ↦
      rw e (longer (c_string xs) (c_string (xs ++ ys)) x name (c_string-append xs ys) (rw e at h))
]

same_bytes_sound : (xs ys : Bytes) → same_bytes xs ys ≡ true → xs ≡ ys
same_bytes_sound [] [] h = refl
same_bytes_sound [] (y ∷ ys) h = ground arith
same_bytes_sound (x ∷ xs) [] h = ground arith
same_bytes_sound (x ∷ xs) (y ∷ ys) h = elim (Bool-cases (x == y)) [
  | inl e ↦ let head : x ≡ y = ground arith in ap₂ (◌∷◌) head (same_bytes_sound xs ys (rw e at h))
  | inr e ↦ let bad : false ≡ true = rw e at h in ground arith
]

-- A record that `write_char_bytes` makes of an entry holds what the entry does.
pub IsEntryOf-IsRecordOf :
    (e buffer name : Bytes) (m : Members)
    → IsEntryOf e (name, m)
    → length buffer ≡ entry_bytes
    → IsRecordOf (write_char_bytes e buffer) (name, m)
IsEntryOf-IsRecordOf e buffer name m (whole, named, held) room =
    let q = write_char_bytes_lem e buffer whole room in
    (length-write_char_bytes e buffer ∙ room, ap c_string q.0 ∙ named, together q.1 q.2 q.3 ∙ held)

module _ (junk : Bytes) (junk_whole : length junk ≡ entry_bytes) where
  abbrev read_back : Bytes → Bytes
  read_back r = copy_char_bytes r junk

  -- Only the first record's bytes are read.
  copy-front :
      (r rest : Bytes)
      → length r ≡ entry_bytes
      → copy_char_bytes (r ++ rest) junk ≡ copy_char_bytes r junk
  unfolding copy_char_bytes
  copy-front r rest h =
      ap₂ (λ a b. overwrite (overwrite junk 0 a) 52 b) (take-front 50 r rest (omega arith))
        (ap (take 7) (drop-front 50 r rest (omega arith))
          ∙ take-front 7 (drop 50 r) rest (omega (arith, length-drop 50 r)))

  read_entries-directory_bytes :
      (rs v : List Bytes) (dir : Listing)
      → AreRecordsOf rs dir
      → read_entries junk (length rs) (directory_bytes rs) v ≡ v ++ map read_back rs
  unfolding read_entries
  read_entries-directory_bytes [] v dir listed = sym (append-nil v)
  read_entries-directory_bytes (r ∷ rs) v [] listed = absurd listed
  read_entries-directory_bytes (r ∷ rs) v (f ∷ dir) (own, listed) =
      ap₂ (λ b c. read_entries junk (length rs) b (v ++ c ∷ []))
        (drop-length entry_bytes r (directory_bytes rs) own.0)
        (copy-front r (directory_bytes rs) own.0)
      ∙ read_entries-directory_bytes rs (v ++ read_back r ∷ []) dir listed
      ∙ append_assoc v (read_back r ∷ []) (map read_back rs)

  read_back-IsEntryOf :
      (r name : Bytes) (m : Members) → IsRecordOf r (name, m) → IsEntryOf (read_back r) (name, m)
  read_back-IsEntryOf r name m (whole, named, held) =
      let q = copy_char_bytes_lem r junk whole junk_whole in
      (
        length-copy_char_bytes r junk ∙ junk_whole,
        ap c_string q.0 ∙ named,
        together q.1 q.2 q.3 ∙ held,
      )

  -- `strcmp` reads the whole object and finds the name in its field.
  c_string-read_back :
      (e name : Bytes) → c_string (entry_name e) ≡ some name → c_string e ≡ some name
  c_string-read_back e name named =
      subst (λ bs. c_string bs ≡ some name) (take-drop name_bytes e)
        (c_string-append (entry_name e) (drop name_bytes e) name named)

  -- The search over the entries read finds what the listing says.
  find_entry-Agrees :
      (name : Bytes) (rs : List Bytes) (dir : Listing)
      → AreRecordsOf rs dir
      → (found : Option Bytes) × (find_entry name (map read_back rs) ≡ some found)
        × Agrees name found (first_named name dir)
  unfolding find_entry
  find_entry-Agrees name [] [] h = (none, refl, tt)
  find_entry-Agrees name [] (f ∷ dir) h = absurd h
  find_entry-Agrees name (r ∷ rs) [] h = absurd h
  find_entry-Agrees name (r ∷ rs) ((n, m) ∷ dir) (h, hs) =
      let (whole, field, held) = read_back-IsEntryOf r n m h in
      let named = c_string-read_back (read_back r) n field in
      let (found, runs, agrees) = find_entry-Agrees name rs dir hs in
      elim (Bool-cases (same_bytes name n)) [
        | inl same ↦ (
          some (read_back r),
          rw (find_entry, named, same) refl,
          rw same (whole, field ∙ ap some (sym (same_bytes_sound name n same)), held),
        )
        | inr other ↦ (found, rw (find_entry, named, other) runs, rw other agrees)
      ]

module _ (d : SectorStore) (stack behind : Bytes) (big : length stack ≡ 2048) where
  found_info-Answers :
      (name dir_struct : Bytes) (found : Option Bytes) (listed : Option Members)
      → length dir_struct ≡ entry_bytes
      → Agrees name found listed
      → Answers name dir_struct listed (found_info d stack behind dir_struct found)
  unfolding copy_directory_info
  found_info-Answers name dir_struct none none whole h = (refl, refl)
  found_info-Answers name dir_struct none (some m) whole h = absurd h
  found_info-Answers name dir_struct (some e) none whole h = absurd h
  found_info-Answers name dir_struct (some e) (some m) whole (len, field, held) =
      let q =
        copy-write_char_bytes e (take entry_bytes stack) dir_struct len
          (omega (arith, length-take entry_bytes stack)) whole in
      (
        refl,
        (
          length-copy_char_bytes (write_char_bytes e (take entry_bytes stack)) dir_struct ∙ whole,
          ap c_string q.0 ∙ field,
          together q.1 q.2 q.3 ∙ held,
        ),
      )

  -- When the bytes of a directory's file are records of 60 bytes each, with names that end within
  -- their fields and any padding, then the loops that read them and search them answer as the listing
  -- does: the name and members of the first file with the name, or -1.
  pub find_entry-first_named :
      (name : Bytes) (rs : List Bytes) (dir : Listing) (dir_struct : Bytes)
      → AreRecordsOf rs dir
      → length dir_struct ≡ entry_bytes
      → (found : Option Bytes) × (find_entry name
            (read_entries (take entry_bytes stack) (length rs) (directory_bytes rs) [])
          ≡ some found)
        × Answers name dir_struct
            (first_named name dir)
            (found_info d stack behind dir_struct found)
  find_entry-first_named name rs dir dir_struct records whole =
      let part : length (take entry_bytes stack) ≡ entry_bytes =
        omega (arith, length-take entry_bytes stack) in
      let (found, runs, agrees) =
        find_entry-Agrees (take entry_bytes stack) part name rs dir records in
      (
        found,
        ap (find_entry name)
              (read_entries-directory_bytes (take entry_bytes stack) part rs [] dir records)
            ∙ runs,
        found_info-Answers name dir_struct found (first_named name dir) whole agrees,
      )
