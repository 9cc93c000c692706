-- ===== src/Shell/Names/Splitting.antt =====
-- `split_file_name` against the names of a path.
use mathlib.Core.List.{append_assoc, append-nil}
use ex2_file_system.Memory.{Bytes}
use ex2_file_system.Shell.Names.{slash, next_name, rest_of_name, split_file_name}
use ex2_file_system.Base.{◌≡◌, ◌==◌, false, List, [], ◌∷◌, ◌++◌, ap, sym, ◌∙◌}

-- The names with a slash between each two.
abbrev pub join : List Bytes → Bytes
join [] = []
join (n ∷ []) = n
join (n ∷ m ∷ ns) = n ++ slash ∷ join (m ∷ ns)

abbrev pub NoSlash : Bytes → Type 0
NoSlash [] = Unit {0}
NoSlash (c ∷ cs) = ((c == slash) ≡ false) × NoSlash cs

-- Names that a path can spell: none has a slash, and the last one is not empty.
abbrev pub AreNames : List Bytes → Type 0
AreNames [] = Unit {0}
AreNames ([] ∷ []) = ⊥
AreNames ((c ∷ cs) ∷ []) = NoSlash (c ∷ cs)
AreNames (n ∷ m ∷ ns) = NoSlash n × AreNames (m ∷ ns)

-- The inner loop reads a name up to what follows it.
rest_of_name-append :
    (n r curr : Bytes) (v : List Bytes)
    → NoSlash n
    → rest_of_name (n ++ r) curr v ≡ rest_of_name r (curr ++ n) v
unfolding next_name
rest_of_name-append [] r curr v h = ap (λ c. rest_of_name r c v) (sym (append-nil curr))
rest_of_name-append (c ∷ n) r curr v (e, h) = rw e (
    rest_of_name-append n r (curr ++ c ∷ []) v h
    ∙ ap (λ p. rest_of_name r p v) (append_assoc curr (c ∷ []) n))

next_name-join : (ns : List Bytes) (v : List Bytes) → AreNames ns → next_name (join ns) v ≡ v ++ ns
unfolding next_name
next_name-join [] v h = sym (append-nil v)
next_name-join ([] ∷ []) v h = absurd h
next_name-join ((c ∷ cs) ∷ []) v (e, h) = rw e (
    ap (λ r. rest_of_name r (c ∷ []) v) (sym (append-nil cs))
    ∙ rest_of_name-append cs [] (c ∷ []) v h)
next_name-join ([] ∷ m ∷ ns) v (_, h) =
    next_name-join (m ∷ ns) (v ++ [] ∷ []) h ∙ append_assoc v ([] ∷ []) (m ∷ ns)
next_name-join ((c ∷ cs) ∷ m ∷ ns) v ((e, h), k) = rw e (
    rest_of_name-append cs (slash ∷ join (m ∷ ns)) (c ∷ []) v h
    ∙ next_name-join (m ∷ ns) (v ++ (c ∷ cs) ∷ []) k
    ∙ append_assoc v ((c ∷ cs) ∷ []) (m ∷ ns))

-- Names without a slash, of which the last is not empty, come back from the path that joins them,
-- behind what the vector held.
pub split_file_name-join :
    (ns : List Bytes) (v : List Bytes) → AreNames ns → split_file_name (join ns) v ≡ v ++ ns
unfolding split_file_name
split_file_name-join ns v h = next_name-join ns v h
