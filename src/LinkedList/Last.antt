-- ===== src/LinkedList/Last.antt =====
-- `get_tail` is the last node.
use mathlib.Core.List.{append_assoc}
use ex2_file_system.LinkedList.{Ptr, Heap, LinkedList, get_prev, get_tail}
use ex2_file_system.LinkedList.Shape.{Distinct, Linked, Holds, has-append, at_pair}
use ex2_file_system.Base.{◌≡◌, ◌==◌, false, true, List, [], ◌∷◌, ◌++◌, ap, subst, some, arith}

last_apart : (ys : List Ptr) (v t : Ptr) → Distinct (ys ++ v ∷ t ∷ []) → (v == t) ≡ false
last_apart [] v t dis = ground arith
last_apart (y ∷ ys) v t dis = last_apart ys v t dis.1

-- The last node of a list is no sentinel.
pub last_not_sentinel :
    (h : Heap) (l : LinkedList) (xs : List Ptr) (v : Ptr)
    → Holds h l (xs ++ v ∷ [])
    → ((v == l.head) ≡ false) × ((v == l.tail) ≡ false)
last_not_sentinel h l xs v holds = (
  ground (
    arith,
    holds.distinct.0,
    has-append l.head (xs ++ v ∷ []) (l.tail ∷ []),
    has-append l.head xs (v ∷ []),
  ),
  last_apart xs v l.tail (subst Distinct (append_assoc xs (v ∷ []) (l.tail ∷ [])) holds.distinct.1),
)

pub get_tail-Holds :
    (h : Heap) (l : LinkedList) (xs : List Ptr) (v : Ptr)
    → Holds h l (xs ++ v ∷ [])
    → get_tail l h ≡ some v
unfolding get_tail get_prev
get_tail-Holds h l xs v holds = rw (live_tail, back, (last_not_sentinel h l xs v holds).0)
  where
    whole : l.head ∷ (xs ++ v ∷ []) ++ l.tail ∷ [] ≡ (l.head ∷ xs) ++ v ∷ l.tail ∷ []
    whole = ap (◌∷◌ l.head) (append_assoc xs (v ∷ []) (l.tail ∷ []))

    back : h.prev l.tail ≡ v
    back = (at_pair h (l.head ∷ xs) v l.tail [] (subst (Linked h) (whole) holds.linked)).1

    live_tail : h.allocated l.tail ≡ true
    live_tail = holds.live l.tail (ground (arith, has-append l.tail (xs ++ v ∷ []) (l.tail ∷ [])))
