-- ===== src/LinkedList/Shape.antt =====
-- Runs of nodes that are linked both ways.
use ex2_file_system.LinkedList.{Ptr, Heap, LinkedList, null}
use ex2_file_system.Base.{
  ◌≡◌, refl, ◌==◌, ◌||◌, Bool, true, false, List, [], ◌∷◌, ◌++◌, arith, ap, ◌∙◌,
}

abbrev pub has : Ptr → List Ptr → Bool
has a [] = false
has a (p ∷ ps) = (a == p) || has a ps

abbrev pub Distinct : List Ptr → Type 0
Distinct [] = Unit {0}
Distinct (p ∷ ps) = (has p ps ≡ false) × Distinct ps

-- Each node's `next` is its successor, and the successor's `prev` leads back.
abbrev pub Linked : Heap → List Ptr → Type 0
Linked h [] = Unit {0}
Linked h (a ∷ []) = Unit {0}
Linked h (a ∷ b ∷ ps) = (h.next a ≡ b) × (h.prev b ≡ a) × Linked h (b ∷ ps)

-- A list object holds the nodes `xs`, in order, between its two sentinels.
pub record Holds (h : Heap) (l : LinkedList) (xs : List Ptr) : Type 0 where
  pub linked : Linked h (l.head ∷ xs ++ l.tail ∷ [])
  pub distinct : Distinct (l.head ∷ xs ++ l.tail ∷ [])
  pub live : (p : Ptr) → has p (l.head ∷ xs ++ l.tail ∷ []) ≡ true → h.allocated p ≡ true
  pub no_null : has null (l.head ∷ xs ++ l.tail ∷ []) ≡ false

-- A node that is on no list: allocated, with both pointers null.
pub record IsLoose (h : Heap) (x : Ptr) : Type 0 where
  pub next : h.next x ≡ null
  pub prev : h.prev x ≡ null
  pub live : h.allocated x ≡ true
  pub ne_null : (x == null) ≡ false

pub has-append : (p : Ptr) (xs ys : List Ptr) → has p (xs ++ ys) ≡ (has p xs || has p ys)
has-append p [] ys = refl
has-append p (x ∷ xs) ys = ground (arith, has-append p xs ys)

-- A heap that agrees on the pointers inside the run keeps it linked.
pub frame :
    (h h' : Heap) (a : Ptr) (ps : List Ptr)
    → ((c : Ptr) → has c (a ∷ ps) ≡ true → h'.next c ≡ h.next c)
    → ((c : Ptr) → has c ps ≡ true → h'.prev c ≡ h.prev c)
    → Linked h (a ∷ ps)
    → Linked h' (a ∷ ps)
frame h h' a [] sn sp k = tt
frame h h' a (b ∷ ps) sn sp (e, e', k) = (
  sn a (ground arith) ∙ e,
  sp b (ground arith) ∙ e',
  frame h h' b ps (λ c m. sn c (ground arith)) (λ c m. sp c (ground arith)) k,
)

-- The pointers between two neighbours.
pub at_pair :
    (h : Heap) (us : List Ptr) (a b : Ptr) (vs : List Ptr)
    → Linked h (us ++ a ∷ b ∷ vs)
    → (h.next a ≡ b) × (h.prev b ≡ a)
at_pair h [] a b vs k = (k.0, k.1)
at_pair h (c ∷ []) a b vs k = at_pair h [] a b vs k.2
at_pair h (c ∷ d ∷ us) a b vs k = at_pair h (d ∷ us) a b vs k.2

-- The node behind a sentinel, and the last node before the other one.
pub front_cases : (xs : List Ptr) (t : Ptr) → (b : Ptr) × (vs : List Ptr) × (xs ++ t ∷ [] ≡ b ∷ vs)
front_cases [] t = (t, [], refl)
front_cases (x ∷ xs) t = (x, xs ++ t ∷ [], refl)

pub back_cases : (h : Ptr) (xs : List Ptr) → (us : List Ptr) × (a : Ptr) × (h ∷ xs ≡ us ++ a ∷ [])
back_cases h [] = ([], h, refl)
back_cases h (x ∷ xs) = let (us, a, e) = back_cases x xs in (h ∷ us, a, ap (◌∷◌ h) e)
