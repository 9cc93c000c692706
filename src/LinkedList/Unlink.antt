-- ===== src/LinkedList/Unlink.antt =====
-- `unlink` takes a node out of the list, and a `for` loop visits the nodes in order.
use mathlib.Core.List.{append_assoc}
use ex2_file_system.LinkedList.{
  Ptr, Heap, LinkedList, null, update, get_next, get_prev, set_next, set_prev, unlink, visit_loop,
  begin, get_head, advance,
}
use ex2_file_system.LinkedList.Shape.{
  has, Distinct, Linked, Holds, IsLoose, has-append, frame, at_pair, front_cases, back_cases,
}
use ex2_file_system.Base.{
  ℕ, zero, suc, ◌≡◌, ◌<◌, ◌==◌, ◌||◌, true, false, List, [], ◌∷◌, ◌++◌, arith, ap, ◌∙◌, some, subst,
  sym, length, ==_refl,
}

-- The heap once `x` is gone from between `a` and `b`.
abbrev bridged : Heap → Ptr → Ptr → Ptr → Heap
bridged h a x b = record h {
  next = update (update h.next a b) x null;
  prev = update (update h.prev b a) x null;
}

bridge-Linked :
    (h : Heap) (us : List Ptr) (a x b : Ptr) (vs : List Ptr)
    → Linked h (us ++ a ∷ x ∷ b ∷ vs)
    → Distinct (us ++ a ∷ x ∷ b ∷ vs)
    → Linked (bridged h a x b) (us ++ a ∷ b ∷ vs)
bridge-Linked h [] a x b vs k dis = (
  ground arith,
  ground arith,
  frame h (bridged h a x b) b vs (λ c m. ground arith) (λ c m. ground arith) k.2.2,
)
bridge-Linked h (c ∷ []) a x b vs k dis =
    (ground arith, ground arith, bridge-Linked h [] a x b vs k.2 dis.1)
bridge-Linked h (c ∷ d ∷ us) a x b vs k dis = (
  ground (arith, has-append c us (a ∷ x ∷ b ∷ vs)),
  ground (arith, has-append d us (a ∷ x ∷ b ∷ vs)),
  bridge-Linked h (d ∷ us) a x b vs k.2 dis.1,
)

has-bridge :
    (p : Ptr) (us : List Ptr) (a x : Ptr) (vs : List Ptr)
    → has p (us ++ a ∷ x ∷ vs) ≡ (p == x || has p (us ++ a ∷ vs))
has-bridge p us a x vs = ground (arith, has-append p us (a ∷ x ∷ vs), has-append p us (a ∷ vs))

bridge-Distinct :
    (us : List Ptr) (a x : Ptr) (vs : List Ptr)
    → Distinct (us ++ a ∷ x ∷ vs)
    → Distinct (us ++ a ∷ vs)
bridge-Distinct [] a x vs dis = (ground arith, dis.1.1)
bridge-Distinct (c ∷ us) a x vs dis =
    (ground (arith, has-bridge c us a x vs), bridge-Distinct us a x vs dis.1)

-- A node of the run is not its first, nor its last.
inner_apart :
    (us : List Ptr) (a x b : Ptr) (vs : List Ptr)
    → Distinct (us ++ a ∷ x ∷ b ∷ vs)
    → ((x == a) ≡ false) × ((x == b) ≡ false) × ((a == b) ≡ false)
inner_apart [] a x b vs dis = (ground arith, ground arith, ground arith)
inner_apart (c ∷ us) a x b vs dis = inner_apart us a x b vs dis.1

module _ (l : LinkedList) (h : Heap) (xs : List Ptr) (holds : Holds h l xs) where
  unlink_steps :
      (us : List Ptr) (a x b : Ptr) (vs : List Ptr)
      → l.head ∷ xs ++ l.tail ∷ [] ≡ us ++ a ∷ x ∷ b ∷ vs
      → (x == l.head || x == l.tail) ≡ false
      → unlink l x h ≡ some (1, bridged h a x b)
  unfolding unlink get_prev get_next set_prev set_next
  unlink_steps us a x b vs e out =
      simp (
        out,
        live x mem_x,
        front.1,
        back.0,
        apart b mem_b,
        live b mem_b,
        apart a mem_a,
        live a mem_a,
      )
    where
      front : (h.next a ≡ x) × (h.prev x ≡ a)
      front = at_pair h us a x (b ∷ vs) (subst (Linked h) e holds.linked)

      back : (h.next x ≡ b) × (h.prev b ≡ x)
      back =
          at_pair h (us ++ a ∷ []) x b vs
            (subst (Linked h) (e ∙ sym (append_assoc us (a ∷ []) (x ∷ b ∷ vs))) holds.linked)

      mem_a : has a (l.head ∷ xs ++ l.tail ∷ []) ≡ true
      mem_a = ap (has a) e ∙ ground (arith, has-append a us (a ∷ x ∷ b ∷ vs))

      mem_x : has x (l.head ∷ xs ++ l.tail ∷ []) ≡ true
      mem_x = ap (has x) e ∙ ground (arith, has-append x us (a ∷ x ∷ b ∷ vs))

      mem_b : has b (l.head ∷ xs ++ l.tail ∷ []) ≡ true
      mem_b = ap (has b) e ∙ ground (arith, has-append b us (a ∷ x ∷ b ∷ vs))

      live : (c : Ptr) → has c (l.head ∷ xs ++ l.tail ∷ []) ≡ true → h.allocated c ≡ true
      live c m = holds.live c m

      apart : (c : Ptr) → has c (l.head ∷ xs ++ l.tail ∷ []) ≡ true → (c == null) ≡ false
      apart c m = ground (arith, holds.no_null)

  bridge-Holds :
      (us : List Ptr) (a x b : Ptr) (vs ys : List Ptr)
      → l.head ∷ xs ++ l.tail ∷ [] ≡ us ++ a ∷ x ∷ b ∷ vs
      → l.head ∷ ys ++ l.tail ∷ [] ≡ us ++ a ∷ b ∷ vs
      → Holds (bridged h a x b) l ys
  bridge-Holds us a x b vs ys e e' = record {
    linked = subst (Linked (bridged h a x b)) (sym e') (
        bridge-Linked h us a x b vs (subst (Linked h) e holds.linked)
          (subst Distinct e holds.distinct));
    distinct =
        subst Distinct (sym e') (bridge-Distinct us a x (b ∷ vs) (subst Distinct e holds.distinct));
    live = λ p m.
        ground (arith, has-bridge p us a x (b ∷ vs), ap (has p) e, ap (has p) e', holds.live p);
    no_null =
        ground (
          arith,
          has-bridge null us a x (b ∷ vs),
          ap (has null) e,
          ap (has null) e',
          holds.no_null,
        );
  }

not-has_behind :
    (us : List Ptr) (x : Ptr) (vs : List Ptr) → Distinct (us ++ x ∷ vs) → has x vs ≡ false
not-has_behind [] x vs dis = dis.0
not-has_behind (c ∷ us) x vs dis = not-has_behind us x vs dis.1

-- `unlink` takes a node of the list out: it returns 1, the list holds the other nodes in their
-- order, and the node is loose.
pub unlink-Holds :
    (l : LinkedList) (h : Heap) (us vs : List Ptr) (x : Ptr)
    → Holds h l (us ++ x ∷ vs)
    → (h' : Heap) × (unlink l x h ≡ some (1, h')) × Holds h' l (us ++ vs) × IsLoose h' x
unlink-Holds l h us vs x holds =
    let (ps, a, e) = back_cases l.head us in
    let (b, qs, e') = front_cases vs l.tail in
    let whole : l.head ∷ (us ++ x ∷ vs) ++ l.tail ∷ [] ≡ ps ++ a ∷ x ∷ b ∷ qs =
      ap (◌∷◌ l.head) (append_assoc us (x ∷ vs) (l.tail ∷ []))
      ∙ ap (λ rs. l.head ∷ us ++ x ∷ rs) e'
      ∙ ap (λ rs. rs ++ x ∷ b ∷ qs) e
      ∙ append_assoc ps (a ∷ []) (x ∷ b ∷ qs) in
    let less : l.head ∷ (us ++ vs) ++ l.tail ∷ [] ≡ ps ++ a ∷ b ∷ qs =
      ap (◌∷◌ l.head) (append_assoc us vs (l.tail ∷ []))
      ∙ ap (λ rs. l.head ∷ us ++ rs) e'
      ∙ ap (λ rs. rs ++ b ∷ qs) e
      ∙ append_assoc ps (a ∷ []) (b ∷ qs) in
    (
      bridged h a x b,
      unlink_steps l h (us ++ x ∷ vs) holds ps a x b qs whole outside,
      bridge-Holds l h (us ++ x ∷ vs) holds ps a x b qs (us ++ vs) whole less,
      record {
        next = ground arith;
        prev = ground arith;
        live = holds.live x mem_x;
        ne_null = ground (arith, holds.no_null, mem_x);
      },
    )
  where
    mem_x : has x (l.head ∷ (us ++ x ∷ vs) ++ l.tail ∷ []) ≡ true
    mem_x = ground (arith, has-append x (us ++ x ∷ vs) (l.tail ∷ []), has-append x us (x ∷ vs))

    tail_run : (us ++ x ∷ vs) ++ l.tail ∷ [] ≡ us ++ (x ∷ (vs ++ l.tail ∷ []))
    tail_run = append_assoc us (x ∷ vs) (l.tail ∷ [])

    behind : has x (vs ++ l.tail ∷ []) ≡ false
    behind = not-has_behind us x (vs ++ l.tail ∷ []) (subst Distinct tail_run holds.distinct.1)

    outside : (x == l.head || x == l.tail) ≡ false
    outside = ground (
      arith,
      behind,
      has-append x vs (l.tail ∷ []),
      holds.distinct.0,
      has-append l.head (us ++ x ∷ vs) (l.tail ∷ []),
      has-append l.head us (x ∷ vs),
    )

abbrev first_of_run : List Ptr → Ptr → Ptr
first_of_run [] t = t
first_of_run (y ∷ ys) t = y

run_next :
    (h : Heap) (y : Ptr) (ys : List Ptr) (t : Ptr)
    → Linked h (y ∷ ys ++ t ∷ [])
    → h.next y ≡ first_of_run ys t
run_next h y [] t k = k.0
run_next h y (z ∷ ys) t k = k.0

run_rest :
    (h : Heap) (y : Ptr) (ys : List Ptr) (t : Ptr)
    → Linked h (y ∷ ys ++ t ∷ [])
    → Linked h (ys ++ t ∷ [])
run_rest h y [] t k = k.2
run_rest h y (z ∷ ys) t k = k.2

visit_run :
    (l : LinkedList) (h : Heap) (ys : List Ptr) (k : ℕ)
    → Linked h (ys ++ l.tail ∷ [])
    → Distinct (ys ++ l.tail ∷ [])
    → ((p : Ptr) → has p (ys ++ l.tail ∷ []) ≡ true → h.allocated p ≡ true)
    → has null (ys ++ l.tail ∷ []) ≡ false
    → length ys < k
    → visit_loop l k (first_of_run ys l.tail) h ≡ some ys
unfolding visit_loop advance get_next
visit_run l h [] zero linked dis live nn fuel = absurd (omega arith)
visit_run l h [] (suc k) linked dis live nn fuel = ground arith
visit_run l h (y ∷ ys) zero linked dis live nn fuel = absurd (omega arith)
visit_run l h (y ∷ ys) (suc k) linked dis live nn fuel = simp (
  not_end,
  not_null,
  live y (ground arith),
  run_next h y ys l.tail linked,
  visit_run l h ys k (run_rest h y ys l.tail linked) dis.1 (λ p m. live p (ground arith))
      (ground arith) (omega arith),
)
  where
    not_end : (y == l.tail) ≡ false
    not_end = ground (arith, has-append y ys (l.tail ∷ []))

    not_null : (y == null) ≡ false
    not_null = ground arith

begin_lem :
    (l : LinkedList) (h : Heap) (xs : List Ptr)
    → Holds h l xs
    → begin l h ≡ some (first_of_run xs l.tail)
unfolding begin get_head get_next
begin_lem l h [] holds = rw (holds.live l.head (ground arith), first, ==_refl l.tail)
  where
    first : h.next l.head ≡ l.tail
    first = run_next h l.head [] l.tail holds.linked
begin_lem l h (y ∷ ys) holds = rw (holds.live l.head (ground arith), first, not_end, not_null)
  where
    first : h.next l.head ≡ y
    first = run_next h l.head (y ∷ ys) l.tail holds.linked

    not_end : (y == l.tail) ≡ false
    not_end = ground (arith, holds.distinct.1.0, has-append y ys (l.tail ∷ []))

    not_null : (y == null) ≡ false
    not_null = ground (arith, holds.no_null)

-- A loop from `begin` to `end` visits the nodes of the list in order and ends, given more rounds
-- than the list has nodes.
pub visit-Holds :
    (l : LinkedList) (h : Heap) (xs : List Ptr) (k : ℕ)
    → Holds h l xs
    → length xs < k
    → (first : Ptr) × (begin l h ≡ some first) × (visit_loop l k first h ≡ some xs)
visit-Holds l h xs k holds fuel = (
  first_of_run xs l.tail,
  begin_lem l h xs holds,
  visit_run l h xs k (run_rest h l.head xs l.tail holds.linked) holds.distinct.1
      (λ p m. holds.live p (ground arith)) (ground (arith, holds.no_null)) fuel,
)
