-- ===== src/LinkedList/Insert.antt =====
-- `insert_head` and `insert_tail` put a loose node at the ends of the list.
use mathlib.Core.List.{append_assoc}
use ex2_file_system.LinkedList.{
  Ptr, Heap, LinkedList, null, update, get_next, get_prev, set_next, set_prev, unlink,
  insert_helper, insert_head, insert_tail,
}
use ex2_file_system.LinkedList.Shape.{
  has, Distinct, Linked, Holds, IsLoose, has-append, frame, at_pair, front_cases, back_cases,
}
use ex2_file_system.Base.{
  ◌≡◌, ◌==◌, ◌||◌, true, false, List, [], ◌∷◌, ◌++◌, arith, ap, ◌∙◌, some, subst, sym,
}

-- The heap once `x` stands between `a` and `b`.
abbrev spliced : Heap → Ptr → Ptr → Ptr → Heap
spliced h a x b = record h {
  next = update (update h.next a x) x b;
  prev = update (update h.prev x a) b x;
}

splice-Linked :
    (h : Heap) (us : List Ptr) (a b : Ptr) (vs : List Ptr) (x : Ptr)
    → Linked h (us ++ a ∷ b ∷ vs)
    → Distinct (us ++ a ∷ b ∷ vs)
    → has x (us ++ a ∷ b ∷ vs) ≡ false
    → Linked (spliced h a x b) (us ++ a ∷ x ∷ b ∷ vs)
splice-Linked h [] a b vs x k dis out = (
  ground arith,
  ground arith,
  (
    ground arith,
    ground arith,
    frame h (spliced h a x b) b vs (λ c m. ground arith) (λ c m. ground arith) k.2,
  ),
)
splice-Linked h (c ∷ []) a b vs x k dis out =
    (ground arith, ground arith, splice-Linked h [] a b vs x k.2 dis.1 (ground arith))
splice-Linked h (c ∷ d ∷ us) a b vs x k dis out = (
  ground (arith, has-append c us (a ∷ b ∷ vs), has-append x us (a ∷ b ∷ vs)),
  ground (arith, has-append d us (a ∷ b ∷ vs), has-append x us (a ∷ b ∷ vs)),
  splice-Linked h (d ∷ us) a b vs x k.2 dis.1 (ground arith),
)

-- The node is new to the run, so the longer run has no repetition either.
splice-Distinct :
    (us : List Ptr) (a : Ptr) (vs : List Ptr) (x : Ptr)
    → Distinct (us ++ a ∷ vs)
    → has x (us ++ a ∷ vs) ≡ false
    → Distinct (us ++ a ∷ x ∷ vs)
splice-Distinct [] a vs x dis out = (ground arith, (ground arith, dis.1))
splice-Distinct (c ∷ us) a vs x dis out = (
  ground (arith, has-append c us (a ∷ x ∷ vs), has-append c us (a ∷ vs), has-append x us (a ∷ vs)),
  splice-Distinct us a vs x dis.1 (ground arith),
)

has-splice :
    (p : Ptr) (us : List Ptr) (a x : Ptr) (vs : List Ptr)
    → has p (us ++ a ∷ x ∷ vs) ≡ (p == x || has p (us ++ a ∷ vs))
has-splice p us a x vs = ground (arith, has-append p us (a ∷ x ∷ vs), has-append p us (a ∷ vs))

module _ (l : LinkedList) (h : Heap) (x : Ptr) (loose : IsLoose h x) where
  -- A loose node is unlinked without a change that matters.
  pub unlinked : Heap
  unlinked = record h { next = update h.next x null; prev = update h.prev x null }

  pub unlink_loose : (x == l.head || x == l.tail) ≡ false → unlink l x h ≡ some (1, unlinked)
  unfolding unlink get_prev get_next set_prev set_next unlinked
  unlink_loose out = simp (out, loose.live, loose.next, loose.prev)

  -- Between two nodes of the heap the four assignments splice the node in.
  insert_helper_lem :
      (a b : Ptr)
      → (a == null) ≡ false
      → (b == null) ≡ false
      → h.allocated a ≡ true
      → h.allocated b ≡ true
      → insert_helper l a x b unlinked ≡ some (0, spliced unlinked a x b)
  unfolding insert_helper set_prev set_next unlinked
  insert_helper_lem a b na nb la lb = simp (na, nb, loose.ne_null, la, lb, loose.live)

module _ (l : LinkedList) (h : Heap) (xs : List Ptr) (x : Ptr) (holds : Holds h l xs)
    (loose : IsLoose h x) (out : has x (l.head ∷ xs ++ l.tail ∷ []) ≡ false) where
  not_sentinel : (x == l.head || x == l.tail) ≡ false
  not_sentinel = ground (arith, has-append x xs (l.tail ∷ []))

  -- The list is as it was on the heap where the loose node's pointers were cleared.
  still : Linked (unlinked l h x loose) (l.head ∷ xs ++ l.tail ∷ [])
  unfolding unlinked
  still =
      frame h (unlinked l h x loose) l.head (xs ++ l.tail ∷ []) (λ c m. ground (arith, loose.next))
        (λ c m. ground (arith, loose.prev)) holds.linked

  spliced_heap : Ptr → Ptr → Heap
  spliced_heap a b = spliced (unlinked l h x loose) a x b

  -- The list that results when the node goes between the neighbours `a` and `b`.
  finish :
      (us : List Ptr) (a b : Ptr) (vs ys : List Ptr)
      → l.head ∷ xs ++ l.tail ∷ [] ≡ us ++ a ∷ b ∷ vs
      → l.head ∷ ys ++ l.tail ∷ [] ≡ us ++ a ∷ x ∷ b ∷ vs
      → Holds (spliced_heap a b) l ys
  unfolding spliced_heap unlinked
  finish us a b vs ys e e' = record {
    linked = subst (Linked (spliced (unlinked l h x loose) a x b)) (sym e') (
        splice-Linked (unlinked l h x loose) us a b vs x
          (subst (Linked (unlinked l h x loose)) e still) (subst Distinct e holds.distinct)
          (subst (λ ps. has x ps ≡ false) e out));
    distinct = subst Distinct (sym e') (
        splice-Distinct us a (b ∷ vs) x (subst Distinct e holds.distinct)
          (subst (λ ps. has x ps ≡ false) e out));
    live = λ p m. ground (
      arith,
      has-splice p us a x (b ∷ vs),
      ap (has p) e,
      ap (has p) e',
      holds.live p,
      loose.live,
    );
    no_null = ground (
      arith,
      has-splice null us a x (b ∷ vs),
      ap (has null) e,
      ap (has null) e',
      holds.no_null,
      loose.ne_null,
    );
  }

  -- The calls succeed at two neighbours of the list.
  neighbours :
      (us : List Ptr) (a b : Ptr) (vs : List Ptr)
      → l.head ∷ xs ++ l.tail ∷ [] ≡ us ++ a ∷ b ∷ vs
      → insert_helper l a x b (unlinked l h x loose) ≡ some (0, spliced_heap a b)
  unfolding spliced_heap
  neighbours us a b vs e =
      insert_helper_lem l h x loose a b (apart a mem_a) (apart b mem_b) (holds.live a mem_a)
        (holds.live b mem_b)
    where
      mem_a : has a (l.head ∷ xs ++ l.tail ∷ []) ≡ true
      mem_a = ap (has a) e ∙ ground (arith, has-append a us (a ∷ b ∷ vs))

      mem_b : has b (l.head ∷ xs ++ l.tail ∷ []) ≡ true
      mem_b = ap (has b) e ∙ ground (arith, has-append b us (a ∷ b ∷ vs))

      apart : (c : Ptr) → has c (l.head ∷ xs ++ l.tail ∷ []) ≡ true → (c == null) ≡ false
      apart c m = ground (arith, holds.no_null)

  -- What the code reads of two neighbours once the node is unlinked.
  reads :
      (us : List Ptr) (a b : Ptr) (vs : List Ptr)
      → l.head ∷ xs ++ l.tail ∷ [] ≡ us ++ a ∷ b ∷ vs
      → (get_next a (unlinked l h x loose) ≡ some b) × (get_prev b (unlinked l h x loose) ≡ some a)
  unfolding get_next get_prev unlinked
  reads us a b vs e =
      let pair =
        at_pair (unlinked l h x loose) us a b vs (subst (Linked (unlinked l h x loose)) e still) in
      let live_a = holds.live a (ap (has a) e ∙ ground (arith, has-append a us (a ∷ b ∷ vs))) in
      let live_b = holds.live b (ap (has b) e ∙ ground (arith, has-append b us (a ∷ b ∷ vs))) in
      (rw live_a (ap some pair.0), rw live_b (ap some pair.1))

module _ (l : LinkedList) (h : Heap) (xs : List Ptr) (x : Ptr) where
  -- A loose node that is not on the list goes to the front: `insert_head` returns 0, and the list
  -- then holds the node before the nodes that it held.
  pub insert_head-Holds :
      Holds h l xs
      → IsLoose h x
      → has x (l.head ∷ xs ++ l.tail ∷ []) ≡ false
      → (h' : Heap) × (insert_head l x h ≡ some (0, h')) × Holds h' l (x ∷ xs)
  unfolding insert_head
  insert_head-Holds holds loose out =
      let (b, vs, e) = front_cases xs l.tail in
      let pair : l.head ∷ xs ++ l.tail ∷ [] ≡ l.head ∷ b ∷ vs = ap (◌∷◌ l.head) e in
      (
        spliced_heap l h xs x holds loose out l.head b,
        simp
            (
              not_sentinel l h xs x holds loose out,
              unlink_loose l h x loose (not_sentinel l h xs x holds loose out),
            )
            (rw (reads l h xs x holds loose out [] l.head b vs pair).0
              (neighbours l h xs x holds loose out [] l.head b vs pair)),
        finish l h xs x holds loose out [] l.head b vs (x ∷ xs) pair (ap (λ ps. l.head ∷ x ∷ ps) e),
      )

  -- `insert_tail` returns 0 and the list holds the node behind those that it held.
  pub insert_tail-Holds :
      Holds h l xs
      → IsLoose h x
      → has x (l.head ∷ xs ++ l.tail ∷ []) ≡ false
      → (h' : Heap) × (insert_tail l x h ≡ some (0, h')) × Holds h' l (xs ++ x ∷ [])
  unfolding insert_tail
  insert_tail-Holds holds loose out =
      let (us, a, e) = back_cases l.head xs in
      let pair : l.head ∷ xs ++ l.tail ∷ [] ≡ us ++ a ∷ l.tail ∷ [] =
        ap (λ ps. ps ++ l.tail ∷ []) e ∙ append_assoc us (a ∷ []) (l.tail ∷ []) in
      let grown : l.head ∷ (xs ++ x ∷ []) ++ l.tail ∷ [] ≡ us ++ a ∷ x ∷ l.tail ∷ [] =
        ap (◌∷◌ l.head) (append_assoc xs (x ∷ []) (l.tail ∷ []))
        ∙ ap (λ ps. ps ++ x ∷ l.tail ∷ []) e
        ∙ append_assoc us (a ∷ []) (x ∷ l.tail ∷ []) in
      (
        spliced_heap l h xs x holds loose out a l.tail,
        simp
            (
              not_sentinel l h xs x holds loose out,
              unlink_loose l h x loose (not_sentinel l h xs x holds loose out),
            )
            (rw (reads l h xs x holds loose out us a l.tail [] pair).1
              (neighbours l h xs x holds loose out us a l.tail [] pair)),
        finish l h xs x holds loose out us a l.tail [] (xs ++ x ∷ []) pair grown,
      )
