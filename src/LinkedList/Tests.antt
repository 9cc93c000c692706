-- ===== src/LinkedList/Tests.antt =====
-- A list of one node, and loose nodes.
use ex2_file_system.LinkedList.{
  Ptr, Heap, LinkedList, insert_head, insert_tail, unlink, begin, visit_loop,
}
use ex2_file_system.LinkedList.Shape.{Holds, IsLoose}
use ex2_file_system.LinkedList.Insert.{insert_head-Holds, insert_tail-Holds}
use ex2_file_system.LinkedList.Unlink.{unlink-Holds, visit-Holds}
use ex2_file_system.Base.{◌≡◌, refl, some, List, [], ◌∷◌, ◌==◌, ltb, if◌then◌else◌, arith}

abbrev pub cells : Heap
cells = record {
  allocated = λ p. ltb p 10;
  next = λ p. if p == 1 then 5 else if p == 5 then 2 else 0;
  prev = λ p. if p == 2 then 5 else if p == 5 then 1 else 0;
}

abbrev pub list : LinkedList
list = record { head = 1; tail = 2; curr_size = 0 }

abbrev pub five : List Ptr
five = 5 ∷ []

pub cells-Holds : Holds cells list five
cells-Holds = record {
  linked = (refl, refl, (refl, refl, tt));
  distinct = (refl, (refl, (refl, tt)));
  live = λ p m. ground arith;
  no_null = refl;
}

pub seven-IsLoose : IsLoose cells 7
seven-IsLoose = record { next = refl; prev = refl; live = refl; ne_null = refl }

insert_head_example :
    (h : Heap) × (insert_head list 7 cells ≡ some (0, h)) × Holds h list (7 ∷ five)
insert_head_example = insert_head-Holds list cells five 7 cells-Holds seven-IsLoose refl

insert_tail_example :
    (h : Heap) × (insert_tail list 7 cells ≡ some (0, h)) × Holds h list (5 ∷ 7 ∷ [])
insert_tail_example = insert_tail-Holds list cells five 7 cells-Holds seven-IsLoose refl

unlink_example : (h : Heap) × (unlink list 5 cells ≡ some (1, h)) × Holds h list [] × IsLoose h 5
unlink_example = unlink-Holds list cells [] [] 5 cells-Holds

visit_example :
    (first : Ptr) × (begin list cells ≡ some first) × (visit_loop list 3 first cells ≡ some five)
visit_example = visit-Holds list cells five 3 cells-Holds (omega arith)
