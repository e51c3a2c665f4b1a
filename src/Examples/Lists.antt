-- ===== src/Examples/Lists.antt =====
-- Two queues in one store, and the list theorems at them.
use p.Base.{◌≡◌, refl, [], ◌∷◌, arith, if◌then◌else◌, ◌==◌, Disjoint}
use p.LinkedList.{Store}
use p.LinkedList.Shape.{IsList}
use p.LinkedList.Insert.{CanInsert}
use p.LinkedList.Move.{TwoLists, move, move-IsList}

-- List 1 holds the nodes 10 and 20, list 2 the node 30.
abbrev pub two_queues : Store
two_queues = record {
  prev = λ q. if q == 20 then 10 else 0;
  next = λ q. if q == 10 then 20 else 0;
  length = λ q. if q == 1 then 2 else if q == 2 then 1 else 0;
  head = λ q. if q == 1 then 10 else if q == 2 then 30 else 0;
  tail = λ q. if q == 1 then 20 else if q == 2 then 30 else 0;
}

pub first_IsList : IsList two_queues 1 (10 ∷ 20 ∷ [])
first_IsList = record {
  head = refl;
  tail = refl;
  length = refl;
  links = (omega arith, refl, refl, (omega arith, refl, refl, tt));
  distinct = (refl, (refl, tt));
}

pub second_IsList : IsList two_queues 2 (30 ∷ [])
second_IsList = record {
  head = refl;
  tail = refl;
  length = refl;
  links = (omega arith, refl, refl, tt);
  distinct = (refl, tt);
}

pub second_apart : Disjoint (30 ∷ []) (10 ∷ 20 ∷ [])
second_apart a h = ground arith

two_lists : TwoLists two_queues 1 2 10 [] (20 ∷ []) (30 ∷ [])
two_lists = record {
  from_set = omega arith;
  to_set = omega arith;
  two = omega arith;
  source = first_IsList;
  target = second_IsList;
  apart = second_apart;
  small = omega arith;
  room = omega arith;
}

fresh_40 : CanInsert 1 40 (10 ∷ 20 ∷ [])
fresh_40 = record {
  list_set = omega arith;
  node_set = omega arith;
  fresh = refl;
  room = omega arith;
}

move-IsList_example :
    IsList (move 1 2 10 two_queues) 1 (20 ∷ [])
    × IsList (move 1 2 10 two_queues) 2 (30 ∷ 10 ∷ [])
    × ((move 1 2 10 two_queues).next 10 ≡ 0)
move-IsList_example = move-IsList two_queues 1 2 10 [] (20 ∷ []) (30 ∷ []) two_lists
