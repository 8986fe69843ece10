-- ===== src/Links/Tests.antt =====
-- Lists of concrete nodes.
use toy_ip.Base.{List, ℕ, ◌≡◌, ◌↔◌, refl, [], ◌∷◌, some, true, arith}
use toy_ip.Links.{
  Heap, put, list_init, list_add, list_add_tail, list_del, list_del_init, list_empty, for_each_from,
  list_for_each,
}
use toy_ip.Links.Ring.{IsRing}
use toy_ip.Links.Operations.{list_add-IsRing}
use toy_ip.Links.Walk.{list_empty_iff}

-- The head 1 with the nodes 2, 3 and 4.
abbrev ring : Heap
ring = record {
  next = put 1 2 (put 2 3 (put 3 4 (put 4 1 (λ q. 0))));
  prev = put 1 4 (put 4 3 (put 3 2 (put 2 1 (λ q. 0))));
}

-- The functions that these runs go through.
run : ℕ → Heap → Heap
unfolding put list_init list_add list_add_tail list_del list_del_init list_empty for_each_from
    list_for_each
run = list_del

ring-IsRing : IsRing ring 1 (2 ∷ 3 ∷ 4 ∷ [])
unfolding run
ring-IsRing = record {
  fwd = (refl, (refl, (refl, refl)));
  bwd = (refl, (refl, (refl, refl)));
  distinct = omega arith;
}

visits_in_order : list_for_each 4 1 (list_add_tail 9 1 (list_del 3 ring)) ≡ some (2 ∷ 4 ∷ 9 ∷ [])
unfolding run
visits_in_order = refl

list_add-IsRing_example : IsRing (list_add 9 1 ring) 1 (9 ∷ 2 ∷ 3 ∷ 4 ∷ [])
list_add-IsRing_example = list_add-IsRing 9 1 (2 ∷ 3 ∷ 4 ∷ []) ring ring-IsRing (omega arith)

abbrev nodes : List ℕ
nodes = 2 ∷ 3 ∷ 4 ∷ []

list_empty_iff_example : (list_empty 1 ring ≡ true) ↔ (nodes ≡ [])
list_empty_iff_example = list_empty_iff 1 (2 ∷ 3 ∷ 4 ∷ []) ring ring-IsRing
