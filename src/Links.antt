-- ===== src/Links.antt =====
-- toy_src/list.h: the circular lists of `struct list_head` that the tables and the queues of the
-- stack are made of. A node is its address, and a head is a node.
use toy_ip.Base.{ℕ, zero, suc, Bool, Option, none, some, List, [], ◌∷◌, ◌==◌, if◌then◌else◌}
pub mod Chains
pub mod Ring
pub mod Operations
pub mod Walk
mod Tests

-- The two fields of each node.
pub record Heap : Type 0 where
  pub next : ℕ → ℕ
  pub prev : ℕ → ℕ

unfoldable pub put : ℕ → ℕ → (ℕ → ℕ) → ℕ → ℕ
put a v f q = if q == a then v else f q

abbrev pub set_next : ℕ → ℕ → Heap → Heap
set_next a v h = record h { next = put a v h.next }

abbrev pub set_prev : ℕ → ℕ → Heap → Heap
set_prev a v h = record h { prev = put a v h.prev }

unfoldable pub list_init : ℕ → Heap → Heap
list_init head h = set_prev head head (set_next head head h)

-- `new_node` goes behind `head`.
unfoldable pub list_add : ℕ → ℕ → Heap → Heap
list_add new_node head h =
    let a = set_prev (h.next head) new_node h in
    let b = set_next new_node (a.next head) a in
    let c = set_prev new_node head b in set_next head new_node c

-- `new_node` goes before `head`.
unfoldable pub list_add_tail : ℕ → ℕ → Heap → Heap
list_add_tail new_node head h =
    let a = set_next (h.prev head) new_node h in
    let b = set_prev new_node (a.prev head) a in
    let c = set_next new_node head b in set_prev head new_node c

unfoldable pub list_del : ℕ → Heap → Heap
list_del elem h =
    let prev = h.prev elem in let next = h.next elem in set_prev next prev (set_next prev next h)

unfoldable pub list_del_init : ℕ → Heap → Heap
list_del_init elem h = list_init elem (list_del elem h)

unfoldable pub list_empty : ℕ → Heap → Bool
list_empty head h = h.next head == head

abbrev pub visit : ℕ → Option (List ℕ) → Option (List ℕ)
visit pos none = none
visit pos (some visited) = some (pos ∷ visited)

-- The nodes that `list_for_each` visits from `pos` on, the nodes left as they are.
unfoldable pub for_each_from : ℕ → ℕ → ℕ → Heap → Option (List ℕ)
for_each_from zero pos head h = none
for_each_from (suc fuel) pos head h =
    let rest = for_each_from fuel (h.next pos) head h in
    if pos == head then some [] else visit pos rest

unfoldable pub list_for_each : ℕ → ℕ → Heap → Option (List ℕ)
list_for_each fuel head h = for_each_from fuel (h.next head) head h
