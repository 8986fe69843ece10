-- ===== src/Links/Walk.antt =====
-- Walks over a ring.
use toy_ip.Base.{zero, ℕ, suc, ◌<◌, ◌≡◌, refl, List, [], ◌∷◌, some, arith, length, true, ◌↔◌}
use toy_ip.Links.{Heap, for_each_from, list_for_each, list_empty}
use toy_ip.Links.Chains.{Fwd, Apart}
use toy_ip.Links.Ring.{IsRing}

pub for_each_from_lem :
    (fuel a head : ℕ) (xs : List ℕ) (h : Heap)
    → Fwd h.next a xs head
    → Apart head xs
    → length xs < fuel
    → for_each_from fuel (h.next a) head h ≡ some xs
unfolding for_each_from
for_each_from_lem zero a head xs h f d l = absurd (omega arith)
for_each_from_lem (suc fuel) a head [] h f d l = ground arith
for_each_from_lem (suc fuel) a head (x ∷ xs) h f d l =
    let rest = for_each_from_lem fuel x head xs h f.1 d.1 (omega arith) in
    ground (arith, f.0, d.0, rest)

-- `list_for_each` over a ring ends after as many rounds as there are nodes, and visits them in
-- order.
pub list_for_each-IsRing :
    (fuel head : ℕ) (xs : List ℕ) (h : Heap)
    → IsRing h head xs
    → length xs < fuel
    → list_for_each fuel head h ≡ some xs
unfolding list_for_each
list_for_each-IsRing fuel head xs h r l = for_each_from_lem fuel head head xs h r.fwd r.distinct.0 l

-- `list_empty` tells whether no node hangs on the head.
pub list_empty_iff :
    (head : ℕ) (xs : List ℕ) (h : Heap) → IsRing h head xs → (list_empty head h ≡ true) ↔ (xs ≡ [])
unfolding list_empty
list_empty_iff head [] h r = (λ _. refl, λ _. ground (arith, r.fwd))
list_empty_iff head (x ∷ xs) h r =
    (λ e. absurd (ground (arith, e, r.fwd.0, r.distinct.0.0)), λ e. ground (arith, e))
