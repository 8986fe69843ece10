-- ===== src/Links/Operations.antt =====
-- Each operation of toy_src/list.h does to the sequence of nodes what its comment says.
use toy_ip.Base.{
  All-append, ℕ, ◌≡◌, ◌≢◌, refl, ◌∙◌, sym, ap, subst, ◌⊎◌, inl, inr, List, [], ◌∷◌, ◌++◌,
  append_assoc, arith,
}
use toy_ip.Links.{Heap, put, list_init, list_add, list_add_tail, list_del, list_del_init}
use toy_ip.Links.Chains.{Fwd, Apart, All-split}
use toy_ip.Links.Ring.{IsRing, IsRing-rotate, Inserts, IsRing-Inserts, Removes, IsRing-Removes}

next-Apart :
    (f : ℕ → ℕ) (new a : ℕ) (xs : List ℕ) (b : ℕ)
    → Fwd f a xs b
    → new ≢ b
    → Apart new xs
    → new ≢ f a
next-Apart f new a [] b h n m = λ e. n (e ∙ h)
next-Apart f new a (x ∷ xs) b h n m = λ e. m.0 (e ∙ h.0)

list_add-Inserts :
    (new p : ℕ) (h : Heap) → new ≢ p → new ≢ h.next p → Inserts new p h (list_add new p h)
unfolding list_add put
list_add-Inserts new p h n m = record {
  next_new = ground arith;
  next_p = ground arith;
  next_other = λ q a b. ground arith;
  prev_new = ground arith;
  prev_next = ground arith;
  prev_other = λ q a b. ground arith;
}

list_add_tail-Inserts :
    (new last head : ℕ) (h : Heap)
    → h.prev head ≡ last
    → h.next last ≡ head
    → new ≢ last
    → new ≢ head
    → Inserts new last h (list_add_tail new head h)
unfolding list_add_tail put
list_add_tail-Inserts new last head h e e' n m = record {
  next_new = ground arith;
  next_p = ground arith;
  next_other = λ q a b. ground arith;
  prev_new = ground arith;
  prev_next = ground arith;
  prev_other = λ q a b. ground arith;
}

list_del-Removes : (e p : ℕ) (h : Heap) → h.prev e ≡ p → Removes e p h (list_del e h)
unfolding list_del put
list_del-Removes e p h k = record {
  next_p = ground arith;
  next_other = λ q a b. ground arith;
  prev_next = ground arith;
  prev_other = λ q a b. ground arith;
}

list_del_init-Removes :
    (e p : ℕ) (h : Heap) → h.prev e ≡ p → e ≢ p → e ≢ h.next e → Removes e p h (list_del_init e h)
unfolding list_del_init list_init list_del put
list_del_init-Removes e p h k n m = record {
  next_p = ground arith;
  next_other = λ q a b. ground arith;
  prev_next = ground arith;
  prev_other = λ q a b. ground arith;
}

-- A list is empty or ends in an element.
snoc_cases : (xs : List ℕ) → (xs ≡ []) ⊎ ((ws : List ℕ) × (w : ℕ) × (xs ≡ ws ++ (w ∷ [])))
snoc_cases [] = inl refl
snoc_cases (x ∷ xs) = elim (snoc_cases xs) [
  | inl e ↦ inr ([], x, ap (λ l. x ∷ l) e)
  | inr (ws, w, e) ↦ inr (x ∷ ws, w, ap (λ l. x ∷ l) e)
]

Apart-rotate :
    (new a b : ℕ) (xs ys : List ℕ)
    → Apart new (a ∷ (xs ++ (b ∷ ys)))
    → Apart new (b ∷ (ys ++ (a ∷ xs)))
Apart-rotate new a b xs ys h =
    let (hx, hy) = All-split (λ x. new ≢ x) xs (b ∷ ys) h.1 in
    (hy.0, All-append (λ x. new ≢ x) ys (a ∷ xs) hy.1 (h.0, hx))

-- `list_add` at the head of a ring puts a node that is not in it first.
pub list_add-IsRing :
    (new head : ℕ) (xs : List ℕ) (h : Heap)
    → IsRing h head xs
    → Apart new (head ∷ xs)
    → IsRing (list_add new head h) head (new ∷ xs)
list_add-IsRing new head xs h r a =
    IsRing-Inserts new head xs h _ r a
      (list_add-Inserts new head h a.0 (next-Apart h.next new head xs head r.fwd a.0 a.1))

-- `list_add` at a node `q` of a ring puts a node that is not in it directly behind `q`.
pub list_add_behind :
    (new head q : ℕ) (xs ys : List ℕ) (h : Heap)
    → IsRing h head (xs ++ (q ∷ ys))
    → Apart new (head ∷ (xs ++ (q ∷ ys)))
    → IsRing (list_add new q h) head (xs ++ (q ∷ new ∷ ys))
list_add_behind new head q xs ys h r a = IsRing-rotate (list_add new q h) q head (new ∷ ys) xs (
    list_add-IsRing new q (ys ++ (head ∷ xs)) h (IsRing-rotate h head q xs ys r)
      (Apart-rotate new head q xs ys a))

-- `list_add_tail` puts a node that is not in the ring last.
pub list_add_tail-IsRing :
    (new head : ℕ) (xs : List ℕ) (h : Heap)
    → IsRing h head xs
    → Apart new (head ∷ xs)
    → IsRing (list_add_tail new head h) head (xs ++ (new ∷ []))
list_add_tail-IsRing new head xs h r a = elim (snoc_cases xs) [
  | inl e ↦
      (let r' = subst (λ l. IsRing h head l) e r in
        subst (λ l. IsRing (list_add_tail new head h) head (l ++ (new ∷ []))) (sym e)
          (IsRing-Inserts new head [] h _ r' (a.0, tt)
            (list_add_tail-Inserts new head head h r'.bwd r'.fwd a.0 a.0)))
  | inr (ws, w, e) ↦
      (let r' = IsRing-rotate h head w ws [] (subst (λ l. IsRing h head l) e r) in
        let a' = Apart-rotate new head w ws [] (subst (λ l. Apart new (head ∷ l)) e a) in
        let k =
          IsRing-Inserts new w (head ∷ ws) h _ r' a'
            (list_add_tail-Inserts new w head h r'.bwd.0 r'.fwd.0 a'.0 a.0) in
        subst (λ l. IsRing (list_add_tail new head h) head l)
          (sym (append_assoc ws (w ∷ []) (new ∷ [])) ∙ ap (λ l. l ++ (new ∷ [])) (sym e))
          (IsRing-rotate (list_add_tail new head h) w head (new ∷ []) ws k))
]

-- What links out the first node of any ring links out a node of a ring.
unlink :
    (e head : ℕ) (xs ys : List ℕ) (h h' : Heap)
    → IsRing h head (xs ++ (e ∷ ys))
    → ((p : ℕ) (zs : List ℕ) → IsRing h p (e ∷ zs) → Removes e p h h')
    → IsRing h' head (xs ++ ys)
unlink e head xs ys h h' r out = elim (snoc_cases xs) [
  | inl n ↦
      (let r' = subst (λ l. IsRing h head (l ++ (e ∷ ys))) n r in
        subst (λ l. IsRing h' head (l ++ ys)) (sym n)
          (IsRing-Removes e head ys h h' r' (out head ys r')))
  | inr (ws, w, n) ↦
      (let r' =
          subst (λ l. IsRing h head l)
            (ap (λ l. l ++ (e ∷ ys)) n ∙ append_assoc ws (w ∷ []) (e ∷ ys)) r in
        let k = IsRing-rotate h head w ws (e ∷ ys) r' in
        subst (λ l. IsRing h' head l)
          (sym (append_assoc ws (w ∷ []) ys) ∙ ap (λ l. l ++ ys) (sym n))
          (IsRing-rotate h' w head ys ws
            (IsRing-Removes e w (ys ++ (head ∷ ws)) h h' k (out w _ k))))
]

-- `list_del` takes a node out of a ring, wherever it stands.
pub list_del-IsRing :
    (e head : ℕ) (xs ys : List ℕ) (h : Heap)
    → IsRing h head (xs ++ (e ∷ ys))
    → IsRing (list_del e h) head (xs ++ ys)
list_del-IsRing e head xs ys h r =
    unlink e head xs ys h _ r (λ p zs k. list_del-Removes e p h k.bwd.0)

list_del_init-alone : (e : ℕ) (h : Heap) → IsRing (list_del_init e h) e []
unfolding list_del_init list_init list_del put
list_del_init-alone e h = record { fwd = ground arith; bwd = ground arith; distinct = (tt, tt) }

-- `list_del_init` takes a node out of a ring, wherever it stands, and leaves it as an empty ring
-- of its own.
pub list_del_init-IsRing :
    (e head : ℕ) (xs ys : List ℕ) (h : Heap)
    → IsRing h head (xs ++ (e ∷ ys))
    → IsRing (list_del_init e h) head (xs ++ ys) × IsRing (list_del_init e h) e []
list_del_init-IsRing e head xs ys h r = (
  unlink e head xs ys h _ r (λ p zs k.
      let n : e ≢ p = λ m. k.distinct.0.0 (sym m) in
      list_del_init-Removes e p h k.bwd.0 n (next-Apart h.next e e zs p k.fwd.1 n k.distinct.1.0)),
  list_del_init-alone e h,
)
