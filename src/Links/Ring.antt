-- ===== src/Links/Ring.antt =====
-- The operations on circular lists, on the sequence of nodes that a ring stands for.
use toy_ip.Base.{ℕ, ◌≡◌, ◌≢◌, ◌∙◌, sym, subst, List, [], ◌∷◌, ◌++◌, All}
use toy_ip.Links.{Heap}
use toy_ip.Links.Chains.{
  Fwd, Bwd, Apart, Distinct, All-map, Distinct-swap, Fwd-append, Fwd-split, Bwd-append, Bwd-split,
}

-- The nodes `xs` hang in this order on `head`, in both directions, and are distinct.
pub record IsRing (h : Heap) (head : ℕ) (xs : List ℕ) : Type 0 where
  pub fwd : Fwd h.next head xs head
  pub bwd : Bwd h.prev head xs head
  pub distinct : Distinct (head ∷ xs)

-- Any node of a ring may be taken for its head.
pub IsRing-rotate :
    (h : Heap) (a b : ℕ) (xs ys : List ℕ)
    → IsRing h a (xs ++ (b ∷ ys))
    → IsRing h b (ys ++ (a ∷ xs))
IsRing-rotate h a b xs ys r =
    let (f, f') = Fwd-split h.next a xs b ys a r.fwd in
    let (g, g') = Bwd-split h.prev a xs b ys a r.bwd in
    record {
      fwd = Fwd-append h.next b ys a xs b f' f;
      bwd = Bwd-append h.prev b ys a xs b g' g;
      distinct = Distinct-swap (a ∷ xs) (b ∷ ys) r.distinct;
    }

pub Fwd-from :
    (f f' : ℕ → ℕ) (s q : ℕ) (ys : List ℕ) (b : ℕ)
    → f' q ≡ f s
    → All (λ y. f' y ≡ f y) ys
    → Fwd f s ys b
    → Fwd f' q ys b
Fwd-from f f' s q [] b e a h = e ∙ h
Fwd-from f f' s q (y ∷ ys) b e a h = (e ∙ h.0, Fwd-from f f' y y ys b a.0 a.1 h.1)

Bwd-keep :
    (g g' : ℕ → ℕ) (s : ℕ) (ys : List ℕ) (b : ℕ)
    → All (λ y. g' y ≡ g y) ys
    → g' b ≡ g b
    → Bwd g s ys b
    → Bwd g' s ys b
Bwd-keep g g' s [] b a e h = e ∙ h
Bwd-keep g g' s (y ∷ ys) b a e h = (a.0 ∙ h.0, Bwd-keep g g' y ys b a.1 e h.1)

-- Only the first link of the chain is changed: it now points to `q`.
Bwd-from :
    (f g g' : ℕ → ℕ) (s q : ℕ) (ys : List ℕ) (b : ℕ)
    → g' (f s) ≡ q
    → All (λ y. f s ≢ y → g' y ≡ g y) ys
    → (f s ≢ b → g' b ≡ g b)
    → Distinct (b ∷ ys)
    → Fwd f s ys b
    → Bwd g s ys b
    → Bwd g' q ys b
Bwd-from f g g' s q [] b e a k d h i = subst (λ n. g' n ≡ q) h e
Bwd-from f g g' s q (y ∷ ys) b e a k d h i = (
  subst (λ n. g' n ≡ q) h.0 e,
  Bwd-keep g g' y ys b (agree ys d.1.0 a.1) (k (λ n. d.0.0 (sym n ∙ h.0))) i.1,
)
  where
    agree :
        (zs : List ℕ) → Apart y zs → All (λ z. f s ≢ z → g' z ≡ g z) zs → All (λ z. g' z ≡ g z) zs
    agree [] p m = tt
    agree (z ∷ zs) p m = (m.0 (λ n. p.0 (sym h.0 ∙ n)), agree zs p.1 m.1)

-- `h'` is `h` with `new` linked in behind `p`.
pub record Inserts (new p : ℕ) (h h' : Heap) : Type 0 where
  pub next_new : h'.next new ≡ h.next p
  pub next_p : h'.next p ≡ new
  pub next_other : (q : ℕ) → p ≢ q → new ≢ q → h'.next q ≡ h.next q
  pub prev_new : h'.prev new ≡ p
  pub prev_next : h'.prev (h.next p) ≡ new
  pub prev_other : (q : ℕ) → new ≢ q → h.next p ≢ q → h'.prev q ≡ h.prev q

both :
    (P Q R : ℕ → Type 0) (xs : List ℕ)
    → ((x : ℕ) → P x → Q x → R x)
    → All P xs
    → All Q xs
    → All R xs
both P Q R [] f a b = tt
both P Q R (x ∷ xs) f a b = (f x a.0 b.0, both P Q R xs f a.1 b.1)

pub IsRing-Inserts :
    (new p : ℕ) (xs : List ℕ) (h h' : Heap)
    → IsRing h p xs
    → Apart new (p ∷ xs)
    → Inserts new p h h'
    → IsRing h' p (new ∷ xs)
IsRing-Inserts new p xs h h' r a i = record {
  fwd = (
    i.next_p,
    Fwd-from h.next h'.next p new xs p i.next_new
        (both (λ x. p ≢ x) (λ x. new ≢ x) _ xs i.next_other r.distinct.0 a.1) r.fwd,
  );
  bwd = (
    i.prev_new,
    Bwd-from h.next h.prev h'.prev p new xs p i.prev_next
        (All-map (λ x. new ≢ x) _ xs i.prev_other a.1) (i.prev_other p a.0) r.distinct r.fwd r.bwd,
  );
  distinct = (((λ e. a.0 (sym e)), r.distinct.0), (a.1, r.distinct.1));
}

-- `h'` is `h` with `e`, which stands behind `p`, linked out.
pub record Removes (e p : ℕ) (h h' : Heap) : Type 0 where
  pub next_p : h'.next p ≡ h.next e
  pub next_other : (q : ℕ) → p ≢ q → e ≢ q → h'.next q ≡ h.next q
  pub prev_next : h'.prev (h.next e) ≡ p
  pub prev_other : (q : ℕ) → e ≢ q → h.next e ≢ q → h'.prev q ≡ h.prev q

pub IsRing-Removes :
    (e p : ℕ) (xs : List ℕ) (h h' : Heap) → IsRing h p (e ∷ xs) → Removes e p h h' → IsRing h' p xs
IsRing-Removes e p xs h h' r m = record {
  fwd =
      Fwd-from h.next h'.next e p xs p m.next_p
        (both (λ x. p ≢ x) (λ x. e ≢ x) _ xs m.next_other r.distinct.0.1 r.distinct.1.0) r.fwd.1;
  bwd =
      Bwd-from h.next h.prev h'.prev e p xs p m.prev_next
        (All-map (λ x. e ≢ x) _ xs m.prev_other r.distinct.1.0)
        (m.prev_other p (λ n. r.distinct.0.0 (sym n))) (r.distinct.0.1, r.distinct.1.1) r.fwd.1
        r.bwd.1;
  distinct = (r.distinct.0.1, r.distinct.1.1);
}
