-- ===== src/Links/Chains.antt =====
-- Chains of nodes, and lists of distinct addresses.
use toy_ip.Base.{ℕ, ◌≡◌, ◌≢◌, sym, List, [], ◌∷◌, ◌++◌, All, All-append, arith}
use toy_ip.Links.{put}

-- `next` leads from `a` over `xs` to `b`.
abbrev pub Fwd : (ℕ → ℕ) → ℕ → List ℕ → ℕ → Type 0
Fwd next a [] b = next a ≡ b
Fwd next a (x ∷ xs) b = (next a ≡ x) × Fwd next x xs b

-- `prev` leads from `b` over `xs` backwards to `a`.
abbrev pub Bwd : (ℕ → ℕ) → ℕ → List ℕ → ℕ → Type 0
Bwd prev a [] b = prev b ≡ a
Bwd prev a (x ∷ xs) b = (prev x ≡ a) × Bwd prev x xs b

abbrev pub Apart : ℕ → List ℕ → Type 0
Apart a xs = All (λ x. a ≢ x) xs

abbrev pub Distinct : List ℕ → Type 0
Distinct [] = Unit
Distinct (x ∷ xs) = Apart x xs × Distinct xs

pub put_same : (a v : ℕ) (f : ℕ → ℕ) → put a v f a ≡ v
unfolding put
put_same a v f = ground arith

pub put_other : (a v : ℕ) (f : ℕ → ℕ) (q : ℕ) → a ≢ q → put a v f q ≡ f q
unfolding put
put_other a v f q ne = ground arith

pub All-Apart : (a v : ℕ) (f : ℕ → ℕ) (xs : List ℕ) → Apart a xs → All (λ x. put a v f x ≡ f x) xs
All-Apart a v f [] h = tt
All-Apart a v f (x ∷ xs) h = (put_other a v f x h.0, All-Apart a v f xs h.1)

pub All-split {ℓ} : (P : ℕ → Type ℓ) (xs ys : List ℕ) → All P (xs ++ ys) → All P xs × All P ys
All-split P [] ys h = (tt, h)
All-split P (x ∷ xs) ys h = let (hx, hy) = All-split P xs ys h.1 in ((h.0, hx), hy)

pub All-map {ℓ κ} :
    (P : ℕ → Type ℓ) (Q : ℕ → Type κ) (xs : List ℕ) → ((x : ℕ) → P x → Q x) → All P xs → All Q xs
All-map P Q [] f h = tt
All-map P Q (x ∷ xs) f h = (f x h.0, All-map P Q xs f h.1)

-- Two lists without a common address.
abbrev Disjoint : List ℕ → List ℕ → Type 0
Disjoint xs ys = All (λ x. Apart x ys) xs

Disjoint-cons : (y : ℕ) (ys xs : List ℕ) → Apart y xs → Disjoint xs ys → Disjoint xs (y ∷ ys)
Disjoint-cons y ys [] a d = tt
Disjoint-cons y ys (x ∷ xs) a d = ((λ e. a.0 (sym e), d.0), Disjoint-cons y ys xs a.1 d.1)

Disjoint-nil : (ys : List ℕ) → Disjoint ys []
Disjoint-nil [] = tt
Disjoint-nil (y ∷ ys) = (tt, Disjoint-nil ys)

Disjoint-sym : (xs ys : List ℕ) → Disjoint xs ys → Disjoint ys xs
Disjoint-sym [] ys d = Disjoint-nil ys
Disjoint-sym (x ∷ xs) ys d = Disjoint-cons x xs ys d.0 (Disjoint-sym xs ys d.1)

pub Distinct-split :
    (xs ys : List ℕ) → Distinct (xs ++ ys) → Distinct xs × Distinct ys × Disjoint xs ys
Distinct-split [] ys h = (tt, h, tt)
Distinct-split (x ∷ xs) ys h =
    let (dx, dy, d) = Distinct-split xs ys h.1 in
    let (ax, ay) = All-split (λ y. x ≢ y) xs ys h.0 in ((ax, dx), dy, (ay, d))

Distinct-append :
    (xs ys : List ℕ) → Distinct xs → Distinct ys → Disjoint xs ys → Distinct (xs ++ ys)
Distinct-append [] ys dx dy d = dy
Distinct-append (x ∷ xs) ys dx dy d =
    (All-append (λ y. x ≢ y) xs ys dx.0 d.0, Distinct-append xs ys dx.1 dy d.1)

pub Distinct-swap : (xs ys : List ℕ) → Distinct (xs ++ ys) → Distinct (ys ++ xs)
Distinct-swap xs ys h =
    let (dx, dy, d) = Distinct-split xs ys h in Distinct-append ys xs dy dx (Disjoint-sym xs ys d)

pub Fwd-append :
    (next : ℕ → ℕ) (a : ℕ) (xs : List ℕ) (y : ℕ) (ys : List ℕ) (b : ℕ)
    → Fwd next a xs y
    → Fwd next y ys b
    → Fwd next a (xs ++ (y ∷ ys)) b
Fwd-append next a [] y ys b h k = (h, k)
Fwd-append next a (x ∷ xs) y ys b h k = (h.0, Fwd-append next x xs y ys b h.1 k)

pub Fwd-split :
    (next : ℕ → ℕ) (a : ℕ) (xs : List ℕ) (y : ℕ) (ys : List ℕ) (b : ℕ)
    → Fwd next a (xs ++ (y ∷ ys)) b
    → Fwd next a xs y × Fwd next y ys b
Fwd-split next a [] y ys b h = h
Fwd-split next a (x ∷ xs) y ys b h = let (p, q) = Fwd-split next x xs y ys b h.1 in ((h.0, p), q)

pub Bwd-append :
    (prev : ℕ → ℕ) (a : ℕ) (xs : List ℕ) (y : ℕ) (ys : List ℕ) (b : ℕ)
    → Bwd prev a xs y
    → Bwd prev y ys b
    → Bwd prev a (xs ++ (y ∷ ys)) b
Bwd-append prev a [] y ys b h k = (h, k)
Bwd-append prev a (x ∷ xs) y ys b h k = (h.0, Bwd-append prev x xs y ys b h.1 k)

pub Bwd-split :
    (prev : ℕ → ℕ) (a : ℕ) (xs : List ℕ) (y : ℕ) (ys : List ℕ) (b : ℕ)
    → Bwd prev a (xs ++ (y ∷ ys)) b
    → Bwd prev a xs y × Bwd prev y ys b
Bwd-split prev a [] y ys b h = h
Bwd-split prev a (x ∷ xs) y ys b h = let (p, q) = Bwd-split prev x xs y ys b h.1 in ((h.0, p), q)
