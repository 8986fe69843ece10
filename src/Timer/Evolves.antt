-- ===== src/Timer/Evolves.antt =====
-- How many timers of a table are due, and tables that change timer by timer without making more of
-- them due.
use toy_ip.Base.{
  ℕ, suc, ◌+◌, ◌≤◌, ◌≡◌, refl, ap, ◌∙◌, subst, some, List, [], ◌∷◌, ◌++◌, arith, if◌then◌else◌,
}
use toy_ip.Timer.{Timer, is_due}
use toy_ip.Timer.Tick.{first_timer}
use toy_ip.Timer.Order.{Ascends}

-- The number of due timers.
abbrev weight : ℕ → Timer → ℕ
weight tick t = if is_due tick t then 1 else 0

unfoldable pub due : ℕ → List Timer → ℕ
due tick [] = 0
due tick (t ∷ ts) = weight tick t + due tick ts

pub due-append : (tick : ℕ) (ts us : List Timer) → due tick (ts ++ us) ≡ due tick ts + due tick us
unfolding due
due-append tick [] us = omega arith
due-append tick (t ∷ ts) us = omega (arith, due-append tick ts us)

-- Timer by timer, the address is the same, and none has become due.
abbrev pub Evolves : ℕ → List Timer → List Timer → Type 0
Evolves tick [] [] = Unit
Evolves tick [] (u ∷ us) = ⊥
Evolves tick (t ∷ ts) [] = ⊥
Evolves tick (t ∷ ts) (u ∷ us) =
    (t.address ≡ u.address) × (due tick (u ∷ []) ≤ due tick (t ∷ [])) × Evolves tick ts us

pub Evolves-refl : (tick : ℕ) (ts : List Timer) → Evolves tick ts ts
Evolves-refl tick [] = tt
Evolves-refl tick (t ∷ ts) = (refl, omega arith, Evolves-refl tick ts)

pub Evolves-trans :
    (tick : ℕ) (ts us vs : List Timer)
    → Evolves tick ts us
    → Evolves tick us vs
    → Evolves tick ts vs
Evolves-trans tick [] [] [] a b = tt
Evolves-trans tick [] [] (v ∷ vs) a b = b
Evolves-trans tick [] (u ∷ us) vs a b = absurd a
Evolves-trans tick (t ∷ ts) [] vs a b = absurd a
Evolves-trans tick (t ∷ ts) (u ∷ us) [] a b = b
Evolves-trans tick (t ∷ ts) (u ∷ us) (v ∷ vs) a b =
    (a.0 ∙ b.0, omega arith, Evolves-trans tick ts us vs a.2 b.2)

pub Evolves-due : (tick : ℕ) (ts us : List Timer) → Evolves tick ts us → due tick us ≤ due tick ts
unfolding due
Evolves-due tick [] [] e = omega arith
Evolves-due tick [] (u ∷ us) e = absurd e
Evolves-due tick (t ∷ ts) [] e = absurd e
Evolves-due tick (t ∷ ts) (u ∷ us) e = omega (arith, Evolves-due tick ts us e.2)

pub Evolves-Ascends :
    (tick lo : ℕ) (ts us : List Timer) (hi : ℕ)
    → Evolves tick ts us
    → Ascends lo ts hi
    → Ascends lo us hi
Evolves-Ascends tick lo [] [] hi e a = a
Evolves-Ascends tick lo [] (u ∷ us) hi e a = absurd e
Evolves-Ascends tick lo (t ∷ ts) [] hi e a = absurd e
Evolves-Ascends tick lo (t ∷ ts) (u ∷ us) hi e a = (
  omega arith,
  Evolves-Ascends tick (suc u.address) ts us hi e.2 (subst (λ k. Ascends (suc k) ts hi) e.0 a.1),
)

pub Evolves-first :
    (tick : ℕ) (ts us : List Timer) → Evolves tick ts us → first_timer ts ≡ first_timer us
Evolves-first tick [] [] e = refl
Evolves-first tick [] (u ∷ us) e = absurd e
Evolves-first tick (t ∷ ts) [] e = absurd e
Evolves-first tick (t ∷ ts) (u ∷ us) e = ap some e.0

pub Evolves-split :
    (tick : ℕ) (ts us vs : List Timer)
    → Evolves tick (ts ++ us) vs
    → (l : List Timer) × (r : List Timer) × (vs ≡ l ++ r) × Evolves tick ts l × Evolves tick us r
Evolves-split tick [] us vs e = ([], vs, refl, tt, e)
Evolves-split tick (t ∷ ts) us [] e = absurd e
Evolves-split tick (t ∷ ts) us (v ∷ vs) e =
    let rest = Evolves-split tick ts us vs e.2 in
    (v ∷ rest.0, rest.1, ap (λ l. v ∷ l) rest.2, (e.0, e.1, rest.3), rest.4)

pub Evolves-cons :
    (tick : ℕ) (t : Timer) (ts us : List Timer)
    → Evolves tick (t ∷ ts) us
    → (u : Timer) × (vs : List Timer) × (us ≡ u ∷ vs)
      × (t.address ≡ u.address)
      × (due tick (u ∷ []) ≤ due tick (t ∷ []))
      × Evolves tick ts vs
Evolves-cons tick t ts [] e = absurd e
Evolves-cons tick t ts (u ∷ us) e = (u, us, refl, e.0, e.1, e.2)
