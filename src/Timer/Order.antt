-- ===== src/Timer/Order.antt =====
-- The table of timers as a list in the order of the addresses, which `timer_add` gives out.
use toy_ip.Base.{ℕ, suc, ◌≤◌, ◌≡◌, refl, ap, ◌∙◌, some, List, [], ◌∷◌, ◌++◌, arith}
use toy_ip.Timer.{Timer, modify}
use toy_ip.Timer.Tick.{entry_at, first_timer, next_timer, list_del_timer}

-- The addresses ascend from `lo` on, and lie below `hi`.
abbrev pub Ascends : ℕ → List Timer → ℕ → Type 0
Ascends lo [] hi = lo ≤ hi
Ascends lo (t ∷ ts) hi = (lo ≤ t.address) × Ascends (suc t.address) ts hi

pub Ascends-le : (lo : ℕ) (ts : List Timer) (hi : ℕ) → Ascends lo ts hi → lo ≤ hi
Ascends-le lo [] hi a = a
Ascends-le lo (t ∷ ts) hi a = omega (arith, Ascends-le (suc t.address) ts hi a.1)

pub Ascends-weaken :
    (lo k : ℕ) (ts : List Timer) (hi : ℕ) → lo ≤ k → Ascends k ts hi → Ascends lo ts hi
Ascends-weaken lo k [] hi h a = omega arith
Ascends-weaken lo k (t ∷ ts) hi h a = (omega arith, a.1)

pub Ascends-raise :
    (lo : ℕ) (ts : List Timer) (mid hi : ℕ) → mid ≤ hi → Ascends lo ts mid → Ascends lo ts hi
Ascends-raise lo [] mid hi h a = omega arith
Ascends-raise lo (t ∷ ts) mid hi h a = (a.0, Ascends-raise (suc t.address) ts mid hi h a.1)

pub Ascends-append :
    (lo : ℕ) (ts : List Timer) (mid : ℕ) (us : List Timer) (hi : ℕ)
    → Ascends lo ts mid
    → Ascends mid us hi
    → Ascends lo (ts ++ us) hi
Ascends-append lo [] mid us hi a b = Ascends-weaken lo mid us hi a b
Ascends-append lo (t ∷ ts) mid us hi a b = (a.0, Ascends-append (suc t.address) ts mid us hi a.1 b)

-- Behind timers below an address, a function on the timer at this address works on the rest.
module _ (p : ℕ) (us : List Timer) where
  find-append : (lo : ℕ) (ts : List Timer) → Ascends lo ts p → entry_at p (ts ++ us) ≡ entry_at p us
  unfolding entry_at
  find-append lo [] a = refl
  find-append lo (t ∷ ts) a =
      ground (arith, find-append (suc t.address) ts a.1, Ascends-le (suc t.address) ts p a.1)

  after-append :
      (lo : ℕ) (ts : List Timer) → Ascends lo ts p → next_timer p (ts ++ us) ≡ next_timer p us
  unfolding next_timer
  after-append lo [] a = refl
  after-append lo (t ∷ ts) a =
      ground (arith, after-append (suc t.address) ts a.1, Ascends-le (suc t.address) ts p a.1)

  unlink-append :
      (lo : ℕ) (ts : List Timer)
      → Ascends lo ts p
      → list_del_timer p (ts ++ us) ≡ ts ++ list_del_timer p us
  unfolding list_del_timer
  unlink-append lo [] a = refl
  unlink-append lo (t ∷ ts) a =
      ground (arith, unlink-append (suc t.address) ts a.1, Ascends-le (suc t.address) ts p a.1)

pub modify-append :
    (f : Timer → Timer) (p : ℕ) (ts us : List Timer)
    → modify f p (ts ++ us) ≡ modify f p ts ++ modify f p us
unfolding modify
modify-append f p [] us = refl
modify-append f p (t ∷ ts) us = rw (modify-append f p ts us) refl

-- The same on the timer itself.
module _ (t : Timer) (ts : List Timer) where
  find_head : entry_at t.address (t ∷ ts) ≡ some t
  unfolding entry_at
  find_head = ground arith

  after_head : next_timer t.address (t ∷ ts) ≡ first_timer ts
  unfolding next_timer
  after_head = ground arith

  pub modify_head : (f : Timer → Timer) → modify f t.address (t ∷ ts) ≡ f t ∷ modify f t.address ts
  unfolding modify
  modify_head f = ground arith

  unlink_head : list_del_timer t.address (t ∷ ts) ≡ ts
  unfolding list_del_timer
  unlink_head = ground arith

-- A table that is split at a timer.
module _ (t : Timer) (rest seen l : List Timer) (list_eq : l ≡ seen ++ t ∷ rest)
    (ascends : Ascends 0 seen t.address) where
  pub find_at : entry_at t.address l ≡ some t
  find_at =
      ap (entry_at t.address) list_eq
      ∙ find-append t.address (t ∷ rest) 0 seen ascends
      ∙ find_head t rest

  pub after_at : next_timer t.address l ≡ first_timer rest
  after_at =
      ap (next_timer t.address) list_eq
      ∙ after-append t.address (t ∷ rest) 0 seen ascends
      ∙ after_head t rest

  pub unlink_at : list_del_timer t.address l ≡ seen ++ rest
  unlink_at =
      ap (list_del_timer t.address) list_eq
      ∙ unlink-append t.address (t ∷ rest) 0 seen ascends
      ∙ ap (λ l. seen ++ l) (unlink_head t rest)
