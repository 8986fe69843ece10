-- ===== src/Timer/Changes.antt =====
-- What the calls of a handler do to the table of timers: the timers that were there keep their
-- places, and those that are added stand behind them and are not due.
use toy_ip.Base.{
  ℕ, ◌+◌, ◌<◌, ◌≤◌, ◌^◌, ◌≡◌, refl, sym, ap, ◌∙◌, true, false, Bool-cases, inl, inr, subst, u32,
  pos, Option, none, some, List, [], ◌∷◌, ◌++◌, append_assoc, append-nil, arith, ◌==◌,
}
use toy_ip.Timer.{Timer, Timers, Handler, modify, is_due, timer_add, timer_release, timer_cancel}
use toy_ip.Timer.Tick.{Changes, nothing, adds, releases, cancels}
use toy_ip.Timer.Order.{Ascends, Ascends-append}
use toy_ip.Timer.Evolves.{
  due, due-append, Evolves, Evolves-refl, Evolves-trans, Evolves-due, Evolves-Ascends,
  Evolves-split,
}

-- The table after the calls: the old timers and the new ones.
pub record Grows (ts us : Timers) : Type 0 where
  pub old : List Timer
  pub new : List Timer
  pub list_eq : us.list ≡ old ++ new
  pub evolves : Evolves ts.tick ts.list old
  pub ascends : Ascends ts.next new us.next
  pub not_due : due ts.tick new ≡ 0
  pub tick_eq : us.tick ≡ ts.tick

-- A change of one timer that makes nothing due.
modify-Evolves :
    (tick p : ℕ) (f : Timer → Timer)
    → ((t : Timer) → (t.address ≡ (f t).address) × (due tick (f t ∷ []) ≤ due tick (t ∷ [])))
    → (ts : List Timer) → Evolves tick ts (modify f p ts)
unfolding modify
modify-Evolves tick p f h [] = tt
modify-Evolves tick p f h (t ∷ ts) = elim (Bool-cases (t.address == p)) [
  | inl e ↦ rw e ((h t).0, (h t).1, modify-Evolves tick p f h ts)
  | inr e ↦ rw e (refl, omega arith, modify-Evolves tick p f h ts)
]

timer_release-Evolves :
    (p : Option ℕ) (ts : Timers) → Evolves ts.tick ts.list (timer_release p ts).list
unfolding timer_release due is_due
timer_release-Evolves none ts = Evolves-refl ts.tick ts.list
timer_release-Evolves (some p) ts = modify-Evolves ts.tick p _ (λ t. (refl, omega arith)) ts.list

timer_cancel-Evolves :
    (p : Option ℕ) (ts : Timers) → Evolves ts.tick ts.list (timer_cancel p ts).list
unfolding timer_cancel due is_due
timer_cancel-Evolves none ts = Evolves-refl ts.tick ts.list
timer_cancel-Evolves (some p) ts = modify-Evolves ts.tick p _ (λ t. (refl, omega arith)) ts.list

-- `t->cancelled = 1`
pub mark-Evolves :
    (tick p : ℕ) (ts : List Timer)
    → Evolves tick ts (modify (λ t. record t { cancelled = true }) p ts)
unfolding due is_due
mark-Evolves tick p ts = modify-Evolves tick p _ (λ t. (refl, omega arith)) ts

timer_release_rest :
    (p : Option ℕ) (ts : Timers)
    → ((timer_release p ts).tick ≡ ts.tick) × ((timer_release p ts).next ≡ ts.next)
unfolding timer_release
timer_release_rest none ts = (refl, refl)
timer_release_rest (some p) ts = (refl, refl)

timer_cancel_rest :
    (p : Option ℕ) (ts : Timers)
    → ((timer_cancel p ts).tick ≡ ts.tick) × ((timer_cancel p ts).next ≡ ts.next)
unfolding timer_cancel
timer_cancel_rest none ts = (refl, refl)
timer_cancel_rest (some p) ts = (refl, refl)

-- A call that changes the old timers only, before other calls.
Grows-after :
    (ts ms us : Timers)
    → Evolves ts.tick ts.list ms.list
    → (ms.tick ≡ ts.tick) × (ms.next ≡ ts.next)
    → Grows ms us
    → Grows ts us
Grows-after ts ms us e same g = record {
  old = g.old;
  new = g.new;
  list_eq = g.list_eq;
  evolves =
      Evolves-trans ts.tick ts.list ms.list g.old e
        (subst (λ k. Evolves k ms.list g.old) same.0 g.evolves);
  ascends = subst (λ k. Ascends k g.new us.next) same.1 g.ascends;
  not_due = subst (λ k. due k g.new ≡ 0) same.0 g.not_due;
  tick_eq = g.tick_eq ∙ same.0;
}

-- `timer_add` before other calls.
module _ (ts us : Timers) (expire : ℕ) (handler : Handler) (arg : ℕ) where
  added : Timer
  added = record {
    address = ts.next;
    refcnt = pos 1;
    expires = u32 (ts.tick + expire);
    cancelled = false;
    handler = handler;
    arg = arg;
  }

  added-due : ts.tick + expire < 2 ^ 32 → due ts.tick (added ∷ []) ≡ 0
  unfolding due is_due added
  added-due h = ground arith

  Grows-timer_add :
      ts.tick + expire < 2 ^ 32 → Grows (timer_add expire handler arg ts) us → Grows ts us
  unfolding timer_add added
  Grows-timer_add fits g =
      let parts = Evolves-split ts.tick ts.list (added ∷ []) g.old g.evolves in
      record {
        old = parts.0;
        new = parts.1 ++ g.new;
        list_eq = g.list_eq ∙ ap (λ l. l ++ g.new) parts.2 ∙ append_assoc parts.0 parts.1 g.new;
        evolves = parts.3;
        ascends =
            Ascends-append ts.next parts.1 (ts.next + 1) g.new us.next
              (Evolves-Ascends ts.tick ts.next (added ∷ []) parts.1 (ts.next + 1) parts.4
                (omega arith, omega arith))
              g.ascends;
        not_due = omega (
          arith,
          due-append ts.tick parts.1 g.new,
          Evolves-due ts.tick (added ∷ []) parts.1 parts.4,
          g.not_due,
          added-due fits,
        );
        tick_eq = g.tick_eq;
      }

pub Changes-Grows : (ts us : Timers) → Changes ts us → Grows ts us
unfolding due
Changes-Grows ts us (nothing e) = record {
  old = ts.list;
  new = [];
  list_eq = subst (λ k. k.list ≡ ts.list ++ []) e (sym (append-nil ts.list));
  evolves = Evolves-refl ts.tick ts.list;
  ascends = subst (λ k. ts.next ≤ k.next) e (omega arith);
  not_due = refl;
  tick_eq = sym (ap (λ k. k.tick) e);
}
Changes-Grows ts us (adds expire handler arg fits rest) =
    Grows-timer_add ts us expire handler arg fits
      (Changes-Grows (timer_add expire handler arg ts) us rest)
Changes-Grows ts us (releases p rest) =
    Grows-after ts (timer_release p ts) us (timer_release-Evolves p ts) (timer_release_rest p ts)
      (Changes-Grows (timer_release p ts) us rest)
Changes-Grows ts us (cancels p rest) =
    Grows-after ts (timer_cancel p ts) us (timer_cancel-Evolves p ts) (timer_cancel_rest p ts)
      (Changes-Grows (timer_cancel p ts) us rest)
