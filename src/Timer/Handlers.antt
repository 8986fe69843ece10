-- ===== src/Timer/Handlers.antt =====
-- What the walk of `timers_tick` finds after the handler of a timer that is due.
use toy_ip.Base.{ℕ, suc, ◌≡◌, refl, ap, ◌∙◌, subst, true, List, [], ◌∷◌, ◌++◌, append_assoc, arith}
use toy_ip.Timer.{Timer, Timers, modify, is_due}
use toy_ip.Timer.Tick.{Changes}
use toy_ip.Timer.Order.{Ascends, Ascends-append, modify-append, modify_head}
use toy_ip.Timer.Evolves.{due, Evolves, Evolves-due, Evolves-Ascends, Evolves-split, Evolves-cons}
use toy_ip.Timer.Changes.{mark-Evolves, Changes-Grows}
use toy_ip.Timer.Points.{Middle}

module _ (tick : ℕ) where
  -- A due handler: the timers before `t`, then `t`, then the timers behind it with the new ones.
  pub record Fired (t : Timer) (rest : List Timer) (ts : Timers) : Type 0 where
    pub self : Timer
    pub old : List Timer
    pub new : List Timer
    pub middle : Middle tick self (old ++ new) ts
    pub address_eq : t.address ≡ self.address
    pub quiet : due tick (self ∷ []) ≡ 0
    pub old_evolves : Evolves tick rest old
    pub new_quiet : due tick new ≡ 0

  -- The handler runs with the timer at the cursor cancelled.
  pub called_Fired :
      (t : Timer) (rest : List Timer) (ts us : Timers)
      → Middle tick t rest ts
      → due tick (t ∷ []) ≡ 0
      → Changes ts us
      → Fired t rest us
  called_Fired t rest ts us m quiet changes =
      let g = Changes-Grows ts us changes in
      let evolves : Evolves tick (m.seen ++ t ∷ rest) g.old =
        subst (λ l. Evolves tick l g.old) m.list_eq
          (subst (λ k. Evolves k ts.list g.old) m.tick_eq g.evolves) in
      let halves = Evolves-split tick m.seen (t ∷ rest) g.old evolves in
      let right = Evolves-cons tick t rest halves.1 halves.4 in
      record {
        self = right.0;
        old = right.1;
        new = g.new;
        middle = record {
          seen = halves.0;
          list_eq =
              g.list_eq
              ∙ ap (λ l. l ++ g.new) (halves.2 ∙ ap (λ l. halves.0 ++ l) right.2)
              ∙ append_assoc halves.0 (right.0 ∷ right.1) g.new;
          seen_ascends =
              Evolves-Ascends tick 0 m.seen halves.0 right.0.address halves.3
                (subst (λ k. Ascends 0 m.seen k) right.3 m.seen_ascends);
          rest_ascends =
              Ascends-append (suc right.0.address) right.1 ts.next g.new us.next
                (Evolves-Ascends tick (suc right.0.address) rest right.1 ts.next right.5
                  (subst (λ k. Ascends (suc k) rest ts.next) right.3 m.rest_ascends))
                g.ascends;
          seen_due = omega (arith, Evolves-due tick m.seen halves.0 halves.3, m.seen_due);
          tick_eq = g.tick_eq ∙ m.tick_eq;
        };
        address_eq = right.3;
        quiet = omega (arith, right.4);
        old_evolves = right.5;
        new_quiet = subst (λ k. due k g.new ≡ 0) m.tick_eq g.not_due;
      }

  -- `t->cancelled = 1`
  pub mark_Middle :
      (t : Timer) (rest : List Timer) (ts : Timers)
      → Middle tick t rest ts
      → Middle tick
          (record t { cancelled = true })
          (modify (λ u. record u { cancelled = true }) t.address rest)
          (record ts { list = modify (λ u. record u { cancelled = true }) t.address ts.list })
  mark_Middle t rest ts m =
      let mark = modify (λ u. record u { cancelled = true }) t.address in
      record {
        seen = mark m.seen;
        list_eq =
            ap mark m.list_eq
            ∙ modify-append _ t.address m.seen (t ∷ rest)
            ∙ ap (λ l. mark m.seen ++ l) (modify_head t rest _);
        seen_ascends =
            Evolves-Ascends tick 0 m.seen (mark m.seen) t.address
              (mark-Evolves tick t.address m.seen) m.seen_ascends;
        rest_ascends =
            Evolves-Ascends tick (suc t.address) rest (mark rest) _
              (mark-Evolves tick t.address rest) m.rest_ascends;
        seen_due = omega (
          arith,
          Evolves-due tick m.seen (mark m.seen) (mark-Evolves tick t.address m.seen),
          m.seen_due,
        );
        tick_eq = m.tick_eq;
      }

  pub cancelled-due : (t : Timer) → due tick (record t { cancelled = true } ∷ []) ≡ 0
  unfolding due is_due
  cancelled-due t = refl
