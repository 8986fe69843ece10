-- ===== src/Timer/Points.antt =====
-- The points of the walk of `timers_tick`: what is known of the table before and behind the cursor.
use toy_ip.Base.{
  ℕ, suc, ◌≤◌, ◌≡◌, refl, sym, ◌∙◌, subst, Option, none, some, List, [], ◌∷◌, ◌++◌, append_assoc,
  append-nil, arith,
}
use toy_ip.Timer.{Timer, Timers}
use toy_ip.Timer.Tick.{first_timer, list_del_timer}
use toy_ip.Timer.Order.{Ascends, Ascends-raise, Ascends-append, unlink_at}
use toy_ip.Timer.Evolves.{due, due-append, Evolves, Evolves-due}

-- A point of the walk: the timers before the cursor, of which none is due, and those from it on.
pub record At (cursor : Option ℕ) (tick : ℕ) (rest : List Timer) (ts : Timers) : Type 0 where
  pub seen : List Timer
  pub mid : ℕ
  pub list_eq : ts.list ≡ seen ++ rest
  pub seen_ascends : Ascends 0 seen mid
  pub rest_ascends : Ascends mid rest ts.next
  pub seen_due : due tick seen ≡ 0
  pub cursor_eq : cursor ≡ first_timer rest
  pub tick_eq : ts.tick ≡ tick

-- The timer at the cursor, and those before and behind it.
pub record Middle (tick : ℕ) (t : Timer) (rest : List Timer) (ts : Timers) : Type 0 where
  pub seen : List Timer
  pub list_eq : ts.list ≡ seen ++ t ∷ rest
  pub seen_ascends : Ascends 0 seen t.address
  pub rest_ascends : Ascends (suc t.address) rest ts.next
  pub seen_due : due tick seen ≡ 0
  pub tick_eq : ts.tick ≡ tick

module _ (tick : ℕ) where
  pub At-Middle :
      (t : Timer) (rest : List Timer) (ts : Timers)
      → At (some t.address) tick (t ∷ rest) ts
      → Middle tick t rest ts
  At-Middle t rest ts a = record {
    seen = a.seen;
    list_eq = a.list_eq;
    seen_ascends = Ascends-raise 0 a.seen a.mid t.address a.rest_ascends.0 a.seen_ascends;
    rest_ascends = a.rest_ascends.1;
    seen_due = a.seen_due;
    tick_eq = a.tick_eq;
  }

  -- Timer `t` stays.
  pub At-keep :
      (t : Timer) (rest : List Timer) (ts : Timers)
      → Middle tick t rest ts
      → due tick (t ∷ []) ≡ 0
      → At (first_timer rest) tick rest ts
  At-keep t rest ts m quiet = record {
    seen = m.seen ++ t ∷ [];
    mid = suc t.address;
    list_eq = m.list_eq ∙ sym (append_assoc m.seen (t ∷ []) rest);
    seen_ascends =
        Ascends-append 0 m.seen t.address (t ∷ []) (suc t.address) m.seen_ascends
          (omega arith, omega arith);
    rest_ascends = m.rest_ascends;
    seen_due = omega (arith, due-append tick m.seen (t ∷ []), m.seen_due);
    cursor_eq = refl;
    tick_eq = m.tick_eq;
  }

  -- Timer `t` is freed.
  pub At-drop :
      (t : Timer) (rest : List Timer) (ts : Timers)
      → Middle tick t rest ts
      → At (first_timer rest) tick rest (record ts { list = list_del_timer t.address ts.list })
  At-drop t rest ts m = record {
    seen = m.seen;
    mid = suc t.address;
    list_eq = unlink_at t rest m.seen ts.list m.list_eq m.seen_ascends;
    seen_ascends = Ascends-raise 0 m.seen t.address (suc t.address) (omega arith) m.seen_ascends;
    rest_ascends = m.rest_ascends;
    seen_due = m.seen_due;
    cursor_eq = refl;
    tick_eq = m.tick_eq;
  }

  -- If nothing behind the cursor is due, the walk may stop.
  pub At-stop :
      (cursor : Option ℕ) (rest : List Timer) (ts : Timers)
      → At cursor tick rest ts
      → due tick rest ≡ 0
      → At none tick [] ts
  At-stop cursor rest ts a quiet = record {
    seen = a.seen ++ rest;
    mid = ts.next;
    list_eq = a.list_eq ∙ sym (append-nil (a.seen ++ rest));
    seen_ascends = Ascends-append 0 a.seen a.mid rest ts.next a.seen_ascends a.rest_ascends;
    rest_ascends = omega arith;
    seen_due = omega (arith, due-append tick a.seen rest, a.seen_due);
    cursor_eq = refl;
    tick_eq = a.tick_eq;
  }

  -- The cursor was read before the handlers added timers.
  pub At-cursor :
      (rest old new : List Timer) (ts : Timers)
      → Evolves tick rest old
      → due tick new ≡ 0
      → At (first_timer (old ++ new)) tick (old ++ new) ts
      → (rest' : List Timer) × At (first_timer rest) tick rest' ts
        × (due tick rest' ≤ due tick rest)
  unfolding due
  At-cursor [] [] new ts e quiet a = ([], At-stop (first_timer new) new ts a quiet, omega arith)
  At-cursor [] (o ∷ old) new ts e quiet a = absurd e
  At-cursor (t ∷ rest) [] new ts e quiet a = absurd e
  At-cursor (t ∷ rest) (o ∷ old) new ts e quiet a = (
    o ∷ old ++ new,
    subst (λ k. At (some k) tick (o ∷ old ++ new) ts) (sym e.0) a,
    omega (arith, Evolves-due tick rest old e.2, due-append tick old new),
  )
