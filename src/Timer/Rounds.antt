-- ===== src/Timer/Rounds.antt =====
-- The walk of `timers_tick` ends, whatever the handlers add, cancel and release.
use toy_ip.Base.{
  ℕ, zero, suc, ◌+◌, ◌<◌, ◌≤◌, ◌^◌, ◌≡◌, refl, sym, subst, Bool, true, false, Bool-cases, inl, inr,
  Option, some, List, [], ◌∷◌, ◌++◌, arith,
}
use toy_ip.Timer.{Timer, Timers, Handler, modify, is_due, is_dead}
use toy_ip.Timer.Tick.{
  TimerHost, Changes, entry_at, first_timer, timer_free, fire, reap, tick_visit, tick_walk,
  timers_tick,
}
use toy_ip.Timer.Order.{Ascends, Ascends-append, find_at, after_at}
use toy_ip.Timer.Evolves.{due, due-append, Evolves-trans}
use toy_ip.Timer.Changes.{mark-Evolves}
use toy_ip.Timer.Points.{At, Middle, At-Middle, At-keep, At-drop, At-cursor}
use toy_ip.Timer.Handlers.{Fired, called_Fired, mark_Middle, cancelled-due}

-- What the walk needs of the state: the table is a part of it, and a handler only calls the
-- functions of timer.c, with times that do not wrap round up to `limit` ticks from now.
pub record Laws {W : Type 0} (host : TimerHost W) (limit : ℕ) : Type 0 where
  pub timers_set : (ts : Timers) (w : W) → host.timers (host.set_timers ts w) ≡ ts
  pub run-Changes :
      (h : Handler) (tick arg : ℕ) (w : W)
      → (host.timers w).tick + limit < 2 ^ 32
      → Changes (host.timers w) (host.timers (host.run h tick arg w))

module _ {W : Type 0} (host : TimerHost W) (busy : ℕ → Bool) where
  open host use {timers}

  -- What the walk leaves.
  pub record Done (tick : ℕ) (w : W) : Type 0 where
    pub ascends : Ascends 0 (timers w).list (timers w).next
    pub none_due : due tick (timers w).list ≡ 0
    pub same_tick : (timers w).tick ≡ tick

  module _ {limit : ℕ} (laws : Laws host limit) (tick : ℕ) where
    reap-At :
        (t : Timer) (rest : List Timer) (w : W)
        → Middle tick t rest (timers w)
        → due tick (t ∷ []) ≡ 0
        → At
            (first_timer rest)
            tick
            rest
            (timers (reap host busy t.address (entry_at t.address (timers w).list) w))
    unfolding reap timer_free
    reap-At t rest w m quiet =
        rw (find_at t rest m.seen _ m.list_eq m.seen_ascends) (elim (Bool-cases (is_dead t)) [
          | inr e ↦ rw e (At-keep tick t rest (timers w) m quiet)
          | inl e ↦ rw e (elim (Bool-cases (busy t.address)) [
            | inl b ↦ rw b (At-keep tick t rest (timers w) m quiet)
            | inr b ↦ rw b (
                subst (At (first_timer rest) tick rest) (sym (laws.timers_set _ w))
                  (At-drop tick t rest (timers w) m))
          ])
        ])

    module _ (t : Timer) (rest : List Timer) (w : W) (m : Middle tick t rest (timers w)) where
      fire-Fired :
          tick + limit < 2 ^ 32
          → Fired tick
              (record t { cancelled = true })
              (modify (λ u. record u { cancelled = true }) t.address rest)
              (timers (fire host t w))
      unfolding fire
      fire-Fired fits =
          let marked =
            subst (Middle tick _ _) (sym (laws.timers_set _ w))
              (mark_Middle tick t rest (timers w) m) in
          called_Fired tick (record t { cancelled = true }) _ _ _ marked (cancelled-due tick t)
            (laws.run-Changes t.handler (timers w).tick t.arg _
              (subst (λ k. k + limit < 2 ^ 32) (sym marked.tick_eq) fits))

      visit_idle :
          is_due tick t ≡ false
          → At (first_timer rest) tick rest (timers (tick_visit host busy t w))
      unfolding tick_visit due
      visit_idle idle = rw (m.tick_eq, idle) (reap-At t rest w m (rw idle refl))

      visit_due :
          tick + limit < 2 ^ 32
          → is_due tick t ≡ true
          → (rest' : List Timer) × At
              (first_timer rest)
              tick
              rest'
              (timers (tick_visit host busy t w))
            × (due tick rest' ≤ due tick rest)
      unfolding tick_visit
      visit_due fits is =
          let f = fire-Fired fits in
          let e = mark-Evolves tick t.address rest in
          rw (m.tick_eq, is)
            (At-cursor tick rest f.old f.new _ (Evolves-trans tick rest _ f.old e f.old_evolves)
              f.new_quiet
              (subst
                (λ k. At (first_timer (f.old ++ f.new)) tick (f.old ++ f.new) (
                  timers
                    (reap host busy k (entry_at k (timers (fire host t w)).list) (fire host t w))))
                (sym f.address_eq)
                (reap-At f.self (f.old ++ f.new) (fire host t w) f.middle f.quiet)))

  -- What is known of the state while timers of the list are still to come, at most so many of them
  -- due, and stays true in a visit.
  pub record Carried (tick : ℕ) (P : ℕ → List Timer → W → Type 0) : Type 0 where
    pub idle :
        (b : ℕ) (t : Timer) (rest : List Timer) (w : W)
        → is_due (timers w).tick t ≡ false
        → P b (t ∷ rest) w
        → P b rest (tick_visit host busy t w)
    pub fires :
        (b : ℕ) (t : Timer) (rest rest' : List Timer) (w : W)
        → (timers w).tick ≡ tick
        → is_due tick t ≡ true
        → P (suc b) (t ∷ rest) w
        → P b rest' (tick_visit host busy t w)

  module _ {limit : ℕ} (laws : Laws host limit) (tick : ℕ) (P : ℕ → List Timer → W → Type 0)
      (carried : Carried tick P) where
    abbrev Ends : Option ℕ → W → Type 0
    Ends cursor w =
        (fuel : ℕ) × (v : W) × (tick_walk host busy fuel cursor w ≡ some v)
        × Done tick v
        × (b : ℕ) × P b [] v

    -- A step of the walk.
    step_Ends :
        (t : Timer) (rest : List Timer) (w : W)
        → Middle tick t rest (timers w)
        → Ends (first_timer rest) (tick_visit host busy t w)
        → Ends (some t.address) w
    unfolding tick_walk
    step_Ends t rest w m (fuel, v, runs, done, b, known) =
        let found = find_at t rest m.seen _ m.list_eq m.seen_ascends in
        let next = after_at t rest m.seen _ m.list_eq m.seen_ascends in
        (suc fuel, v, rw (tick_walk, found, next) runs, done, b, known)

    walk_Ends :
        (bound : ℕ) (rest : List Timer) (w : W)
        → tick + limit < 2 ^ 32
        → At (first_timer rest) tick rest (timers w)
        → due tick rest ≤ bound
        → P bound rest w
        → Ends (first_timer rest) w
    unfolding tick_walk due
    walk_Ends bound [] w fits a h known = (
      1,
      w,
      refl,
      record {
        ascends =
            subst (λ l. Ascends 0 l (timers w).next) (sym (a.list_eq))
              (Ascends-append 0 a.seen a.mid [] (timers w).next a.seen_ascends a.rest_ascends);
        none_due = rw a.list_eq (omega (arith, due-append tick a.seen [], a.seen_due));
        same_tick = a.tick_eq;
      },
      bound,
      known,
    )
    walk_Ends zero (t ∷ rest) w fits a h known =
        let m = At-Middle tick t rest (timers w) a in
        let idle : is_due tick t ≡ false = ground arith in
        step_Ends t rest w m (
          walk_Ends zero rest (tick_visit host busy t w) fits (visit_idle laws tick t rest w m idle)
            (omega arith) (carried.idle zero t rest w (rw m.tick_eq idle) known))
    walk_Ends (suc bound) (t ∷ rest) w fits a h known =
        let m = At-Middle tick t rest (timers w) a in
        step_Ends t rest w m (elim (Bool-cases (is_due tick t)) [
          | inr idle ↦
              walk_Ends (suc bound) rest (tick_visit host busy t w) fits
                (visit_idle laws tick t rest w m idle) (omega arith)
                (carried.idle (suc bound) t rest w (rw m.tick_eq idle) known)
          | inl is ↦
              let r = visit_due laws tick t rest w m fits is in
              let cursor : first_timer rest ≡ first_timer r.0 = r.1.cursor_eq in
              subst (λ k. Ends k (tick_visit host busy t w)) (sym cursor)
                (walk_Ends bound r.0 (tick_visit host busy t w) fits
                  (subst (λ k. At k tick r.0 (timers (tick_visit host busy t w))) cursor r.1)
                  (ground (arith, r.2)) (carried.fires bound t rest r.0 w m.tick_eq is known))
        ])

  -- `timers_tick` ends, steps on no timer that is not in the table, and leaves a table in which no
  -- timer is due, for handlers that call the functions of timer.c with times of at most `limit`
  -- ticks, whatever `pthread_mutex_trylock` answers. The tick does not change, and what is carried
  -- through the visits is true at the end.
  pub timers_tick_total :
      {limit : ℕ}
      → Laws host limit
      → (w : W) (P : ℕ → List Timer → W → Type 0) → Carried (timers w).tick P
      → P (due (timers w).tick (timers w).list) (timers w).list w
      → Ascends 0 (timers w).list (timers w).next
      → (timers w).tick + limit < 2 ^ 32
      → (fuel : ℕ) × (v : W) × (timers_tick host busy fuel w ≡ some v)
        × Ascends 0 (timers v).list (timers v).next
        × (due (timers w).tick (timers v).list ≡ 0)
        × ((timers v).tick ≡ (timers w).tick)
        × (b : ℕ) × P b [] v
  unfolding timers_tick due
  timers_tick_total laws w P carried known a fits =
      let tick = (timers w).tick in
      let start : At (first_timer (timers w).list) tick (timers w).list (timers w) = record {
        seen = [];
        mid = 0;
        list_eq = refl;
        seen_ascends = omega arith;
        rest_ascends = a;
        seen_due = refl;
        cursor_eq = refl;
        tick_eq = refl;
      } in
      let (fuel, v, runs, done, b, left) =
        walk_Ends laws tick P carried (due tick (timers w).list) (timers w).list w fits start
          (omega arith) known in
      (fuel, v, runs, done.ascends, done.none_due, done.same_tick, b, left)
