-- ===== src/Timer/Tick.antt =====
-- toy_src/timer.c: the walk of `timers_tick` over the table. A handler may change the table and
-- all that is around it, so the walk works on a state `W` that holds the table. A cursor of the walk
-- is the address of a timer, and `none` is the head of the list.
use toy_ip.Base.{
  ℕ, zero, suc, ◌+◌, ◌<◌, ◌^◌, ◌≡◌, Bool, true, Option, none, some, List, [], ◌∷◌, u32, ◌==◌,
  if◌then◌else◌,
}
use toy_ip.Timer.{
  Timer, Timers, Handler, timer_add, timer_release, timer_cancel, modify, is_due, is_dead,
}

-- Where the table lies in the state, and what a handler does to the state at a tick.
pub record TimerHost (W : Type 0) : Type 0 where
  pub timers : W → Timers
  pub set_timers : Timers → W → W
  pub run : Handler → ℕ → ℕ → W → W

-- `list_entry` at a cursor; `none` is an address at which no timer of the list lies.
unfoldable pub entry_at : ℕ → List Timer → Option Timer
entry_at p [] = none
entry_at p (t ∷ ts) = let rest = entry_at p ts in if t.address == p then some t else rest

abbrev pub first_timer : List Timer → Option ℕ
first_timer [] = none
first_timer (t ∷ ts) = some t.address

-- The `next` of the timer at an address.
unfoldable pub next_timer : ℕ → List Timer → Option ℕ
next_timer p [] = none
next_timer p (t ∷ ts) =
    let rest = next_timer p ts in if t.address == p then first_timer ts else rest

-- `list_del`
unfoldable pub list_del_timer : ℕ → List Timer → List Timer
list_del_timer p [] = []
list_del_timer p (t ∷ ts) =
    let rest = list_del_timer p ts in if t.address == p then ts else t ∷ rest

module _ {W : Type 0} (host : TimerHost W) where
  open host use {timers, set_timers, run}

  abbrev pub set_list : List Timer → W → W
  set_list l w = set_timers (record (timers w) { list = l }) w

  -- `t->cancelled = 1; t->handler(tick, t->arg);`
  unfoldable pub fire : Timer → W → W
  fire t w =
      run t.handler (timers w).tick t.arg
        (set_list (modify (λ u. record u { cancelled = true }) t.address (timers w).list) w)

module _ {W : Type 0} (host : TimerHost W) (busy : ℕ → Bool) where
  open host use {timers, set_timers}

  -- `busy p` says that `pthread_mutex_trylock` fails where the timer at `p` is to be freed.
  unfoldable pub timer_free : ℕ → W → W
  timer_free p w = if busy p then w else set_list host (list_del_timer p (timers w).list) w

  -- The second test of the loop reads the timer again, after the handler.
  unfoldable pub reap : ℕ → Option Timer → W → W
  reap p none w = w
  reap p (some t) w = if is_dead t then timer_free p w else w

  unfoldable pub tick_visit : Timer → W → W
  tick_visit t w =
      let called = if is_due (timers w).tick t then fire host t w else w in
      reap t.address (entry_at t.address (timers called).list) called

  -- `list_for_each_safe`: the next cursor is read before the body. `none` is the result where the
  -- fuel runs out and where a cursor lies outside the list.
  unfoldable pub tick_walk : ℕ → Option ℕ → W → Option W
  tick_walk zero cursor w = none
  tick_walk (suc fuel) none w = some w
  tick_walk (suc fuel) (some p) w = elim (entry_at p (timers w).list) [
    | none ↦ none
    | some t ↦ tick_walk fuel (next_timer p (timers w).list) (tick_visit t w)
  ]

  unfoldable pub timers_tick : ℕ → W → Option W
  timers_tick fuel w = tick_walk fuel (first_timer (timers w).list) w

  -- A round of the loop of `timers_start`.
  unfoldable pub tick_round : ℕ → W → Option W
  tick_round fuel w =
      let ts = timers w in timers_tick fuel (set_timers (record ts { tick = u32 (ts.tick + 1) }) w)

-- What a handler may do to the table: a sequence of calls of the functions of timer.c, where no
-- expiry wraps round.
pub data Changes : Timers → Timers → Type 0 where
  nothing : {ts us : Timers} → ts ≡ us → Changes ts us
  adds :
      {ts us : Timers} (expire : ℕ) (handler : Handler) (arg : ℕ)
      → ts.tick + expire < 2 ^ 32
      → Changes (timer_add expire handler arg ts) us
      → Changes ts us
  releases : {ts us : Timers} (p : Option ℕ) → Changes (timer_release p ts) us → Changes ts us
  cancels : {ts us : Timers} (p : Option ℕ) → Changes (timer_cancel p ts) us → Changes ts us
