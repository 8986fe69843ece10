-- ===== src/Timer/Quiet.antt =====
-- The walk of `timers_tick` where no timer is due: which timers it frees.
use toy_ip.Base.{
  ℕ, zero, suc, pos, negsuc, ◌≡◌, refl, sym, ap, ◌∙◌, subst, Bool, true, false, Bool-cases, inl,
  inr, some, List, [], ◌∷◌, ◌++◌, append_assoc, arith, length, if◌then◌else◌,
}
use toy_ip.Timer.{Timer, Timers, is_due, is_dead}
use toy_ip.Timer.Tick.{TimerHost, first_timer, timer_free, reap, tick_visit, tick_walk, timers_tick}
use toy_ip.Timer.Order.{
  Ascends, Ascends-raise, Ascends-le, Ascends-append, find_at, after_at, unlink_at,
}
use toy_ip.Timer.Evolves.{due}

-- What is left of a table: a timer goes if it is cancelled and nothing points to it.
unfoldable pub alive : List Timer → List Timer
alive [] = []
alive (t ∷ ts) = elim t.cancelled [
  | false ↦ t ∷ alive ts
  | true ↦ elim t.refcnt [
    | pos zero ↦ alive ts
    | pos (suc n) ↦ t ∷ alive ts
    | negsuc n ↦ t ∷ alive ts
  ]
]

alive-is_dead : (t : Timer) (ts : List Timer) → is_dead t ≡ true → alive (t ∷ ts) ≡ alive ts
unfolding alive is_dead
alive-is_dead t ts h = ground arith

alive-kept : (t : Timer) (ts : List Timer) → is_dead t ≡ false → alive (t ∷ ts) ≡ t ∷ alive ts
unfolding alive is_dead
alive-kept t ts h = ground arith

module _ {W : Type 0} (host : TimerHost W)
    (timers_set : (ts : Timers) (w : W) → host.timers (host.set_timers ts w) ≡ ts) (P : W → Type 0)
    (kept : (ts : Timers) (w : W) → P w → P (host.set_timers ts w)) where
  open host use {timers}

  -- No trylock fails.
  abbrev idle_lock : ℕ → Bool
  idle_lock p = false

  abbrev Quiet : ℕ → List Timer → List Timer → W → Type 0
  Quiet fuel seen rest w =
      (v : W) × (tick_walk host idle_lock fuel (first_timer rest) w ≡ some v)
      × (timers v ≡ record (timers w) { list = seen ++ alive rest })
      × P v

  -- A visit of a timer that is not due.
  module _ (t : Timer) (rest seen : List Timer) (w : W)
      (list_eq : (timers w).list ≡ seen ++ t ∷ rest) (ascends : Ascends 0 seen t.address)
      (idle : is_due (timers w).tick t ≡ false) where
    timers-visit :
        timers (tick_visit host idle_lock t w)
        ≡ record (timers w) { list = if is_dead t then seen ++ rest else (seen ++ t ∷ rest) }
    unfolding tick_visit reap timer_free
    timers-visit =
        rw (idle, find_at t rest seen _ list_eq ascends)
          (elim (Bool-cases (is_dead t)) [
            | inl e ↦ rw e (
                timers_set _ w
                ∙ ap (λ l. record (timers w) { list = l })
                    (unlink_at t rest seen _ list_eq ascends))
            | inr e ↦ rw e (ap (λ l. record (timers w) { list = l }) list_eq)
          ])

    P-visit : P w → P (tick_visit host idle_lock t w)
    unfolding tick_visit reap timer_free
    P-visit h =
        rw (idle, find_at t rest seen _ list_eq ascends)
          (elim (Bool-cases (is_dead t)) [ inl e ↦ rw e (kept _ w h) | inr e ↦ rw e h ])

    walk_next :
        (fuel : ℕ)
        → tick_walk host idle_lock (suc fuel) (some t.address) w
          ≡ tick_walk host idle_lock fuel (first_timer rest) (tick_visit host idle_lock t w)
    unfolding tick_walk
    walk_next fuel =
        rw
          (tick_walk, find_at t rest seen _ list_eq ascends, after_at t rest seen _ list_eq ascends)
          refl

    -- The rest of the walk, from a table in which `seen'` stands before the cursor.
    Quiet-visit :
        (seen' : List Timer) (fuel : ℕ)
        → timers (tick_visit host idle_lock t w) ≡ record (timers w) { list = seen' ++ rest }
        → seen' ++ alive rest ≡ seen ++ alive (t ∷ rest)
        → Quiet fuel seen' rest (tick_visit host idle_lock t w)
        → Quiet (suc fuel) seen (t ∷ rest) w
    unfolding tick_walk
    Quiet-visit seen' fuel now same (v, runs, eq, known) = (
      v,
      walk_next fuel ∙ runs,
      eq
          ∙ ap {A = Timers} (λ ts. record ts { list = seen' ++ alive rest }) now
          ∙ ap (λ l. record (timers w) { list = l }) same,
      known,
    )

    dead_visit :
        is_dead t ≡ true
        → timers (tick_visit host idle_lock t w) ≡ record (timers w) { list = seen ++ rest }
    dead_visit e = rw e at timers-visit

    alive_visit :
        is_dead t ≡ false
        → timers (tick_visit host idle_lock t w)
          ≡ record (timers w) { list = (seen ++ t ∷ []) ++ rest }
    alive_visit e =
        (rw e at timers-visit)
        ∙ ap (λ l. record (timers w) { list = l }) (sym (append_assoc seen (t ∷ []) rest))

  Quiet-walk :
      (rest seen : List Timer) (mid : ℕ) (w : W)
      → (timers w).list ≡ seen ++ rest
      → Ascends 0 seen mid
      → Ascends mid rest (timers w).next
      → due (timers w).tick rest ≡ 0
      → P w
      → Quiet (suc (length rest)) seen rest w
  unfolding tick_walk alive due
  Quiet-walk [] seen mid w list_eq a b quiet known = (w, refl, rw (← list_eq) refl, known)
  Quiet-walk (t ∷ rest) seen mid w list_eq a b quiet known =
      let next =
        P-visit t rest seen w list_eq (Ascends-raise 0 seen mid t.address b.0 a) (ground arith)
          known in
      let low = Ascends-raise 0 seen mid t.address b.0 a in
      let idle : is_due (timers w).tick t ≡ false = ground arith in
      let v = tick_visit host idle_lock t w in
      elim (Bool-cases (is_dead t)) [
        | inl e ↦
            let now = dead_visit t rest seen w list_eq low idle e in
            Quiet-visit t rest seen w list_eq low idle seen (suc (length rest)) now
              (ap (λ l. seen ++ l) (sym (alive-is_dead t rest e)))
              (Quiet-walk rest seen (suc t.address) v (ap (λ k. k.list) now)
                (Ascends-raise 0 seen mid (suc t.address)
                  (omega (arith, b.0, Ascends-le 0 seen mid a)) a)
                (subst (λ k. Ascends (suc t.address) rest k.next) (sym now) b.1)
                (subst (λ k. due k.tick rest ≡ 0) (sym now) (omega arith)) next)
        | inr e ↦
            let now = alive_visit t rest seen w list_eq low idle e in
            Quiet-visit t rest seen w list_eq low idle (seen ++ t ∷ []) (suc (length rest)) now
              (append_assoc seen (t ∷ []) (alive rest)
                ∙ ap (λ l. seen ++ l) (sym (alive-kept t rest e)))
              (Quiet-walk rest (seen ++ t ∷ []) (suc t.address) v (ap (λ k. k.list) now)
                (Ascends-append 0 seen t.address (t ∷ []) (suc t.address) low
                  (omega arith, omega arith))
                (subst (λ k. Ascends (suc t.address) rest k.next) (sym now) b.1)
                (subst (λ k. due k.tick rest ≡ 0) (sym now) (omega arith)) next)
      ]

  pub timers_tick_frees :
      (w : W)
      → Ascends 0 (timers w).list (timers w).next
      → due (timers w).tick (timers w).list ≡ 0
      → P w
      → (v : W) × (timers_tick host idle_lock (suc (length (timers w).list)) w ≡ some v)
        × (timers v ≡ record (timers w) { list = alive (timers w).list })
        × P v
  unfolding timers_tick
  timers_tick_frees w a quiet known =
      Quiet-walk (timers w).list [] 0 w refl (omega arith) a quiet known
