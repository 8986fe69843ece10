-- ===== src/Tcp/Ticks.antt =====
-- A round of `timers_start` (toy_src/timer.c) with the timers of TCP.
use toy_ip.Base.{
  ℕ, zero, suc, ◌+◌, ◌≡◌, refl, u32, Bool, true, false, not, ◌&&◌, ◌||◌, leb, Option, ◌∙◌, ap, none,
  some, List, [], ◌∷◌, length,
}
use toy_ip.Timer.{Timer, is_due}
use toy_ip.Timer.Tick.{tick_round}
use toy_ip.Timer.Order.{Ascends}
use toy_ip.Timer.Evolves.{due}
use toy_ip.Timer.Quiet.{alive, timers_tick_frees}
use toy_ip.Tcp.Types.{TcpSock, Env}
use toy_ip.Tcp.Timeouts.{Ticking, tcp_host, done, tcp_round, tcp_host-Laws}

abbrev is_there {ℓ} : {A : Type ℓ} → Option A → Bool
is_there none = false
is_there (some _) = true

-- The sockets of the due timers are there.
abbrev pub due_live : ℕ → (ℕ → Option TcpSock) → List Timer → Bool
due_live tick socks [] = true
due_live tick socks (t ∷ ts) =
    (not (is_due tick t) || is_there (socks t.arg)) && due_live tick socks ts

-- At most one timer is due at the next tick, and its socket is there.
abbrev pub is_calm : Env → Bool
is_calm env =
    let tick = u32 (env.timers.tick + 1) in
    leb (due tick env.timers.list) 1 && due_live tick env.socks env.timers.list

module _ (busy : ℕ → Bool) (tick : ℕ) (socks : ℕ → Option TcpSock) where
  -- No fault so far, and while a handler is still to be called, it is the only one and its socket
  -- is as it was.
  abbrev Calm : ℕ → List Timer → Ticking → Type 0
  Calm zero rest w = w.fault ≡ false
  Calm (suc b) rest w =
      (w.fault ≡ false)
      × (b ≡ 0)
      × (w.env.socks ≡ socks)
      × (w.env.timers.tick ≡ tick)
      × (due_live tick socks rest ≡ true)

-- The round in terms of the walk.
module _ (busy : ℕ → Bool) (fuel : ℕ) (env : Env) (w : Ticking)
    (runs : tick_round tcp_host busy fuel (record { env = env; fault = false }) ≡ some w) where
  round-done : w.fault ≡ false → tcp_round busy fuel env ≡ some (done w.env)
  unfolding tcp_round
  round-done fine = rw (tcp_round, runs, fine) refl

-- Where no timer is due at the next tick, their addresses ascend and no trylock fails, the round
-- changes the tick and nothing else but the list, from which it frees the timers that are cancelled
-- and have no reference left, and only those. As many steps as there are timers, and one more, are
-- enough.
pub tick_round_frees :
    (env : Env)
    → Ascends 0 env.timers.list env.timers.next
    → due (u32 (env.timers.tick + 1)) env.timers.list ≡ 0
    → tcp_round (λ p. false) (suc (length env.timers.list)) env
      ≡ some (
          done (record env {
            timers = record (env.timers) {
              tick = u32 (env.timers.tick + 1);
              list = alive env.timers.list;
            };
          }))
unfolding tick_round
tick_round_frees env a quiet =
    let ticked : Ticking = record {
      env = record env { timers = record (env.timers) { tick = u32 (env.timers.tick + 1) } };
      fault = false;
    } in
    let (w, runs, left, (fine, same)) =
      timers_tick_frees tcp_host tcp_host-Laws.timers_set
        (λ w. (w.fault ≡ false) × (w.env ≡ record env { timers = w.env.timers }))
        (λ ts w h. (h.0, ap {A = Env} (λ e. record e { timers = ts }) h.1)) ticked a quiet
        (refl, refl) in
    round-done (λ p. false) (suc (length env.timers.list)) env w runs fine
    ∙ ap (λ e. some (done e)) (same ∙ ap (λ ts. record env { timers = ts }) left)
