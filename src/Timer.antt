-- ===== src/Timer.antt =====
-- toy_src/timer.c: the table of timers. A pointer to a timer is its address in the table, and a
-- handler is named by the function of the TCP files that it points to, with the address of the
-- socket that is its argument.
pub mod Tick
pub mod Order
pub mod Evolves
pub mod Changes
pub mod Points
pub mod Handlers
pub mod Rounds
pub mod Quiet
mod Tests
use toy_ip.Base.{
  ℕ, ◌+◌, Bool, true, false, not, ◌&&◌, Option, none, some, List, [], ◌∷◌, ◌++◌, u32, ℤ, pos, dec,
  is_zero, ltb, ◌==◌, if◌then◌else◌,
}

pub data Handler : Type 0 where
  connect_rto retransmission_timeout send_delack linger : Handler

-- `struct timer`
pub record Timer : Type 0 where
  pub address : ℕ
  pub refcnt : ℤ
  pub expires : ℕ
  pub cancelled : Bool
  pub handler : Handler
  pub arg : ℕ

-- `timers` and `tick`; `next` is the address that the next `calloc` returns.
pub record Timers : Type 0 where
  pub list : List Timer
  pub tick : ℕ
  pub next : ℕ

unfoldable pub timer_add : ℕ → Handler → ℕ → Timers → Timers
timer_add expire handler arg ts = record ts {
  list =
      ts.list
      ++ (record {
        address = ts.next;
        refcnt = pos 1;
        expires = u32 (ts.tick + expire);
        cancelled = false;
        handler = handler;
        arg = arg;
      }
          ∷ []);
  next = ts.next + 1;
}

-- `f` on the timer at an address; the other timers stay.
unfoldable pub modify : (Timer → Timer) → ℕ → List Timer → List Timer
modify f p [] = []
modify f p (t ∷ ts) = (if t.address == p then f t else t) ∷ modify f p ts

unfoldable pub timer_release : Option ℕ → Timers → Timers
timer_release none ts = ts
timer_release (some p) ts = record ts {
  list = modify (λ t. record t { refcnt = dec t.refcnt }) p ts.list;
}

unfoldable pub timer_cancel : Option ℕ → Timers → Timers
timer_cancel none ts = ts
timer_cancel (some p) ts = record ts {
  list = modify (λ t. record t { refcnt = dec t.refcnt; cancelled = true }) p ts.list;
}

-- The two tests of `timers_tick`: whether the handler runs, and whether the timer is then freed.
unfoldable pub is_due : ℕ → Timer → Bool
is_due tick t = not t.cancelled && ltb t.expires tick

unfoldable pub is_dead : Timer → Bool
is_dead t = t.cancelled && is_zero t.refcnt

-- `t->cancelled = 1` before the call of a due handler.
unfoldable pub expire : ℕ → Timer → Timer
unfolding is_due
expire tick t = if is_due tick t then record t { cancelled = true } else t
