-- ===== src/Webhook/Worker/Lifecycle.antt =====
-- Start and Stop of the worker (internal/webhook/worker.go). The mutex orders their calls, however
-- their callers interleave.
use letterbox.Prelude.{ℕ, suc, ◌≡◌, refl, Bool, true, false, List, [], ◌∷◌, if◌then◌else◌, arith}

-- `loops` counts the goroutines that run the polling loop, `cancelled` is the context's.
pub record Worker : Type 0 where
  pub started : Bool
  pub closed : Bool
  pub cancelled : Bool
  pub loops : ℕ

abbrev pub new_worker : Worker
new_worker = record { started = false; closed = false; cancelled = false; loops = 0 }

unfoldable pub start : Worker → Worker
start w = if w.started then w else record w { started = true; loops = suc w.loops }

unfoldable pub stop : Worker → Worker
stop w = if w.closed then w else record w { closed = true; cancelled = true }

pub data Call : Type 0 where
  starts stops : Call

unfoldable pub calls : List Call → Worker → Worker
unfolding start stop
calls [] w = w
calls (starts ∷ cs) w = calls cs (start w)
calls (stops ∷ cs) w = calls cs (stop w)

abbrev pub IsSingle : Worker → Type 0
IsSingle w = (w.loops ≡ (if w.started then 1 else 0)) × (w.cancelled ≡ w.closed)

start-IsSingle : (w : Worker) → IsSingle w → IsSingle (start w)
unfolding start
start-IsSingle w h = ground (arith, h)

stop-IsSingle : (w : Worker) → IsSingle w → IsSingle (stop w)
unfolding stop
stop-IsSingle w h = ground (arith, h)

calls-IsSingle : (cs : List Call) (w : Worker) → IsSingle w → IsSingle (calls cs w)
unfolding calls
calls-IsSingle [] w h = h
calls-IsSingle (starts ∷ cs) w h = calls-IsSingle cs (start w) (start-IsSingle w h)
calls-IsSingle (stops ∷ cs) w h = calls-IsSingle cs (stop w) (stop-IsSingle w h)

-- However Start and Stop are called, at most one loop was started, and the context is cancelled
-- exactly where the worker is closed.
pub calls-new_worker : (cs : List Call) → IsSingle (calls cs new_worker)
calls-new_worker cs = calls-IsSingle cs new_worker (refl, refl)
