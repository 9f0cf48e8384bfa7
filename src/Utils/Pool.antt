-- ===== src/Utils/Pool.antt =====
-- utils/concurrency_utils.go: the worker pool, a buffered channel of slots.
pub mod Tasks
use go_fourmeme.Base.{
  ℕ, ◌+◌, ◌-◌, Bool, true, false, Option, none, some, ltb, leb, ◌==◌, if◌then◌else◌,
}
use go_fourmeme.Base.Int.{ℤ, pos_part}

-- A channel is its capacity and the number of values in it; the values carry nothing.
pub record WorkerPool : Type 0 where
  pub cap : ℕ
  pub used : ℕ

-- `NewWorkerPool`.
unfoldable pub new_worker_pool : ℤ → WorkerPool
new_worker_pool max_concurrent =
    if leb (pos_part max_concurrent) 0
    then record { cap = 1; used = 0 }
    else record { cap = pos_part max_concurrent; used = 0 }

-- `p.slots <- struct{}{}`: `none` while the channel is full, when the caller waits.
unfoldable pub acquire : WorkerPool → Option WorkerPool
acquire p = if ltb p.used p.cap then some (record p { used = p.used + 1 }) else none

-- `<-p.slots`: `none` while the channel is empty, when the caller waits.
unfoldable pub release : WorkerPool → Option WorkerPool
release p = if p.used == 0 then none else some (record p { used = p.used - 1 })

-- `TryAcquire`: the `select` with a default.
unfoldable pub try_acquire : WorkerPool → WorkerPool × Bool
try_acquire p = if ltb p.used p.cap then (record p { used = p.used + 1 }, true) else (p, false)
