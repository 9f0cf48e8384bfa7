-- ===== src/Utils/Pool/Tasks.antt =====
-- The goroutines of ParseLogMulti over one pool: each acquires a slot, works, and releases it.
use go_fourmeme.Base.{ℕ, ◌+◌, ◌-◌, ◌≤◌, ◌<◌, ◌≡◌, refl, ap, ◌∙◌, some, List, [], ◌∷◌, ◌++◌, arith}
use go_fourmeme.Base.Int.{ℤ, pos}
use go_fourmeme.Utils.Pool.{WorkerPool, new_worker_pool, acquire, release}

pub data Phase : Type 0 where
  waiting running finished : Phase

pub record System : Type 0 where
  pub pool : WorkerPool
  pub tasks : List Phase

-- One goroutine moves. `xs` and `ys` are the others.
pub data Step (s t : System) : Type 0 where
  spawn : t ≡ record { pool = s.pool; tasks = waiting ∷ s.tasks } → Step s t
  enter :
      (xs ys : List Phase) (p : WorkerPool)
      → s.tasks ≡ xs ++ waiting ∷ ys
      → acquire s.pool ≡ some p
      → t ≡ record { pool = p; tasks = xs ++ running ∷ ys }
      → Step s t
  leave :
      (xs ys : List Phase) (p : WorkerPool)
      → s.tasks ≡ xs ++ running ∷ ys
      → release s.pool ≡ some p
      → t ≡ record { pool = p; tasks = xs ++ finished ∷ ys }
      → Step s t

pub data Reach (s : System) : System → Type 0 where
  here : Reach s s
  next : {t u : System} → Reach s t → Step t u → Reach s u

unfoldable pub initial : ℤ → System
initial n = record { pool = new_worker_pool n; tasks = [] }

abbrev busy : Phase → ℕ
busy waiting = 0
busy running = 1
busy finished = 0

-- The goroutines that are between Acquire and Release.
unfoldable pub count_running : List Phase → ℕ
count_running [] = 0
count_running (x ∷ xs) = busy x + count_running xs

count_running-append :
    (xs ys : List Phase) → count_running (xs ++ ys) ≡ count_running xs + count_running ys
unfolding count_running
count_running-append [] ys = omega arith
count_running-append (x ∷ xs) ys = omega (arith, count_running-append xs ys)

count_running-middle :
    (xs ys : List Phase) (x : Phase)
    → count_running (xs ++ x ∷ ys) ≡ count_running xs + (busy x + count_running ys)
count_running-middle xs ys x = unfold count_running in count_running-append xs (x ∷ ys)

pub record Inv (s : System) : Type 0 where
  pub counted : count_running s.tasks ≡ s.pool.used
  pub bounded : s.pool.used ≤ s.pool.cap

pub Step-Inv : {s t : System} → Step s t → Inv s → Inv t × (t.pool.cap ≡ s.pool.cap)
Step-Inv (spawn e) h = unfold count_running in ground arith
Step-Inv (enter xs ys p e a f) h =
    unfold acquire in
    ground (
      arith,
      count_running-middle xs ys waiting,
      count_running-middle xs ys running,
      ap count_running e,
    )
Step-Inv (leave xs ys p e a f) h =
    unfold release in
    ground (
      arith,
      count_running-middle xs ys running,
      count_running-middle xs ys finished,
      ap count_running e,
    )

initial-Inv : (n : ℤ) → Inv (initial n)
unfolding initial new_worker_pool count_running
initial-Inv n = ground arith

Reach-Inv : {s t : System} → Inv s → Reach s t → Inv t × (t.pool.cap ≡ s.pool.cap)
Reach-Inv h here = (h, refl)
Reach-Inv h (next r st) =
    let (inv, same) = Reach-Inv h r in let (inv', same') = Step-Inv st inv in (inv', same' ∙ same)

-- However the goroutines interleave, at most `n` of them are between Acquire and Release at once,
-- for a pool that was made for n > 0.
pub running_le_cap :
    (n : ℕ) {t : System} → 0 < n → Reach (initial (pos n)) t → count_running t.tasks ≤ n
running_le_cap n h r =
    unfold initial new_worker_pool in
    let (inv, same) = Reach-Inv (initial-Inv (pos n)) r in ground arith

-- In every reachable state a goroutine that has done its work can release its slot: the deferred
-- Release never waits.
pub release_never_waits :
    (n : ℤ) (xs ys : List Phase) {t : System}
    → Reach (initial n) t
    → t.tasks ≡ xs ++ running ∷ ys
    → (u : System) × Step t u × (u.tasks ≡ xs ++ finished ∷ ys)
release_never_waits n xs ys {t} r e =
    let (inv, _) = Reach-Inv (initial-Inv n) r in
    let p : WorkerPool = record { cap = t.pool.cap; used = t.pool.used - 1 } in
    let freed : release t.pool ≡ some p =
      unfold release in
      ground (arith, count_running-middle xs ys running, ap count_running e, inv) in
    (record { pool = p; tasks = xs ++ finished ∷ ys }, leave xs ys p e freed refl, refl)
