-- ===== src/WorkQueue/Racing.antt =====
-- work_queue_model/worker.go: `WorkerCount` and the gauge `LiveWorkers`, as the goroutines of many
-- workers change them. The count changes by one atomic addition, and its new value is written to the
-- gauge in a second step.
pub mod Gauge
use distributed_messaging_sy.Base.{ℕ, ◌+◌, ◌-◌, ◌%◌, ◌^◌, ◌≡◌, List, [], ◌∷◌, ◌++◌}

-- Where a worker stands, with the value that its addition returned
pub data Pc : Type 0 where
  fresh : Pc
  counted : (new_count : ℕ) → Pc
  live : Pc
  uncounted : (new_count : ℕ) → Pc
  gone : Pc

-- The bit pattern of an int32, the gauge that was set to one, and the workers
pub record Pool : Type 0 where
  pub worker_count : ℕ
  pub live_workers : ℕ
  pub pcs : List Pc

-- One step of one worker: its place and the two variables before and after
pub data Move (c g : ℕ) : Pc → ℕ → ℕ → Pc → Type 0 where
  add : Move c g fresh ((c + 1) % 2 ^ 32) g (counted ((c + 1) % 2 ^ 32))
  show : (v : ℕ) → Move c g (counted v) c v live
  subtract : Move c g live ((c + (2 ^ 32 - 1)) % 2 ^ 32) g (uncounted ((c + (2 ^ 32 - 1)) % 2 ^ 32))
  hide : (v : ℕ) → Move c g (uncounted v) c v gone

pub data Step (s : Pool) : Pool → Type 0 where
  spawn : Step s (record s { pcs = fresh ∷ s.pcs })
  pick :
      (xs ys : List Pc) {p p' : Pc} {c g : ℕ}
      → s.pcs ≡ xs ++ p ∷ ys
      → Move s.worker_count s.live_workers p c g p'
      → Step s (record { worker_count = c; live_workers = g; pcs = xs ++ p' ∷ ys })

abbrev pub empty : Pool
empty = record { worker_count = 0; live_workers = 0; pcs = [] }

pub data Reach (s : Pool) : Pool → Type 0 where
  here : Reach s s
  later : {t u : Pool} → Reach s t → Step t u → Reach s u
