-- ===== src/WorkQueue/Racing/Gauge.antt =====
-- work_queue_model/worker.go: the count of live workers is right in every interleaving, and the gauge
-- is not.
use distributed_messaging_sy.Base.{
  ℕ, ◌+◌, ◌%◌, ◌^◌, ◌≡◌, ◌≢◌, refl, ◌∙◌, ap, List, [], ◌∷◌, ◌++◌, All, arith,
}
use distributed_messaging_sy.WorkQueue.Racing.{
  Pc, fresh, counted, live, uncounted, gone, Pool, Move, add, show, subtract, hide, Step, spawn,
  pick, empty, Reach, here, later,
}

-- How many of some workers are counted
abbrev pub alive : List Pc → ℕ
alive [] = 0
alive (counted _ ∷ ps) = alive ps + 1
alive (live ∷ ps) = alive ps + 1
alive (_ ∷ ps) = alive ps

alive-append : (xs ys : List Pc) → alive (xs ++ ys) ≡ alive xs + alive ys
alive-append [] ys = omega arith
alive-append (counted v ∷ xs) ys = omega (arith, alive-append xs ys)
alive-append (live ∷ xs) ys = omega (arith, alive-append xs ys)
alive-append (fresh ∷ xs) ys = alive-append xs ys
alive-append (uncounted v ∷ xs) ys = alive-append xs ys
alive-append (gone ∷ xs) ys = alive-append xs ys

abbrev pub IsCount : Pool → Type 0
IsCount s = s.worker_count ≡ alive s.pcs % 2 ^ 32

Move-IsCount :
    {c g c' g' : ℕ} {p p' : Pc} (xs ys : List Pc)
    → Move c g p c' g' p'
    → c ≡ alive (xs ++ p ∷ ys) % 2 ^ 32
    → c' ≡ alive (xs ++ p' ∷ ys) % 2 ^ 32
Move-IsCount xs ys add h =
    omega (arith, h, alive-append xs (fresh ∷ ys), alive-append xs (counted _ ∷ ys))
Move-IsCount xs ys (show v) h =
    omega (arith, h, alive-append xs (counted v ∷ ys), alive-append xs (live ∷ ys))
Move-IsCount xs ys subtract h =
    omega (arith, h, alive-append xs (live ∷ ys), alive-append xs (uncounted _ ∷ ys))
Move-IsCount xs ys (hide v) h =
    omega (arith, h, alive-append xs (uncounted v ∷ ys), alive-append xs (gone ∷ ys))

Step-IsCount : {s t : Pool} → Step s t → IsCount s → IsCount t
Step-IsCount spawn h = h
Step-IsCount (pick xs ys e mv) h = Move-IsCount xs ys mv (h ∙ ap (λ ps. alive ps % 2 ^ 32) e)

-- However the workers' steps interleave, `WorkerCount` is the number of workers that have counted
-- themselves and not yet uncounted, modulo 2^32.
pub Reach-IsCount : {s : Pool} → Reach empty s → IsCount s
Reach-IsCount here = refl
Reach-IsCount (later r st) = Step-IsCount st (Reach-IsCount r)

-- No worker is between an addition and its write to the gauge.
abbrev pub IsQuiet : Pc → Type 0
IsQuiet (counted _) = ⊥
IsQuiet (uncounted _) = ⊥
IsQuiet _ = Unit {0}

module _ (s : Pool) where
  abbrev c₁ : ℕ
  c₁ = (s.worker_count + 1) % 2 ^ 32

  abbrev c₂ : ℕ
  c₂ = (c₁ + 1) % 2 ^ 32

  -- From any state where no worker is between its two steps, two workers more can start so that again
  -- no worker is between its steps, and the gauge is not the count.
  gauge_lags :
      All IsQuiet s.pcs
      → (t : Pool) × Reach s t × All IsQuiet t.pcs × (t.live_workers ≢ t.worker_count)
  gauge_lags quiet = (
    record { worker_count = c₂; live_workers = c₁; pcs = live ∷ live ∷ s.pcs },
    later
        (later
          (later (later (later (later here spawn) spawn) (pick [] (fresh ∷ s.pcs) refl add))
            (pick (counted c₁ ∷ []) s.pcs refl add))
          (pick (counted c₁ ∷ []) s.pcs refl (show c₂)))
        (pick [] (live ∷ s.pcs) refl (show c₁)),
    (tt, (tt, quiet)),
    λ e. absurd (omega arith),
  )
