-- ===== src/Examples/Interleaving.antt =====
-- Goroutines of the load balancer and of the workers, and a gateway that registers.
use distributed_messaging_sy.Base.{ℕ, ◌≡◌, refl, true, false, [], ◌∷◌, arith}
use distributed_messaging_sy.Balancer.{init, register_handler}
use distributed_messaging_sy.Balancer.Locking.{
  queued, waiting, writing, reads, Threads, update, lock, announce, locked, pick, start, Reach,
  here, later,
}
use distributed_messaging_sy.Balancer.Locking.Exclusion.{writing-IsExclusive}
use distributed_messaging_sy.Balancer.Locking.Deadlock.{Deadlocked, proxy_deadlocks}
use distributed_messaging_sy.WorkQueue.Racing as Racing
use distributed_messaging_sy.WorkQueue.Racing.Gauge.{IsCount, Reach-IsCount}
use distributed_messaging_sy.Gateway.Register.{
  lost, unanswered, answered, World, register_with_load_balancer, self_address,
}
use distributed_messaging_sy.Gateway.Registration.{register_with_load_balancer_lem}

-- Goroutine 0 writes, and goroutine 1 has called `Lock` behind it.
abbrev held : Threads
held = update (update (update (update start 0 queued) 0 waiting) 0 writing) 1 queued

held-Reach : Reach start held
held-Reach =
    later
      (later (later (later here (pick 0 lock)) (pick 0 (announce (λ j. ground arith))))
        (pick 0 (locked (λ j. ground arith))))
      (pick 1 lock)

abbrev writer : ℕ
writer = 0

abbrev other : ℕ
other = 1

writing-IsExclusive_example : (reads (held other) ≡ false) × (held other ≡ writing → other ≡ writer)
writing-IsExclusive_example = writing-IsExclusive held-Reach writer refl other

proxy_deadlocks_example :
    (s : Threads) × Reach start s × ((t : Threads) → Reach s t → Deadlocked 0 1 t)
proxy_deadlocks_example = proxy_deadlocks 0 1 (λ e. absurd (omega arith))

-- One worker that has started
abbrev one_live : Racing.Pool
one_live = record { worker_count = 1; live_workers = 1; pcs = Racing.live ∷ [] }

one_live-Reach : Racing.Reach Racing.empty one_live
one_live-Reach =
    Racing.later
      (Racing.later (Racing.later Racing.here Racing.spawn) (Racing.pick [] [] refl Racing.add))
      (Racing.pick [] [] refl (Racing.show 1))

Reach-IsCount_example : IsCount one_live
Reach-IsCount_example = Reach-IsCount one_live-Reach

-- The first post is lost, and the answer to the second.
abbrev stormy : World
stormy = record { balancer = init; fates = lost ∷ unanswered ∷ answered ∷ lost ∷ []; pauses_ms = 0 }

register_with_load_balancer_lem_example :
    let r = register_with_load_balancer 8081 stormy in
    (r.0 ≡ true)
    × (r.1.balancer ≡ (register_handler (self_address 8081) init).1)
    × (r.1.pauses_ms ≡ 2000)
register_with_load_balancer_lem_example = register_with_load_balancer_lem 8081 stormy
