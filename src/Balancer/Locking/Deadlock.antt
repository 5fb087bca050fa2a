-- ===== src/Balancer/Locking/Deadlock.antt =====
-- load_balancer.go: `proxyHandler` takes the read lock, and calls `getNextBackend`, which takes it
-- again.
use std.Path.{subst}
use distributed_messaging_sy.Base.{ℕ, ◌≡◌, ◌≢◌, refl, arith, sym}
use distributed_messaging_sy.Balancer.Locking.{
  Pc, outer, calling, queued, waiting, Threads, update, Move, enter, call, nest, scrape, lock,
  announce, locked, Step, pick, start, Reach, here, later,
}

-- A goroutine that proxies a request wants the lock again, and another one waits to write, with no
-- writer ahead.
pub record Deadlocked (i j : ℕ) (s : Threads) : Type 0 where
  pub nested : s i ≡ calling
  pub pending : s j ≡ waiting

Move-Deadlocked :
    {i j : ℕ} (s : Threads)
    → Deadlocked i j s
    → (k : ℕ) {p q : Pc} → s k ≡ q
    → Move s q p
    → Deadlocked i j (update s k p)
Move-Deadlocked {i} {j} s h k e (nest free) = ground (arith, h, free j)
Move-Deadlocked {i} {j} s h k e (locked free) = ground (arith, h, free i)
Move-Deadlocked {i} {j} s h k e (enter free) = ground (arith, h, e)
Move-Deadlocked {i} {j} s h k e (scrape free) = ground (arith, h, e)
Move-Deadlocked {i} {j} s h k e (announce free) = ground (arith, h, e)
Move-Deadlocked {i} {j} s h k e _ = ground (arith, h, e)

Reach-Deadlocked : {i j : ℕ} {s t : Threads} → Reach s t → Deadlocked i j s → Deadlocked i j t
Reach-Deadlocked here h = h
Reach-Deadlocked (later {t = t} r (pick k mv)) h =
    Move-Deadlocked t (Reach-Deadlocked r h) k refl mv

step_at : (s : Threads) (k : ℕ) {p q : Pc} → s k ≡ q → Move s q p → Step s (update s k p)
step_at s k {p} e mv = pick k (subst (λ x. Move s x p) (sym e) mv)

module _ (i j : ℕ) (n : i ≢ j) where
  entered : Threads
  entered = update start i outer

  called : Threads
  unfolding entered
  called = update entered j queued

  announced : Threads
  unfolding called
  announced = update called j waiting

  nested_state : Threads
  unfolding announced
  nested_state = update announced i calling

  nested-Reach : Reach start nested_state
  unfolding nested_state
  nested-Reach =
      later
        (later
          (later (later here (step_at start i refl (enter (λ k. refl))))
            (step_at entered j (ground arith) lock))
          (step_at called j (ground arith) (announce (λ k. ground arith))))
        (step_at announced i (ground arith) call)

  nested-Deadlocked : Deadlocked i j nested_state
  unfolding nested_state
  nested-Deadlocked = ground arith

-- For any two goroutines there is a reachable state, where the one has the read lock for a proxied
-- request and is about to take it again, and the other waits for the write lock, with no writer ahead, from which neither
-- ever moves, whatever the others do.
pub proxy_deadlocks :
    (i j : ℕ)
    → i ≢ j
    → (s : Threads) × Reach start s × ((t : Threads) → Reach s t → Deadlocked i j t)
proxy_deadlocks i j n =
    (nested_state i j n, nested-Reach i j n, λ t r. Reach-Deadlocked r (nested-Deadlocked i j n))
