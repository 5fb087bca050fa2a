-- ===== src/Quorum/Older/Pauses.antt =====
-- tester.go: how long a recovery of the older monitor sleeps.
use distributed_messaging_sy.Base.{
  ℕ, zero, suc, ◌+◌, ◌*◌, ◌%◌, ◌≤◌, ◌≡◌, Bytes, bytes, List, [], ◌∷◌, arith, returns, IsReturn,
  IsReturn-value,
}
use distributed_messaging_sy.Quorum.Host.{
  Host, Op, Recovery, sleep, container_stop, container_inspect, container_start,
}
use distributed_messaging_sy.Quorum.Older.{
  exec_in_container, forget_command, forget_loop, reset_app, reset_and_start, recover_container,
  trigger_recovery, extract_container,
}

-- The milliseconds slept
unfoldable paused : List Op → ℕ
paused [] = 0
paused (sleep ms ∷ ops) = ms + paused ops
paused (_ ∷ ops) = paused ops

module _ (host : Host) where
  exec-sleepless :
      (c : Bytes) (cmd : List Bytes) (s : Recovery)
      → IsReturn (exec_in_container host c cmd s).0
        × (paused (exec_in_container host c cmd s).1.ops ≡ paused s.ops)
  unfolding exec_in_container paused
  exec-sleepless c cmd s = ground arith

  -- The pauses of `tries` tries more, with back-offs from `backoff` on
  abbrev longest : ℕ → ℕ → ℕ
  longest zero backoff = 0
  longest (suc tries) backoff = backoff + 499 + longest tries (backoff * 2)

  forget_loop-pauses :
      (tries backoff : ℕ) (node : Bytes) (s : Recovery)
      → IsReturn (forget_loop host tries backoff node s).0
        × (paused (forget_loop host tries backoff node s).1.ops
            ≤ paused s.ops + longest tries backoff)
  unfolding forget_loop paused
  forget_loop-pauses zero backoff node s =
      let (back, same) = exec-sleepless (bytes "rabbit1") (forget_command node) s in
      let (r, e) = IsReturn-value _ back in ground (arith, e, same)
  forget_loop-pauses (suc tries) backoff node s =
      let (back, same) = exec-sleepless (bytes "rabbit1") (forget_command node) s in
      let (r, e) = IsReturn-value _ back in
      let s₁ = (exec_in_container host (bytes "rabbit1") (forget_command node) s).1 in
      ground (
        arith,
        e,
        same,
        forget_loop-pauses tries (backoff * 2) node
            (record s₁ { ops = sleep (backoff + host.random s₁.ops % 500) ∷ s₁.ops }),
      )

  reset_app-pauses :
      (c : Bytes) (s : Recovery)
      → ((reset_app host c s).0 ≡ returns tt) × (paused (reset_app host c s).1.ops ≡ paused s.ops)
  unfolding reset_app
  reset_app-pauses c s =
      let reset = bytes "rabbitmqctl" ∷ bytes "reset" ∷ [] in
      let (b₁, k₁) = exec-sleepless c reset s in
      let (r₁, e₁) = IsReturn-value _ b₁ in
      let s₁ = (exec_in_container host c reset s).1 in
      let (b₂, k₂) = exec-sleepless c (bytes "rabbitmqctl" ∷ bytes "start_app" ∷ []) s₁ in
      let (r₂, e₂) = IsReturn-value _ b₂ in ground (arith, e₁, k₁, e₂, k₂)

  reset_and_start-pauses :
      (c : Bytes) (s : Recovery)
      → ((reset_and_start host c s).0 ≡ returns tt)
        × (paused (reset_and_start host c s).1.ops ≤ paused s.ops + 5000)
  unfolding reset_and_start paused
  reset_and_start-pauses c s =
      let inspected = container_inspect c ∷ s.ops in
      ground (
        arith,
        reset_app-pauses c (record s { ops = inspected }),
        reset_app-pauses c (record s { ops = sleep 5000 ∷ container_start c ∷ inspected }),
      )

  recover_container-pauses :
      (node c : Bytes) (s : Recovery)
      → ((recover_container host node c s).0 ≡ returns tt)
        × (paused (recover_container host node c s).1.ops ≤ paused s.ops + 21996)
  unfolding recover_container paused
  recover_container-pauses node c s =
      let s₁ = record s { ops = container_stop c 10000 ∷ s.ops } in
      let (back, tries) = forget_loop-pauses 4 1000 node s₁ in
      let (r, e) = IsReturn-value _ back in
      ground (arith, e, tries, reset_and_start-pauses c (forget_loop host 4 1000 node s₁).1)

  -- A call of the older `triggerRecovery` returns, whatever Docker and the random source answer, and
  -- sleeps at most 21,996 milliseconds: the four back-offs of 1, 2, 4 and 8 seconds with up to 499
  -- milliseconds each, and the five seconds after a start.
  trigger_recovery-pauses :
      (node : Bytes) (s : Recovery)
      → ((trigger_recovery host node s).0 ≡ returns tt)
        × (paused (trigger_recovery host node s).1.ops ≤ paused s.ops + 21996)
  unfolding trigger_recovery
  trigger_recovery-pauses node s = ground (
    arith,
    recover_container-pauses node (extract_container node)
        (record s { forgotten = node ∷ s.forgotten }),
  )
