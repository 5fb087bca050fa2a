-- ===== src/Quorum/Kept.antt =====
-- quorum_recovery/handler.go: what the steps of a recovery leave alone.
use distributed_messaging_sy.Base.{
  ℕ, zero, suc, ◌+◌, ◌*◌, ◌%◌, ◌++◌, ◌≡◌, ◌⊎◌, inl, inr, refl, true, Bytes, bytes, List, [], ◌∷◌,
  arith, returns, IsReturn, IsReturn-value,
}
use distributed_messaging_sy.Quorum.Host.{
  now_ms, Host, Recovery, exec_in_container, sleep, container_create, container_start,
  container_stop, container_remove, volume_remove,
}
use distributed_messaging_sy.Quorum.Replacement.{
  Waited, ready, timed_out, after_wait, wait_fuel, wait_ready, join_cluster, add_test_node, replace,
}
use distributed_messaging_sy.Quorum.Waiting.{wait_ready-finishes}
use distributed_messaging_sy.Quorum.Nodes.{node_of, recovery_container, extract_container}
use distributed_messaging_sy.Quorum.Trigger.{
  forget_command, forget_and_replace, forget_loop, remove_and_replace, recover_container, recover,
}

-- What the helpers of the recovery leave alone
pub record Kept (s t : Recovery) : Type 0 where
  pub forgotten : t.forgotten ≡ s.forgotten
  pub expected : t.expected ≡ s.expected
  pub previous : t.previous ≡ s.previous
  pub total : t.metrics.quorum_recoveries_total ≡ s.metrics.quorum_recoveries_total
  pub durations : t.metrics.quorum_recovery_duration ≡ s.metrics.quorum_recovery_duration

module _ (host : Host) where
  pub exec-Kept :
      (c : Bytes) (cmd : List Bytes) (s : Recovery)
      → IsReturn (exec_in_container host c cmd s).0 × Kept s (exec_in_container host c cmd s).1
  unfolding exec_in_container
  exec-Kept c cmd s = ground arith

  pub wait_ready-Kept :
      (fuel deadline : ℕ) (c : Bytes) (s : Recovery)
      → IsReturn (wait_ready host fuel deadline c s).0
        × Kept s (wait_ready host fuel deadline c s).1
  unfolding wait_ready
  wait_ready-Kept zero deadline c s = ground arith
  wait_ready-Kept (suc fuel) deadline c s =
      let cmd = bytes "rabbitmqctl" ∷ bytes "status" ∷ [] in
      let (back, kept) = exec-Kept c cmd s in
      let (r, e) = IsReturn-value _ back in
      let s₁ = (exec_in_container host c cmd s).1 in
      ground
        (arith, e, kept, wait_ready-Kept fuel deadline c (record s₁ { ops = sleep 3000 ∷ s₁.ops }))

  pub join_cluster-Kept :
      (c node : Bytes) (s : Recovery)
      → IsReturn (join_cluster host c node s).0 × Kept s (join_cluster host c node s).1
  unfolding join_cluster
  join_cluster-Kept c node s =
      let stop = bytes "rabbitmqctl" ∷ bytes "-n" ∷ node ∷ bytes "stop_app" ∷ [] in
      let join = bytes "rabbitmqctl" ∷ bytes "join_cluster" ∷ bytes "rabbit@rabbit1" ∷ [] in
      let (b₁, k₁) = exec-Kept c stop s in
      let (r₁, e₁) = IsReturn-value _ b₁ in
      let s₁ = (exec_in_container host c stop s).1 in
      let (b₂, k₂) = exec-Kept c join s₁ in
      let (r₂, e₂) = IsReturn-value _ b₂ in
      let s₂ = (exec_in_container host c join s₁).1 in
      let (b₃, k₃) = exec-Kept c (bytes "rabbitmqctl" ∷ bytes "start_app" ∷ []) s₂ in
      let (r₃, e₃) = IsReturn-value _ b₃ in ground (arith, k₁, e₁, k₂, e₂, k₃, e₃)

  after_wait-Kept :
      (c node : Bytes) (w : Waited) (s : Recovery)
      → (w ≡ ready) ⊎ (w ≡ timed_out)
      → IsReturn (after_wait host c node w s).0 × Kept s (after_wait host c node w s).1
  after_wait-Kept c node w s (inl e) = rw e (join_cluster-Kept c node s)
  after_wait-Kept c node w s (inr e) = rw e (ground arith)

  -- What the wait returns, which is never that the fuel is used up
  pub wait_ready-value :
      (c : Bytes) (s : Recovery)
      → let r = wait_ready host wait_fuel (now_ms host s.ops + 90000) c s in
        (w : Waited) × (r.0 ≡ returns w) × ((w ≡ ready) ⊎ (w ≡ timed_out))
  wait_ready-value c s = elim (wait_ready-finishes host c s) [
    | inl found ↦ (ready, found.outcome, inl refl)
    | inr late ↦ (timed_out, late.outcome, inr refl)
  ]

  pub add_test_node-Kept :
      (c node cookie user pass : Bytes) (s : Recovery)
      → IsReturn (add_test_node host c node cookie user pass s).0
        × Kept s (add_test_node host c node cookie user pass s).1
  unfolding add_test_node
  add_test_node-Kept c node cookie user pass s =
      let o = container_create c node cookie user pass in
      let s₁ = record s { ops = sleep 10000 ∷ container_start (host.new_id s.ops) ∷ o ∷ s.ops } in
      let deadline = now_ms host s₁.ops + 90000 in
      let (_, kept) = wait_ready-Kept wait_fuel deadline c s₁ in
      let (w, e, ends) = wait_ready-value c s₁ in
      let s₂ = (wait_ready host wait_fuel deadline c s₁).1 in
      ground (arith, kept, e, after_wait-Kept c node w s₂ ends)

  pub replace-Kept :
      (bound : ℕ) (s : Recovery)
      → ((replace host bound s).0 ≡ returns tt) × Kept s (replace host bound s).1
  unfolding replace
  replace-Kept bound s =
      let c = recovery_container (host.random s.ops % bound) in
      let (back, kept) =
        add_test_node-Kept c (node_of c) (bytes "secretcookie") (bytes "guest") (bytes "guest") s in
      let (r, e) = IsReturn-value _ back in ground (arith, e, kept)

  pub forget_loop-Kept :
      (tries backoff : ℕ) (node : Bytes) (s : Recovery)
      → IsReturn (forget_loop host tries backoff node s).0
        × Kept s (forget_loop host tries backoff node s).1
  unfolding forget_loop
  forget_loop-Kept zero backoff node s =
      let (back, kept) = exec-Kept (bytes "rabbit1") (forget_command node) s in
      let (r, e) = IsReturn-value _ back in
      let s₁ = (exec_in_container host (bytes "rabbit1") (forget_command node) s).1 in
      ground (
        arith,
        e,
        kept,
        replace-Kept 10000 (record s₁ {
          metrics = record (s₁.metrics) {
            quorum_recoveries_failed = s₁.metrics.quorum_recoveries_failed + 1;
          };
        }),
      )
  forget_loop-Kept (suc tries) backoff node s =
      let (back, kept) = exec-Kept (bytes "rabbit1") (forget_command node) s in
      let (r, e) = IsReturn-value _ back in
      let s₁ = (exec_in_container host (bytes "rabbit1") (forget_command node) s).1 in
      ground (
        arith,
        e,
        kept,
        forget_loop-Kept tries (backoff * 2) node
            (record s₁ { ops = sleep (backoff + host.random s₁.ops % 500) ∷ s₁.ops }),
      )

  pub remove_and_replace-Kept :
      (c : Bytes) (s : Recovery)
      → ((remove_and_replace host c s).0 ≡ returns tt) × Kept s (remove_and_replace host c s).1
  unfolding remove_and_replace
  remove_and_replace-Kept c s =
      let s₁ = record s {
        ops = volume_remove (c ++ bytes "-data") true ∷ container_remove c true true ∷ s.ops;
      } in
      ground (arith, replace-Kept 1000 s₁)

  pub recover_container-Kept :
      (node c : Bytes) (s : Recovery)
      → ((recover_container host node c s).0 ≡ returns tt)
        × Kept s (recover_container host node c s).1
  unfolding recover_container
  recover_container-Kept node c s =
      let s₁ = record s { ops = container_stop c 10000 ∷ s.ops } in
      let (back, kept) = forget_loop-Kept 4 1000 node s₁ in
      let (r, e) = IsReturn-value _ back in
      ground (arith, e, kept, remove_and_replace-Kept c (forget_loop host 4 1000 node s₁).1)

  pub forget_and_replace-Kept :
      (node : Bytes) (s : Recovery)
      → ((forget_and_replace host node s).0 ≡ returns tt)
        × Kept s (forget_and_replace host node s).1
  unfolding forget_and_replace
  forget_and_replace-Kept node s =
      let (back, kept) = exec-Kept (bytes "rabbit1") (forget_command node) s in
      let (r, e) = IsReturn-value _ back in
      let s₁ = (exec_in_container host (bytes "rabbit1") (forget_command node) s).1 in
      ground (
        arith,
        e,
        kept,
        replace-Kept 10000 s₁,
        replace-Kept 10000 (record s₁ {
          metrics = record (s₁.metrics) {
            quorum_recoveries_failed = s₁.metrics.quorum_recoveries_failed + 1;
          };
        }),
      )

  pub recover-Kept :
      (node : Bytes) (s : Recovery)
      → ((recover host node s).0 ≡ returns tt)
        × Kept (record s { forgotten = node ∷ s.forgotten }) (recover host node s).1
  unfolding recover
  recover-Kept node s =
      let s₁ = record s { forgotten = node ∷ s.forgotten } in
      ground (
        arith,
        forget_and_replace-Kept node s₁,
        recover_container-Kept node (extract_container node) s₁,
      )
