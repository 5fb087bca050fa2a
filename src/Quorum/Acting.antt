-- ===== src/Quorum/Acting.antt =====
-- quorum_recovery/handler.go: the operations of a replacement, counted: creations, stops, and commands
-- that forget a node.
use distributed_messaging_sy.Base.{
  ℕ, zero, suc, ◌+◌, ◌%◌, ◌≤◌, ◌<◌, ◌≡◌, ◌⊎◌, inl, inr, refl, Bool, true, false, ◌&&◌,
  if◌then◌else◌, bytes_eq, bytes_eq_refl, Bytes, bytes, List, [], ◌∷◌, arith, IsReturn-value,
}
use distributed_messaging_sy.Quorum.Host.{
  now_ms, Host, Op, Recovery, exec_in_container, sleep, container_create, container_start,
  container_stop, exec_create,
}
use distributed_messaging_sy.Quorum.Replacement.{
  Waited, ready, timed_out, after_wait, wait_fuel, wait_ready, join_cluster, add_test_node, replace,
}
use distributed_messaging_sy.Quorum.Nodes.{node_of, recovery_container}
use distributed_messaging_sy.Quorum.Trigger.{forget_command}
use distributed_messaging_sy.Quorum.Kept.{exec-Kept, wait_ready-value, add_test_node-Kept}

unfoldable pub words_eq : List Bytes → List Bytes → Bool
words_eq [] [] = true
words_eq [] (_ ∷ _) = false
words_eq (_ ∷ _) [] = false
words_eq (v ∷ vs) (w ∷ ws) = bytes_eq v w && words_eq vs ws

words_eq_refl : (ws : List Bytes) → words_eq ws ws ≡ true
unfolding words_eq
words_eq_refl [] = refl
words_eq_refl (w ∷ ws) = ground (arith, bytes_eq_refl w, words_eq_refl ws)

-- How many containers were created
unfoldable pub creates : List Op → ℕ
creates [] = 0
creates (container_create _ _ _ _ _ ∷ ops) = 1 + creates ops
creates (_ ∷ ops) = creates ops

-- How often a container was stopped
unfoldable pub stops : Bytes → List Op → ℕ
stops c [] = 0
stops c (container_stop k _ ∷ ops) = (if bytes_eq k c then 1 else 0) + stops c ops
stops c (_ ∷ ops) = stops c ops

-- `rabbitmqctl --node rabbit@rabbit1 forget_cluster_node n`
abbrev forgetting : Bytes → List Bytes
forgetting n =
    bytes "rabbitmqctl"
    ∷ bytes "--node"
    ∷ bytes "rabbit@rabbit1"
    ∷ bytes "forget_cluster_node"
    ∷ n
    ∷ []

-- How often the command that forgets a node was run in rabbit1
unfoldable pub forgets : Bytes → List Op → ℕ
forgets n [] = 0
forgets n (exec_create c cmd ∷ ops) =
    (if bytes_eq c (bytes "rabbit1") && words_eq cmd (forgetting n) then 1 else 0) + forgets n ops
forgets n (_ ∷ ops) = forgets n ops

-- So many containers were created, and no stop and no forget command of the observed ones was lost.
pub record Acts (n c : Bytes) (created : ℕ) (s t : Recovery) : Type 0 where
  pub creating : creates t.ops ≡ creates s.ops + created
  pub stopping : stops c s.ops ≤ stops c t.ops
  pub forgetting : forgets n s.ops ≤ forgets n t.ops

module _ (host : Host) (n k : Bytes) where
  pub exec-Acts :
      (c : Bytes) (cmd : List Bytes) (s : Recovery)
      → Acts n k 0 s (exec_in_container host c cmd s).1
  unfolding exec_in_container creates stops forgets
  exec-Acts c cmd s = ground arith

  pub exec-forgets :
      (s : Recovery)
      → forgets n s.ops
        < forgets n (exec_in_container host (bytes "rabbit1") (forget_command n) s).1.ops
  unfolding exec_in_container forgets
  exec-forgets s = ground (arith, bytes_eq_refl (bytes "rabbit1"), words_eq_refl (forget_command n))

  wait_ready-Acts :
      (fuel deadline : ℕ) (c : Bytes) (s : Recovery)
      → Acts n k 0 s (wait_ready host fuel deadline c s).1
  unfolding wait_ready creates stops forgets
  wait_ready-Acts zero deadline c s = ground arith
  wait_ready-Acts (suc fuel) deadline c s =
      let cmd = bytes "rabbitmqctl" ∷ bytes "status" ∷ [] in
      let (r, e) = IsReturn-value _ (exec-Kept host c cmd s).0 in
      let s₁ = (exec_in_container host c cmd s).1 in
      ground (
        arith,
        e,
        exec-Acts c cmd s,
        wait_ready-Acts fuel deadline c (record s₁ { ops = sleep 3000 ∷ s₁.ops }),
      )

  join_cluster-Acts : (c node : Bytes) (s : Recovery) → Acts n k 0 s (join_cluster host c node s).1
  unfolding join_cluster
  join_cluster-Acts c node s =
      let stop = bytes "rabbitmqctl" ∷ bytes "-n" ∷ node ∷ bytes "stop_app" ∷ [] in
      let join = bytes "rabbitmqctl" ∷ bytes "join_cluster" ∷ bytes "rabbit@rabbit1" ∷ [] in
      let start = bytes "rabbitmqctl" ∷ bytes "start_app" ∷ [] in
      let (r₁, e₁) = IsReturn-value _ (exec-Kept host c stop s).0 in
      let s₁ = (exec_in_container host c stop s).1 in
      let (r₂, e₂) = IsReturn-value _ (exec-Kept host c join s₁).0 in
      let s₂ = (exec_in_container host c join s₁).1 in
      let (r₃, e₃) = IsReturn-value _ (exec-Kept host c start s₂).0 in
      ground (arith, e₁, e₂, e₃, exec-Acts c stop s, exec-Acts c join s₁, exec-Acts c start s₂)

  after_wait-Acts :
      (c node : Bytes) (w : Waited) (s : Recovery)
      → (w ≡ ready) ⊎ (w ≡ timed_out)
      → Acts n k 0 s (after_wait host c node w s).1
  after_wait-Acts c node w s (inl e) = rw e (join_cluster-Acts c node s)
  after_wait-Acts c node w s (inr e) = rw e (ground arith)

  add_test_node-Acts :
      (c node cookie user pass : Bytes) (s : Recovery)
      → Acts n k 1 s (add_test_node host c node cookie user pass s).1
  unfolding add_test_node creates stops forgets
  add_test_node-Acts c node cookie user pass s =
      let o = container_create c node cookie user pass in
      let s₁ = record s { ops = sleep 10000 ∷ container_start (host.new_id s.ops) ∷ o ∷ s.ops } in
      let deadline = now_ms host s₁.ops + 90000 in
      let (w, e, ends) = wait_ready-value host c s₁ in
      let s₂ = (wait_ready host wait_fuel deadline c s₁).1 in
      ground (arith, e, wait_ready-Acts wait_fuel deadline c s₁, after_wait-Acts c node w s₂ ends)

  pub replace-Acts : (bound : ℕ) (s : Recovery) → Acts n k 1 s (replace host bound s).1
  unfolding replace
  replace-Acts bound s =
      let c = recovery_container (host.random s.ops % bound) in
      let (back, _) =
        add_test_node-Kept host c (node_of c) (bytes "secretcookie") (bytes "guest") (bytes "guest")
          s in
      let (r, e) = IsReturn-value _ back in
      ground (
        arith,
        e,
        add_test_node-Acts c (node_of c) (bytes "secretcookie") (bytes "guest") (bytes "guest") s,
      )
