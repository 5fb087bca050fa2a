-- ===== src/Quorum/Replacement.antt =====
-- quorum_recovery/handler.go: `addTestNode`, which starts a node in a new container.
use distributed_messaging_sy.Base.{
  ℕ, zero, suc, ◌+◌, ◌%◌, Bool, false, not, is_empty, ltb, if◌then◌else◌, Bytes, bytes, [], ◌∷◌,
  Option, none, some, gets, panic, pure, ◌>>=◌, ◌>>◌,
}
use distributed_messaging_sy.Quorum.Nodes.{node_of, recovery_container}
use distributed_messaging_sy.Quorum.Host.{
  now_ms, Host, Error, Act, operate, pause, create, exec_in_container, container_create,
  container_start,
}

-- `err == nil && string(out) != ""`
abbrev pub is_ready : Bytes × Option Error → Bool
is_ready (out, none) = not (is_empty out)
is_ready (out, some _) = false

-- What the wait for a node ends with; `unfinished` is said where the fuel is used up, which is never
-- (Quorum.Waiting).
pub data Waited : Type 0 where
  ready timed_out unfinished : Waited

-- The wait lasts 90 seconds, in rounds of three.
abbrev pub wait_fuel : ℕ
wait_fuel = 32

module _ (host : Host) where
  -- The endless `for` of `addTestNode`, with fuel
  unfoldable pub wait_ready : ℕ → ℕ → Bytes → Act Waited
  wait_ready zero deadline container = pure unfinished
  wait_ready (suc fuel) deadline container =
      let rest = wait_ready fuel deadline container in
      do
        late ← gets (λ s. ltb deadline (now_ms host s.ops))
        if late then pure timed_out else (do
          status ← exec_in_container host container (bytes "rabbitmqctl" ∷ bytes "status" ∷ [])
          if is_ready status then pure ready else (do pause host 3000; rest))

  -- The rest of `addTestNode`, after the node is ready
  unfoldable pub join_cluster : Bytes → Bytes → Act (Option Error)
  join_cluster container node = do
    stopped ←
        exec_in_container host container
          (bytes "rabbitmqctl" ∷ bytes "-n" ∷ node ∷ bytes "stop_app" ∷ [])
    elim stopped.1 [
      | some e ↦ pure (some e)
      | none ↦ do
        joined ←
            exec_in_container host container
              (bytes "rabbitmqctl" ∷ bytes "join_cluster" ∷ bytes "rabbit@rabbit1" ∷ [])
        elim joined.1 [
          | some e ↦ pure (some e)
          | none ↦ do
            started ←
                exec_in_container host container (bytes "rabbitmqctl" ∷ bytes "start_app" ∷ [])
            pure started.1
        ]
    ]

  abbrev pub after_wait : Bytes → Bytes → Waited → Act (Option Error)
  after_wait container node ready = join_cluster container node
  after_wait container node timed_out = pure (some (bytes "rabbitmq not ready"))
  after_wait container node unfinished = panic

  unfoldable pub add_test_node : Bytes → Bytes → Bytes → Bytes → Bytes → Act (Option Error)
  add_test_node container node cookie user pass = do
    id ← create host (container_create container node cookie user pass)
    elim id [
      | none ↦ pure (some (bytes "create"))
      | some i ↦ do
        refused ← operate host (container_start i)
        elim refused [
          | some e ↦ pure (some e)
          | none ↦ do
            pause host 10000
            deadline ← gets (λ s. now_ms host s.ops + 90000)
            waited ← wait_ready wait_fuel deadline container
            after_wait container node waited
        ]
    ]

  -- The three places that create a replacement, with an identifier below a bound; the error is only
  -- logged.
  unfoldable pub replace : ℕ → Act (Unit {0})
  replace bound = do
    id ← gets (λ s. host.random s.ops % bound)
    _ ←
        add_test_node (recovery_container id) (node_of (recovery_container id))
          (bytes "secretcookie") (bytes "guest") (bytes "guest")
    pure tt
