-- ===== src/Quorum/Trigger.antt =====
-- quorum_recovery/handler.go: `triggerRecovery`, which takes a dead node out of the cluster and starts
-- another. The handler of panics at its head has nothing to catch in the model.
use distributed_messaging_sy.Base.{
  ℕ, zero, suc, ◌+◌, ◌-◌, ◌*◌, ◌%◌, Bool, true, false, ◌||◌, is_empty, bytes_eq, if◌then◌else◌,
  Bytes, bytes, List, [], ◌∷◌, ◌++◌, none, some, gets, modify, pure, ◌>>=◌, ◌>>◌,
}
use distributed_messaging_sy.Quorum.Nodes.{extract_container}
use distributed_messaging_sy.Quorum.Host.{
  now_ms, Host, Act, operate, pause, exec_in_container, count_failed, container_stop,
  container_remove, volume_remove,
}
use distributed_messaging_sy.Quorum.Replacement.{replace}

-- A name stands in a list: `forgotten[node]`, and the inner loop over the expected nodes.
unfoldable pub is_listed : Bytes → List Bytes → Bool
is_listed node [] = false
is_listed node (n ∷ ns) = if bytes_eq n node then true else is_listed node ns

-- The command that takes a node out of the cluster, run in rabbit1
abbrev pub forget_command : Bytes → List Bytes
forget_command node =
    bytes "rabbitmqctl"
    ∷ bytes "--node"
    ∷ bytes "rabbit@rabbit1"
    ∷ bytes "forget_cluster_node"
    ∷ node
    ∷ []

module _ (host : Host) where
  -- A node with no container
  unfoldable pub forget_and_replace : Bytes → Act (Unit {0})
  forget_and_replace node = do
    out ← exec_in_container host (bytes "rabbit1") (forget_command node)
    elim out.1 [ some _ ↦ count_failed host | none ↦ pure tt ]
    replace host 10000

  -- The tries of `forget_cluster_node`: `tries` more after this one, with the back-off in
  -- milliseconds. Whether one succeeded; after the last failure a replacement is created.
  unfoldable pub forget_loop : ℕ → ℕ → Bytes → Act Bool
  forget_loop zero backoff node = do
    out ← exec_in_container host (bytes "rabbit1") (forget_command node)
    elim out.1 [ none ↦ pure true | some _ ↦ do count_failed host; replace host 10000; pure false ]
  forget_loop (suc tries) backoff node =
      let rest = forget_loop tries (backoff * 2) node in
      do
        out ← exec_in_container host (bytes "rabbit1") (forget_command node)
        elim out.1 [
          | none ↦ pure true
          | some _ ↦ do
            jitter ← gets (λ s. host.random s.ops % 500)
            pause host (backoff + jitter)
            rest
        ]

  -- The removal of the old container and of its volume, and the new node
  unfoldable pub remove_and_replace : Bytes → Act (Unit {0})
  remove_and_replace container = do
    _ ← operate host (container_remove container true true)
    _ ← operate host (volume_remove (container ++ bytes "-data") true)
    replace host 1000

  -- A node with a container
  unfoldable pub recover_container : Bytes → Bytes → Act (Unit {0})
  recover_container node container = do
    _ ← operate host (container_stop container 10000)
    done ← forget_loop 4 1000 node
    if done then remove_and_replace container else pure tt

  -- What follows the test of the guard
  unfoldable pub recover : Bytes → Act (Unit {0})
  recover node = do
    modify (λ s. record s { forgotten = node ∷ s.forgotten })
    if is_empty (extract_container node)
        then forget_and_replace node
        else recover_container node (extract_container node)

  abbrev count_trigger : Act (Unit {0})
  count_trigger = modify (λ s. record s {
    metrics = record (s.metrics) {
      quorum_recoveries_total = s.metrics.quorum_recoveries_total + 1;
    };
  })

  -- The deferred observation, kept in milliseconds where the source has fractions of a second
  abbrev observe_duration : ℕ → Act (Unit {0})
  observe_duration start = modify (λ s. record s {
    metrics = record (s.metrics) {
      quorum_recovery_duration = (now_ms host s.ops - start) ∷ s.metrics.quorum_recovery_duration;
    };
  })

  -- `triggerRecovery`
  unfoldable pub trigger_recovery : Bytes → Act (Unit {0})
  trigger_recovery node = do
    start ← gets (λ s. now_ms host s.ops)
    count_trigger
    known ← gets (λ s. is_listed node s.forgotten)
    if is_empty node || known then pure tt else recover node
    observe_duration start

  unfoldable pub trigger_each : List Bytes → Act (Unit {0})
  trigger_each [] = pure tt
  trigger_each (n ∷ ns) = do trigger_recovery n; trigger_each ns
