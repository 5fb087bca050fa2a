-- ===== src/Quorum/Older.antt =====
-- tester.go: the older monitor of the cluster, for three nodes with fixed names. It asks Docker and
-- the management API through functions of its own, in the operations of quorum_recovery/handler.go, and
-- of that monitor's state uses the calls and the nodes already handled.
pub mod Pauses
pub mod Names
pub mod GivenUp
use distributed_messaging_sy.Base.{
  ℕ, zero, suc, ◌+◌, ◌*◌, ◌%◌, Bool, true, false, ◌||◌, is_empty, bytes_eq, if◌then◌else◌, Bytes,
  bytes, List, [], ◌∷◌, ◌++◌, Option, ◌==◌, none, some, Outcome, gets, modify, pure, ◌>>=◌, ◌>>◌,
}
use distributed_messaging_sy.Quorum.Host.{
  Host, Node, Error, Act, operate, create, pause, container_stop, container_inspect,
  container_start, exec_create, exec_attach, exec_inspect, http_get,
}
use distributed_messaging_sy.Quorum.Trigger.{is_listed}
use distributed_messaging_sy.Quorum.Check.{not_running, not_live, dead_members}

-- `expectedNodes`
abbrev pub expected_nodes : List Bytes
expected_nodes = bytes "rabbit@rabbit1" ∷ bytes "rabbit@rabbit2" ∷ bytes "rabbit@rabbit3" ∷ []

-- `extractContainer`
unfoldable pub extract_container : Bytes → Bytes
extract_container node =
    if bytes_eq node (bytes "rabbit@rabbit1")
    then bytes "rabbit1"
    else if bytes_eq node (bytes "rabbit@rabbit2")
    then bytes "rabbit2"
    else if bytes_eq node (bytes "rabbit@rabbit3")
    then bytes "rabbit3"
    else []

-- The command that takes a node out of the cluster while it is down, run in rabbit1
abbrev pub forget_command : Bytes → List Bytes
forget_command node =
    bytes "rabbitmqctl" ∷ bytes "forget_cluster_node" ∷ node ∷ bytes "--offline" ∷ []

module _ (host : Host) where
  -- `execInContainer`: what the command wrote, and the error
  unfoldable pub exec_in_container : Bytes → List Bytes → Act (Bytes × Option Error)
  exec_in_container container cmd = do
    id ← create host (exec_create container cmd)
    elim id [
      | none ↦ pure ([], some (bytes "exec create"))
      | some i ↦ do
        refused ← operate host (exec_attach i)
        elim refused [
          | some e ↦ pure ([], some e)
          | none ↦ λ s.
              let out = host.output s.ops in
              let o = exec_inspect i in
              let s' = record s { ops = o ∷ s.ops } in
              elim (host.fails s.ops o) [
                | some e ↦ (Outcome.returns (out, some e), s')
                | none ↦ (
                  Outcome.returns
                      (out, if host.exit_code s.ops == 0 then none else some (bytes "exit code")),
                  s',
                )
              ]
        ]
    ]

  -- `httpRequest`: the body, or an error
  unfoldable pub http_request : Bytes → Bytes → Bytes → Act (Option Bytes)
  http_request url user pass s =
      let o = http_get url user pass in
      (
        Outcome.returns
            (elim (host.fails s.ops o) [ none ↦ some (host.page s.ops) | some _ ↦ none ]),
        record s { ops = o ∷ s.ops },
      )

  -- The tries of `forget_cluster_node`: `tries` more after this one, with the back-off in
  -- milliseconds. Whether one succeeded.
  unfoldable pub forget_loop : ℕ → ℕ → Bytes → Act Bool
  forget_loop zero backoff node = do
    out ← exec_in_container (bytes "rabbit1") (forget_command node)
    elim out.1 [ none ↦ pure true | some _ ↦ pure false ]
  forget_loop (suc tries) backoff node =
      let rest = forget_loop tries (backoff * 2) node in
      do
        out ← exec_in_container (bytes "rabbit1") (forget_command node)
        elim out.1 [
          | none ↦ pure true
          | some _ ↦ do
            jitter ← gets (λ s. host.random s.ops % 500)
            pause host (backoff + jitter)
            rest
        ]

  -- The last two commands; their errors are only logged.
  unfoldable pub reset_app : Bytes → Act (Unit {0})
  reset_app container = do
    _ ← exec_in_container container (bytes "rabbitmqctl" ∷ bytes "reset" ∷ [])
    _ ← exec_in_container container (bytes "rabbitmqctl" ∷ bytes "start_app" ∷ [])
    pure tt

  -- The inspection of the container, and its start where it does not run
  unfoldable pub reset_and_start : Bytes → Act (Unit {0})
  unfolding reset_app
  reset_and_start container = do
    refused ← operate host (container_inspect container)
    elim refused [
      | some _ ↦ pure tt
      | none ↦ do
        running ← gets (λ s. host.is_running s.ops)
        if running then reset_app container else (do
          err ← operate host (container_start container)
          elim err [ some _ ↦ pure tt | none ↦ do pause host 5000; reset_app container ])
    ]

  unfoldable pub recover_container : Bytes → Bytes → Act (Unit {0})
  unfolding forget_loop reset_and_start
  recover_container node container = do
    _ ← operate host (container_stop container 10000)
    done ← forget_loop 4 1000 node
    if done then reset_and_start container else pure tt

  -- `triggerRecovery`
  unfoldable pub trigger_recovery : Bytes → Act (Unit {0})
  unfolding recover_container
  trigger_recovery node = do
    known ← gets (λ s. is_listed node s.forgotten)
    if is_empty node || known then pure tt else (do
      modify (λ s. record s { forgotten = node ∷ s.forgotten })
      if is_empty (extract_container node)
          then pure tt
          else recover_container node (extract_container node))

  unfoldable pub trigger_each : List Bytes → Act (Unit {0})
  unfolding trigger_recovery
  trigger_each [] = pure tt
  trigger_each (n ∷ ns) = do trigger_recovery n; trigger_each ns

  -- The part of `checkQuorumStatus` on the queues
  unfoldable pub check_queues : Bytes → Bytes → Bytes → List Node → Act (Unit {0})
  check_queues url user pass live = do
    page ← http_request (url ++ bytes "/api/queues") user pass
    elim page [
      | none ↦ pure tt
      | some p ↦ elim (host.decode_queues p) [
        | none ↦ pure tt
        | some queues ↦ trigger_each (dead_members live queues)
      ]
    ]

  -- `checkQuorumStatus`; the loop over the nodes triggers as it fills the map, which no trigger reads.
  unfoldable pub check_quorum_status : Bytes → Bytes → Bytes → Act (Unit {0})
  unfolding check_queues
  check_quorum_status url user pass = do
    page ← http_request (url ++ bytes "/api/nodes") user pass
    elim page [
      | none ↦ pure tt
      | some p ↦ elim (host.decode_nodes p) [
        | none ↦ pure tt
        | some live ↦ do
          trigger_each (not_running live)
          trigger_each (not_live live expected_nodes)
          check_queues url user pass live
      ]
    ]

  -- The first `n` rounds of the loop of `StartQuorumMonitor`
  unfoldable pub quorum_monitor : ℕ → Bytes → Bytes → Bytes → Act (Unit {0})
  unfolding check_quorum_status
  quorum_monitor zero url user pass = pure tt
  quorum_monitor (suc n) url user pass = do
    check_quorum_status url user pass
    pause host 10000
    quorum_monitor n url user pass
