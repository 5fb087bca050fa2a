-- ===== src/Quorum/Check.antt =====
-- quorum_recovery/handler.go: the rounds of the monitor, `updateExpectedNodes` and
-- `checkQuorumStatus`.
use distributed_messaging_sy.Base.{
  ℕ, zero, suc, Bool, false, not, ◌&&◌, has_prefix, bytes_eq, if◌then◌else◌, Bytes, bytes, List, [],
  ◌∷◌, ◌++◌, Option, none, some, Outcome, gets, pure, ◌>>=◌, ◌>>◌,
}
use distributed_messaging_sy.Quorum.Nodes.{expected_of}
use distributed_messaging_sy.Quorum.Host.{
  Host, Node, Queue, Act, pause, http_request, container_list,
}
use distributed_messaging_sy.Quorum.Trigger.{trigger_each, is_listed}

-- The first name of each container; `none` is the panic at a container with no name.
unfoldable pub first_names : List (List Bytes) → Option (List Bytes)
first_names [] = some []
first_names ([] ∷ cs) = none
first_names ((n ∷ _) ∷ cs) = elim (first_names cs) [ none ↦ none | some ns ↦ some (n ∷ ns) ]

-- `live[name]` of the map that `live[n.Name] = n.Running` fills in the order of the list, over what
-- stood there before
unfoldable pub live_from : Bool → List Node → Bytes → Bool
live_from old [] name = old
live_from old (n ∷ ns) name = live_from (if bytes_eq n.name name then n.running else old) ns name

abbrev pub is_live : List Node → Bytes → Bool
is_live = live_from false

-- The nodes that stand in the list as not running, in order
unfoldable pub not_running : List Node → List Bytes
not_running [] = []
not_running (n ∷ ns) = let rest = not_running ns in if n.running then rest else n.name ∷ rest

-- Those of some names that are not live, in order
unfoldable pub not_live : List Node → List Bytes → List Bytes
not_live live [] = []
not_live live (n ∷ ns) = let rest = not_live live ns in if is_live live n then rest else n ∷ rest

-- The recovery nodes that were expected before and are not expected now
unfoldable pub vanished : List Bytes → List Bytes → List Bytes
unfolding is_listed
vanished expected [] = []
vanished expected (old ∷ olds) =
    let rest = vanished expected olds in
    if not (is_listed old expected) && has_prefix old (bytes "rabbit@rabbit-recover")
    then old ∷ rest
    else rest

abbrev leader_of : List Node → Queue → List Bytes
leader_of live q = elim q.members [ [] ↦ not_live live (q.leader ∷ []) | _ ∷ _ ↦ [] ]

-- The dead nodes of the quorum queues, in order
unfoldable pub dead_members : List Node → List Queue → List Bytes
dead_members live [] = []
dead_members live (q ∷ qs) =
    let rest = dead_members live qs in
    if bytes_eq q.type (bytes "quorum")
    then leader_of live q ++ not_live live q.members ++ rest
    else rest

module _ (host : Host) where
  -- `updateExpectedNodes`
  unfoldable pub update_expected_nodes : Act (Unit {0})
  update_expected_nodes s =
      let s' = record s { ops = container_list ∷ s.ops; previous = s.expected; expected = [] } in
      elim (host.fails s.ops container_list) [
        | some _ ↦ (Outcome.returns tt, s')
        | none ↦ elim (first_names (host.names s.ops)) [
          | none ↦ (Outcome.panics, s')
          | some ns ↦ (Outcome.returns tt, record s' { expected = expected_of ns })
        ]
      ]

  -- The loop over the nodes, with the triggers as they come, then the two loops over the expected
  -- nodes. A trigger changes none of the lists that the loops read.
  unfoldable pub check_nodes : List Node → Act (Unit {0})
  check_nodes live = do
    trigger_each host (not_running live)
    expected ← gets (λ s. s.expected)
    trigger_each host (not_live live expected)
    previous ← gets (λ s. s.previous)
    trigger_each host (vanished expected previous)

  -- The part of `checkQuorumStatus` on the queues
  unfoldable pub check_queues : Bytes → Bytes → Bytes → List Node → Act (Unit {0})
  check_queues url user pass live = do
    page ← http_request host (url ++ bytes "/api/queues") user pass
    elim page [
      | none ↦ pure tt
      | some p ↦ elim (host.decode_queues p) [
        | none ↦ pure tt
        | some queues ↦ trigger_each host (dead_members live queues)
      ]
    ]

  -- `checkQuorumStatus`
  unfoldable pub check_quorum_status : Bytes → Bytes → Bytes → Act (Unit {0})
  check_quorum_status url user pass = do
    page ← http_request host (url ++ bytes "/api/nodes") user pass
    elim page [
      | none ↦ pure tt
      | some p ↦ elim (host.decode_nodes p) [
        | none ↦ pure tt
        | some live ↦ do check_nodes live; check_queues url user pass live
      ]
    ]

  -- The first `n` rounds of the loop of `StartQuorumMonitor`
  unfoldable pub quorum_monitor : ℕ → Bytes → Bytes → Bytes → Act (Unit {0})
  quorum_monitor zero url user pass = pure tt
  quorum_monitor (suc n) url user pass = do
    update_expected_nodes
    check_quorum_status url user pass
    pause host 10000
    quorum_monitor n url user pass
