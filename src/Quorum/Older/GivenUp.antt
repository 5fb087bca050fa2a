-- ===== src/Quorum/Older/GivenUp.antt =====
-- tester.go: a node that the older monitor cannot forget stays down.
use distributed_messaging_sy.Base.{
  ◌>>◌, ◌∙◌, sym, refl, ℕ, zero, suc, ◌+◌, ◌*◌, ◌%◌, ◌≡◌, ◌≢◌, true, false, bytes_eq, bytes_eq_refl,
  if◌then◌else◌, Bytes, bytes, List, [], ◌∷◌, ◌++◌, some, none, arith, returns, Option,
}
use distributed_messaging_sy.Quorum.Host.{
  Host, Op, Error, Node, Queue, Recovery, sleep, exec_create, container_stop, container_start,
  http_get,
}
use distributed_messaging_sy.Quorum.Trigger.{is_listed}
use distributed_messaging_sy.Quorum.Check.{not_running, not_live, dead_members}
use distributed_messaging_sy.Quorum.Older.{
  exec_in_container, http_request, forget_command, forget_loop, recover_container, trigger_recovery,
  trigger_each, check_queues, check_quorum_status, quorum_monitor, expected_nodes,
  extract_container,
}

-- How often a container was started, and how often one was stopped
unfoldable pub starts : List Op → ℕ
starts [] = 0
starts (container_start _ ∷ ops) = suc (starts ops)
starts (_ ∷ ops) = starts ops

unfoldable pub stops : Bytes → List Op → ℕ
stops c [] = 0
stops c (container_stop d _ ∷ ops) = (if bytes_eq d c then 1 else 0) + stops c ops
stops c (_ ∷ ops) = stops c ops

-- No command can be run in rabbit1.
abbrev pub Blocked : Host → Type 0
Blocked host =
    (h : List Op) (cmd : List Bytes)
    → (e : Error) × (host.fails h (exec_create (bytes "rabbit1") cmd) ≡ some e)

module _ (host : Host) (blocked : Blocked host) where
  exec-blocked :
      (cmd : List Bytes) (s : Recovery)
      → (e : Error) × (exec_in_container host (bytes "rabbit1") cmd s
          ≡ (returns ([], some e), record s { ops = exec_create (bytes "rabbit1") cmd ∷ s.ops }))
  unfolding exec_in_container
  exec-blocked cmd s = (bytes "exec create", ground (arith, blocked s.ops cmd))

  forget_loop-fails :
      (tries backoff : ℕ) (node c : Bytes) (s : Recovery)
      → let after = forget_loop host tries backoff node s in
        (after.0 ≡ returns false)
        × (starts after.1.ops ≡ starts s.ops)
        × (stops c after.1.ops ≡ stops c s.ops)
        × (after.1.forgotten ≡ s.forgotten)
  unfolding forget_loop starts stops
  forget_loop-fails zero backoff node c s = ground (arith, exec-blocked (forget_command node) s)
  forget_loop-fails (suc tries) backoff node c s =
      let h = exec_create (bytes "rabbit1") (forget_command node) ∷ s.ops in
      ground (
        arith,
        exec-blocked (forget_command node) s,
        forget_loop-fails tries (backoff * 2) node c
            (record s { ops = sleep (backoff + host.random h % 500) ∷ h }),
      )

  recover_container-fails :
      (node c d : Bytes) (s : Recovery)
      → let after = recover_container host node c s in
        (after.0 ≡ returns tt)
        × (starts after.1.ops ≡ starts s.ops)
        × (stops d after.1.ops ≡ (if bytes_eq c d then 1 else 0) + stops d s.ops)
        × (after.1.forgotten ≡ s.forgotten)
  unfolding recover_container starts stops
  recover_container-fails node c d s =
      ground
        (arith, forget_loop-fails 4 1000 node d (record s { ops = container_stop c 10000 ∷ s.ops }))

  -- What any run comes to that starts no container and drops no node from those handled
  record Started (s t : Recovery) : Type 0 where
    none_more : starts t.ops ≡ starts s.ops
    keeps : (n : Bytes) → is_listed n s.forgotten ≡ true → is_listed n t.forgotten ≡ true

  trigger-Started :
      (node : Bytes) (s : Recovery)
      → ((trigger_recovery host node s).0 ≡ returns tt) × Started s (trigger_recovery host node s).1
  unfolding trigger_recovery is_listed
  trigger-Started node s = ground (
    arith,
    recover_container-fails node (extract_container node) []
        (record s { forgotten = node ∷ s.forgotten }),
  )

  each-Started :
      (nodes : List Bytes) (s : Recovery)
      → ((trigger_each host nodes s).0 ≡ returns tt) × Started s (trigger_each host nodes s).1
  unfolding trigger_each
  each-Started [] s = ground arith
  each-Started (node ∷ nodes) s =
      let s₁ = (trigger_recovery host node s).1 in
      ground (arith, trigger-Started node s, each-Started nodes s₁)

  queues_lem :
      (url user pass : Bytes) (live : List Node) (s : Recovery) (o : Option (List Queue))
      → host.decode_queues (host.page s.ops) ≡ o
      → let after = check_queues host url user pass live s in
        (after.0 ≡ returns tt) × Started s after.1
  unfolding check_queues http_request starts
  queues_lem url user pass live s none e = ground (arith, e)
  queues_lem url user pass live s (some queues) e =
      let page = http_get (url ++ bytes "/api/queues") user pass in
      ground (arith, e, each-Started (dead_members live queues) (record s { ops = page ∷ s.ops }))

  decoded-Started :
      (url user pass : Bytes) (live : List Node) (s : Recovery)
      → let after =
          (do
            trigger_each host (not_running live)
            trigger_each host (not_live live expected_nodes)
            check_queues host url user pass live)
            s in
        (after.0 ≡ returns tt) × Started s after.1
  decoded-Started url user pass live s =
      let s₁ = (trigger_each host (not_running live) s).1 in
      let s₂ = (trigger_each host (not_live live expected_nodes) s₁).1 in
      ground (
        arith,
        each-Started (not_running live) s,
        each-Started (not_live live expected_nodes) s₁,
        queues_lem url user pass live s₂ _ refl,
      )

  check-Started :
      (url user pass : Bytes) (s : Recovery) (o : Option (List Node))
      → host.decode_nodes (host.page s.ops) ≡ o
      → let after = check_quorum_status host url user pass s in
        (after.0 ≡ returns tt) × Started s after.1
  unfolding check_quorum_status http_request starts
  check-Started url user pass s none e = ground (arith, e)
  check-Started url user pass s (some live) e =
      let page = http_get (url ++ bytes "/api/nodes") user pass in
      ground (arith, e, decoded-Started url user pass live (record s { ops = page ∷ s.ops }))

  monitor-Started :
      (n : ℕ) (url user pass : Bytes) (s : Recovery)
      → let after = quorum_monitor host n url user pass s in
        (after.0 ≡ returns tt) × Started s after.1
  unfolding quorum_monitor starts
  monitor-Started zero url user pass s = ground arith
  monitor-Started (suc n) url user pass s =
      let s₁ = (check_quorum_status host url user pass s).1 in
      ground (
        arith,
        check-Started url user pass s _ refl,
        monitor-Started n url user pass (record s₁ { ops = sleep 10000 ∷ s₁.ops }),
      )

  stopped_lem :
      (node c : Bytes) (s : Recovery)
      → is_listed node s.forgotten ≡ false
      → extract_container node ≡ c
      → c ≢ []
      → let after = (trigger_recovery host node s).1 in
        (stops c after.ops ≡ stops c s.ops + 1) × (is_listed node after.forgotten ≡ true)
  unfolding trigger_recovery is_listed bytes bytes_eq extract_container
  stopped_lem [] c s new named known = absurd (known (sym named))
  stopped_lem node [] s new named known = absurd (known refl)
  stopped_lem (x ∷ node) (y ∷ c) s new named known =
      let s₁ = record s { forgotten = (x ∷ node) ∷ s.forgotten } in
      ground (
        arith,
        recover_container-fails (x ∷ node) (y ∷ c) (y ∷ c) s₁,
        bytes_eq_refl (y ∷ c),
        bytes_eq_refl (x ∷ node),
      )

  -- If no command can be run in rabbit1, a node that is not yet handled and to which the older monitor
  -- knows a container is handled in one call of `triggerRecovery` by a single stop of the container;
  -- however many rounds of the monitor follow, no container is started in the call or in the rounds,
  -- and the node counts as handled for good.
  pub trigger_recovery-gives_up :
      (node c url user pass : Bytes) (n : ℕ) (s : Recovery)
      → is_listed node s.forgotten ≡ false
      → extract_container node ≡ c
      → c ≢ []
      → let after = (trigger_recovery host node s).1 in
        let later = quorum_monitor host n url user pass after in
        (stops c after.ops ≡ stops c s.ops + 1)
        × (later.0 ≡ returns tt)
        × (starts later.1.ops ≡ starts s.ops)
        × (is_listed node later.1.forgotten ≡ true)
  trigger_recovery-gives_up node c url user pass n s new named known =
      let after = (trigger_recovery host node s).1 in
      let (stopped, handled) = stopped_lem node c s new named known in
      let (_, first) = trigger-Started node s in
      let (back, rest) = monitor-Started n url user pass after in
      (stopped, back, rest.none_more ∙ first.none_more, rest.keeps node handled)
