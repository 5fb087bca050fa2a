-- ===== src/Quorum/Detection.antt =====
-- quorum_recovery/handler.go: which nodes a round of the monitor recovers.
use distributed_messaging_sy.Base.{
  length, ◌+◌, ◌≡◌, Bool, true, false, ◌&&◌, not, bytes_eq, if◌then◌else◌, All, Bytes, bytes,
  has_prefix, List, [], ◌∷◌, some, arith, returns, Bool-cases, refl, inl, inr, bytes_eq_iff,
}
use std.Path.{subst}
use distributed_messaging_sy.Quorum.Host.{Host, Recovery, Node, container_list}
use distributed_messaging_sy.Quorum.Trigger.{is_listed, trigger_recovery, trigger_each}
use distributed_messaging_sy.Quorum.Check.{
  not_running, not_live, vanished, check_nodes, update_expected_nodes,
}
use distributed_messaging_sy.Quorum.Acting.{creates}
use distributed_messaging_sy.Quorum.Recovered.{
  Progress, Progress-trans, Recovered, Progress-Recovered, each-Progress,
}
use distributed_messaging_sy.Quorum.Once.{is_known, trigger_lem, each-keeps, each_lem}

All-map :
    {P Q : Bytes → Type 0} (f : (n : Bytes) → P n → Q n) (ns : List Bytes) → All P ns → All Q ns
All-map f [] h = h
All-map f (n ∷ ns) (p, h) = (f n p, All-map f ns h)

All-unless :
    (P : Bytes → Type 0) (b : Bool) (x : Bytes) (xs : List Bytes)
    → All P (if b then x ∷ xs else xs)
    → All P xs
All-unless P true x xs (_, h) = h
All-unless P false x xs h = h

vanished-nil :
    (P : Bytes → Type 0) (expected olds : List Bytes)
    → expected ≡ []
    → All P (vanished expected olds)
    → (n : Bytes) → is_listed n olds ≡ true
    → has_prefix n (bytes "rabbit@rabbit-recover") ≡ true
    → P n
unfolding vanished is_listed
vanished-nil P expected [] e all n l p = ground arith
vanished-nil P expected (old ∷ olds) e all n l p = elim (Bool-cases (bytes_eq old n)) [
  | inl same ↦
      let eq = (bytes_eq_iff old n).0 same in
      let kept : vanished expected (old ∷ olds) ≡ old ∷ vanished expected olds =
        ground (arith, e, eq, p) in
      subst P eq (subst (All P) kept all).0
  | inr other ↦
      let below =
        All-unless P
          (not (is_listed old expected) && has_prefix old (bytes "rabbit@rabbit-recover")) old _
          all in
      vanished-nil P expected olds e below n (ground (arith, l, other)) p
]

module _ (host : Host) where
  each-expected :
      (nodes : List Bytes) (s : Recovery)
      → ((trigger_each host nodes s).1.expected ≡ s.expected)
        × ((trigger_each host nodes s).1.previous ≡ s.previous)
  unfolding trigger_each
  each-expected [] s = (refl, refl)
  each-expected (node ∷ nodes) s =
      let (back, t) = trigger_lem host node s in
      ground (arith, back, t, each-expected nodes (trigger_recovery host node s).1)

  passes :
      (xs ys zs : List Bytes) (s : Recovery)
      → let s₁ = (trigger_each host xs s).1 in
        let s₂ = (trigger_each host ys s₁).1 in
        let after = trigger_each host zs s₂ in
        let AllRecovered = All (λ n. Recovered n s after.1) in
        (after.0 ≡ returns tt)
        × AllRecovered xs
        × AllRecovered ys
        × AllRecovered zs
        × (creates after.1.ops + length s.forgotten ≡ creates s.ops + length after.1.forgotten)
  passes xs ys zs s =
      let s₁ = (trigger_each host xs s).1 in
      let s₂ = (trigger_each host ys s₁).1 in
      let after = trigger_each host zs s₂ in
      let l₃ = each_lem host zs s₂ in
      let progress : (n : Bytes) → Progress n s after.1 = λ n.
        Progress-trans n s s₂ after.1
          (Progress-trans n s s₁ s₂ (each-Progress host n xs s) (each-Progress host n ys s₁))
          (each-Progress host n zs s₂) in
      let recovered : (n : Bytes) → is_known n after.1 ≡ true → Recovered n s after.1 =
        λ n. Progress-Recovered n s after.1 (progress n) in
      (
        l₃.0,
        All-map (λ n k. recovered n (each-keeps host n zs s₂ (each-keeps host n ys s₁ k))) xs
            (each_lem host xs s).1,
        All-map (λ n k. recovered n (each-keeps host n zs s₂ k)) ys (each_lem host ys s₁).1,
        All-map recovered zs l₃.1,
        (progress []).created,
      )

  check_nodes_lem :
      (live : List Node) (s : Recovery)
      → let s₁ = (trigger_each host (not_running live) s).1 in
        let s₂ = (trigger_each host (not_live live s.expected) s₁).1 in
        check_nodes host live s ≡ trigger_each host (vanished s.expected s.previous) s₂
  unfolding check_nodes
  check_nodes_lem live s =
      let s₁ = (trigger_each host (not_running live) s).1 in
      ground (
        arith,
        each_lem host (not_running live) s,
        each_lem host (not_live live s.expected) s₁,
        each-expected (not_running live) s,
        each-expected (not_live live s.expected) s₁,
      )

  pub check_nodes-recovers :
      (live : List Node) (s : Recovery)
      → let after = check_nodes host live s in
        let AllRecovered = All (λ n. Recovered n s after.1) in
        (after.0 ≡ returns tt)
        × AllRecovered (not_running live)
        × AllRecovered (not_live live s.expected)
        × AllRecovered (vanished s.expected s.previous)
        × (creates after.1.ops + length s.forgotten ≡ creates s.ops + length after.1.forgotten)
  check_nodes-recovers live s =
      rw (check_nodes_lem live s)
        (passes (not_running live) (not_live live s.expected) (vanished s.expected s.previous) s)

  failed_list_lem :
      (why : Bytes) (s : Recovery)
      → host.fails s.ops container_list ≡ some why
      → let u = (update_expected_nodes host s).1 in (u.expected ≡ []) × (u.previous ≡ s.expected)
  unfolding update_expected_nodes
  failed_list_lem why s down = ground arith

  -- A round whose `ContainerList` fails, while the management API answers, recovers every recovery node
  -- that the round before expected, whatever the API says of it: the expectations are cleared before
  -- the list is read.
  failed_list-recovers :
      (why : Bytes) (live : List Node) (s : Recovery) (n : Bytes)
      → host.fails s.ops container_list ≡ some why
      → is_listed n s.expected ≡ true
      → has_prefix n (bytes "rabbit@rabbit-recover") ≡ true
      → is_known n (check_nodes host live (update_expected_nodes host s).1).1 ≡ true
  failed_list-recovers why live s n down listed named =
      let u = (update_expected_nodes host s).1 in
      let (e, p) = failed_list_lem why s down in
      let after = (check_nodes host live u).1 in
      (vanished-nil (λ m. Recovered m u after) u.expected u.previous e
        (check_nodes-recovers live u).3 n (ground (arith, p)) named).known
