-- ===== src/Quorum/Once.antt =====
-- quorum_recovery/handler.go: a node is recovered once, and every call of `triggerRecovery` counts.
use distributed_messaging_sy.Base.{
  ◌+◌, ◌≡◌, Bool, true, ◌||◌, is_empty, bytes_eq_refl, length, All, ◌∙◌, refl, Bytes, List, [], ◌∷◌,
  arith, returns,
}
use distributed_messaging_sy.Quorum.Host.{Host, Recovery}
use distributed_messaging_sy.Quorum.Kept.{recover-Kept}
use distributed_messaging_sy.Quorum.Trigger.{is_listed, trigger_recovery, trigger_each}

-- A call of `triggerRecovery` skips the node
abbrev pub is_known : Bytes → Recovery → Bool
is_known node s = is_empty node || is_listed node s.forgotten

module _ (host : Host) where
  -- What every call of `triggerRecovery` comes to
  pub record Triggered (node : Bytes) (s t : Recovery) : Type 0 where
    pub known : is_known node t ≡ true
    pub expected : t.expected ≡ s.expected
    pub previous : t.previous ≡ s.previous
    pub total : t.metrics.quorum_recoveries_total ≡ s.metrics.quorum_recoveries_total + 1
    pub observed :
        length t.metrics.quorum_recovery_duration ≡ length s.metrics.quorum_recovery_duration + 1

  pub trigger_lem :
      (node : Bytes) (s : Recovery)
      → ((trigger_recovery host node s).0 ≡ returns tt)
        × Triggered node s (trigger_recovery host node s).1
  unfolding trigger_recovery is_listed
  trigger_lem node s =
      let s₁ = record s {
        metrics = record (s.metrics) {
          quorum_recoveries_total = s.metrics.quorum_recoveries_total + 1;
        };
      } in
      ground (arith, recover-Kept host node s₁, bytes_eq_refl node)

  pub trigger-keeps :
      (n node : Bytes) (s : Recovery)
      → is_known n s ≡ true
      → is_known n (trigger_recovery host node s).1 ≡ true
  unfolding trigger_recovery is_listed
  trigger-keeps n node s known =
      let s₁ = record s {
        metrics = record (s.metrics) {
          quorum_recoveries_total = s.metrics.quorum_recoveries_total + 1;
        };
      } in
      ground (arith, recover-Kept host node s₁)

  trigger-skips :
      (node : Bytes) (s : Recovery)
      → is_known node s ≡ true
      → ((trigger_recovery host node s).1.ops ≡ s.ops)
        × ((trigger_recovery host node s).1.forgotten ≡ s.forgotten)
  unfolding trigger_recovery
  trigger-skips node s known = ground arith

  pub each-keeps :
      (n : Bytes) (nodes : List Bytes) (s : Recovery)
      → is_known n s ≡ true
      → is_known n (trigger_each host nodes s).1 ≡ true
  unfolding trigger_each
  each-keeps n [] s known = known
  each-keeps n (node ∷ nodes) s known =
      let s₁ = (trigger_recovery host node s).1 in
      ground (arith, trigger_lem node s, trigger-keeps n node s known, each-keeps n nodes s₁)

  -- The nodes are known after a pass over them, and the pass counts each of them.
  pub each_lem :
      (nodes : List Bytes) (s : Recovery)
      → ((trigger_each host nodes s).0 ≡ returns tt)
        × All (λ n. is_known n (trigger_each host nodes s).1 ≡ true) nodes
        × ((trigger_each host nodes s).1.metrics.quorum_recoveries_total
            ≡ s.metrics.quorum_recoveries_total + length nodes)
        × (length (trigger_each host nodes s).1.metrics.quorum_recovery_duration
            ≡ length s.metrics.quorum_recovery_duration + length nodes)
  unfolding trigger_each
  each_lem [] s = ground arith
  each_lem (node ∷ nodes) s =
      let s₁ = (trigger_recovery host node s).1 in
      let (back, t) = trigger_lem node s in
      ground (arith, back, t, each_lem nodes s₁, each-keeps node nodes s₁ t.known)

  each-skips :
      (nodes known : List Bytes) (s : Recovery)
      → s.forgotten ≡ known
      → All (λ n. (is_empty n || is_listed n known) ≡ true) nodes
      → ((trigger_each host nodes s).1.ops ≡ s.ops)
        × ((trigger_each host nodes s).1.forgotten ≡ known)
  unfolding trigger_each
  each-skips [] known s e all = ground arith
  each-skips (node ∷ nodes) known s e (one, all) =
      let s₁ = (trigger_recovery host node s).1 in
      let here : is_known node s ≡ true = ground (arith, e, one) in
      let (back, _) = trigger_lem node s in
      let skipped = trigger-skips node s here in
      ground (arith, back, skipped, e, each-skips nodes known s₁ (skipped.1 ∙ e) all)

  -- After a pass of `triggerRecovery` over some nodes, from any state, a second pass over them issues
  -- no operation on Docker or the management API and forgets no further node, and both passes return.
  -- Each call of both counts a recovery, and observes a duration, those it skips included.
  pub trigger_each-once :
      (nodes : List Bytes) (s : Recovery)
      → let first = trigger_each host nodes s in
        let second = trigger_each host nodes first.1 in
        (first.0 ≡ returns tt)
        × (second.0 ≡ returns tt)
        × (second.1.ops ≡ first.1.ops)
        × (second.1.forgotten ≡ first.1.forgotten)
        × (second.1.metrics.quorum_recoveries_total
            ≡ s.metrics.quorum_recoveries_total + length nodes + length nodes)
        × (length second.1.metrics.quorum_recovery_duration
            ≡ length s.metrics.quorum_recovery_duration + length nodes + length nodes)
  trigger_each-once nodes s =
      let s₁ = (trigger_each host nodes s).1 in
      let first = each_lem nodes s in
      ground (arith, first, each_lem nodes s₁, each-skips nodes s₁.forgotten s₁ refl first.1)
