-- ===== src/Quorum/Recovered.antt =====
-- quorum_recovery/handler.go: what the calls of `triggerRecovery` do for a node.
use distributed_messaging_sy.Base.{
  ◌+◌, ◌≤◌, ◌<◌, ◌≡◌, inl, inr, true, false, ◌||◌, is_empty, if◌then◌else◌, bytes_eq, bytes_eq_iff,
  Bool-cases, Bytes, List, [], ◌∷◌, arith, length,
}
use std.Path.{subst, sym}
use distributed_messaging_sy.Quorum.Host.{Host, Recovery}
use distributed_messaging_sy.Quorum.Nodes.{extract_container}
use distributed_messaging_sy.Quorum.Trigger.{is_listed, recover, trigger_recovery, trigger_each}
use distributed_messaging_sy.Quorum.Kept.{recover-Kept}
use distributed_messaging_sy.Quorum.Acting.{creates, stops, forgets}
use distributed_messaging_sy.Quorum.Forgetting.{recover-Acts, recover-forgets}
use distributed_messaging_sy.Quorum.Once.{is_known, trigger_lem}

-- From one state to another, if the node became known in between, the command that forgets it was run
-- and its container, if it has one, was stopped; and a container was created for each name that was
-- added to the map.
pub record Progress (n : Bytes) (s t : Recovery) : Type 0 where
  pub keeps : is_known n s ≡ true → is_known n t ≡ true
  pub forgot :
      forgets n s.ops + (if is_known n s then 0 else (if is_known n t then 1 else 0))
      ≤ forgets n t.ops
  pub stopped :
      stops (extract_container n) s.ops
        + (if is_known n s || is_empty (extract_container n)
            then 0
            else (if is_known n t then 1 else 0))
      ≤ stops (extract_container n) t.ops
  pub created : creates t.ops + length s.forgotten ≡ creates s.ops + length t.forgotten

pub Progress-trans :
    (n : Bytes) (s t u : Recovery) → Progress n s t → Progress n t u → Progress n s u
Progress-trans n s t u a b = record {
  keeps = λ k. b.keeps (a.keeps k);
  forgot = ground (arith, a.forgot, b.forgot, a.keeps, b.keeps);
  stopped = ground (arith, a.stopped, b.stopped, a.keeps, b.keeps);
  created = omega (arith, a.created, b.created);
}

-- The node is known in the end; and if it was not before, the command that forgets it was run in
-- between, and its container, if it has one, was stopped.
pub record Recovered (n : Bytes) (s t : Recovery) : Type 0 where
  pub known : is_known n t ≡ true
  pub forgotten : forgets n s.ops + (if is_known n s then 0 else 1) ≤ forgets n t.ops
  pub halted :
      stops (extract_container n) s.ops
        + (if is_known n s || is_empty (extract_container n) then 0 else 1)
      ≤ stops (extract_container n) t.ops

pub Progress-Recovered :
    (n : Bytes) (s t : Recovery) → Progress n s t → is_known n t ≡ true → Recovered n s t
Progress-Recovered n s t p k = record {
  known = k;
  forgotten = ground (arith, k, p.forgot);
  halted = ground (arith, k, p.stopped);
}

module _ (host : Host) where
  -- The recovery of a node that is not known
  recover-Progress :
      (n node : Bytes) (s : Recovery)
      → is_known node s ≡ false
      → Progress n s (recover host node s).1
  unfolding is_listed
  recover-Progress n node s new = elim (Bool-cases (bytes_eq node n)) [
    | inl same ↦
        let eq = (bytes_eq_iff node n).0 same in
        let done =
          subst
            (λ m.
              (forgets n s.ops < forgets n (recover host m s).1.ops)
              × (stops (extract_container n) s.ops
                    + (if is_empty (extract_container n) then 0 else 1)
                  ≤ stops (extract_container n) (recover host m s).1.ops))
            (sym eq) (recover-forgets host n s) in
        let kept = recover-Kept host node s in
        let acts = recover-Acts host n (extract_container n) node s in
        record {
          keeps = λ k. ground (arith, kept, same);
          forgot = ground (arith, kept, same, done);
          stopped = ground (arith, kept, same, done);
          created = ground (arith, kept, acts);
        }
    | inr other ↦
        let kept = recover-Kept host node s in
        let acts = recover-Acts host n (extract_container n) node s in
        record {
          keeps = λ k. ground (arith, kept, k, other);
          forgot = ground (arith, kept, other, acts);
          stopped = ground (arith, kept, other, acts);
          created = ground (arith, kept, acts);
        }
  ]

  trigger-Progress : (n node : Bytes) (s : Recovery) → Progress n s (trigger_recovery host node s).1
  unfolding trigger_recovery
  trigger-Progress n node s =
      let s₁ = record s {
        metrics = record (s.metrics) {
          quorum_recoveries_total = s.metrics.quorum_recoveries_total + 1;
        };
      } in
      ground (arith, recover-Kept host node s₁, recover-Progress n node s₁)

  pub each-Progress :
      (n : Bytes) (nodes : List Bytes) (s : Recovery) → Progress n s (trigger_each host nodes s).1
  unfolding trigger_each
  each-Progress n [] s = ground arith
  each-Progress n (node ∷ nodes) s =
      let s₁ = (trigger_recovery host node s).1 in
      let (back, _) = trigger_lem host node s in
      rw back (
        Progress-trans n s s₁ (trigger_each host nodes s₁).1 (trigger-Progress n node s)
          (each-Progress n nodes s₁))
