-- ===== src/Quorum/Forgetting.antt =====
-- quorum_recovery/handler.go: the recovery of a node: what it stops, forgets and creates.
use distributed_messaging_sy.Base.{
  ℕ, zero, suc, ◌+◌, ◌*◌, ◌%◌, ◌≤◌, ◌<◌, ◌≡◌, Bool, true, is_empty, if◌then◌else◌, bytes_eq_refl,
  Bytes, bytes, ◌∷◌, ◌++◌, arith, returns, IsReturn-value,
}
use distributed_messaging_sy.Quorum.Host.{
  Host, Recovery, exec_in_container, sleep, container_stop, container_remove, volume_remove,
}
use distributed_messaging_sy.Quorum.Nodes.{extract_container}
use distributed_messaging_sy.Quorum.Trigger.{
  forget_command, forget_and_replace, forget_loop, remove_and_replace, recover_container, recover,
}
use distributed_messaging_sy.Quorum.Kept.{exec-Kept, replace-Kept, forget_loop-Kept}
use distributed_messaging_sy.Quorum.Acting.{
  Acts, creates, stops, forgets, exec-Acts, exec-forgets, replace-Acts,
}

module _ (host : Host) (n k : Bytes) where
  forget_loop-Acts :
      (tries backoff : ℕ) (node : Bytes) (s : Recovery) (b : Bool)
      → (forget_loop host tries backoff node s).0 ≡ returns b
      → Acts n k (if b then 0 else 1) s (forget_loop host tries backoff node s).1
  unfolding forget_loop creates stops forgets
  forget_loop-Acts zero backoff node s b h =
      let c = bytes "rabbit1" in
      let (r, e) = IsReturn-value _ (exec-Kept host c (forget_command node) s).0 in
      let s₁ = (exec_in_container host c (forget_command node) s).1 in
      let s₂ = record s₁ {
        metrics = record (s₁.metrics) {
          quorum_recoveries_failed = s₁.metrics.quorum_recoveries_failed + 1;
        };
      } in
      ground (
        arith,
        h,
        e,
        (exec-Acts host n k) c (forget_command node) s,
        (replace-Kept host 10000 s₂).0,
        (replace-Acts host n k) 10000 s₂,
      )
  forget_loop-Acts (suc tries) backoff node s b h =
      let c = bytes "rabbit1" in
      let (r, e) = IsReturn-value _ (exec-Kept host c (forget_command node) s).0 in
      let s₁ = (exec_in_container host c (forget_command node) s).1 in
      let s₂ = record s₁ { ops = sleep (backoff + host.random s₁.ops % 500) ∷ s₁.ops } in
      ground (
        arith,
        h,
        e,
        (exec-Acts host n k) c (forget_command node) s,
        forget_loop-Acts tries (backoff * 2) node s₂ b,
      )

  forget_loop-forgets :
      (tries backoff : ℕ) (s : Recovery)
      → forgets n s.ops < forgets n (forget_loop host tries backoff n s).1.ops
  unfolding forget_loop forgets
  forget_loop-forgets zero backoff s =
      let c = bytes "rabbit1" in
      let (r, e) = IsReturn-value _ (exec-Kept host c (forget_command n) s).0 in
      let s₁ = (exec_in_container host c (forget_command n) s).1 in
      let s₂ = record s₁ {
        metrics = record (s₁.metrics) {
          quorum_recoveries_failed = s₁.metrics.quorum_recoveries_failed + 1;
        };
      } in
      ground (
        arith,
        e,
        (exec-forgets host n k) s,
        (replace-Kept host 10000 s₂).0,
        (replace-Acts host n k) 10000 s₂,
      )
  forget_loop-forgets (suc tries) backoff s =
      let c = bytes "rabbit1" in
      let (r, e) = IsReturn-value _ (exec-Kept host c (forget_command n) s).0 in
      let s₁ = (exec_in_container host c (forget_command n) s).1 in
      let s₂ = record s₁ { ops = sleep (backoff + host.random s₁.ops % 500) ∷ s₁.ops } in
      ground (arith, e, (exec-forgets host n k) s, forget_loop-forgets tries (backoff * 2) s₂)

  remove_and_replace-Acts :
      (c : Bytes) (s : Recovery) → Acts n k 1 s (remove_and_replace host c s).1
  unfolding remove_and_replace creates stops forgets
  remove_and_replace-Acts c s =
      let s₁ = record s {
        ops = volume_remove (c ++ bytes "-data") true ∷ container_remove c true true ∷ s.ops;
      } in
      ground (arith, (replace-Acts host n k) 1000 s₁)

  recover_container-Acts :
      (node c : Bytes) (s : Recovery) → Acts n k 1 s (recover_container host node c s).1
  unfolding recover_container creates stops forgets
  recover_container-Acts node c s =
      let s₁ = record s { ops = container_stop c 10000 ∷ s.ops } in
      let (b, e) = IsReturn-value _ (forget_loop-Kept host 4 1000 node s₁).0 in
      let s₂ = (forget_loop host 4 1000 node s₁).1 in
      ground (arith, e, forget_loop-Acts 4 1000 node s₁ b e, remove_and_replace-Acts c s₂)

  forget_and_replace-Acts :
      (node : Bytes) (s : Recovery) → Acts n k 1 s (forget_and_replace host node s).1
  unfolding forget_and_replace creates stops forgets
  forget_and_replace-Acts node s =
      let c = bytes "rabbit1" in
      let (r, e) = IsReturn-value _ (exec-Kept host c (forget_command node) s).0 in
      let s₁ = (exec_in_container host c (forget_command node) s).1 in
      let s₂ = record s₁ {
        metrics = record (s₁.metrics) {
          quorum_recoveries_failed = s₁.metrics.quorum_recoveries_failed + 1;
        };
      } in
      ground (
        arith,
        e,
        (exec-Acts host n k) c (forget_command node) s,
        (replace-Acts host n k) 10000 s₁,
        (replace-Acts host n k) 10000 s₂,
      )

  pub recover-Acts : (node : Bytes) (s : Recovery) → Acts n k 1 s (recover host node s).1
  unfolding recover
  recover-Acts node s =
      let s₁ = record s { forgotten = node ∷ s.forgotten } in
      ground (
        arith,
        forget_and_replace-Acts node s₁,
        recover_container-Acts node (extract_container node) s₁,
      )

  forget_and_replace-forgets :
      (s : Recovery) → forgets n s.ops < forgets n (forget_and_replace host n s).1.ops
  unfolding forget_and_replace forgets
  forget_and_replace-forgets s =
      let c = bytes "rabbit1" in
      let (r, e) = IsReturn-value _ (exec-Kept host c (forget_command n) s).0 in
      let s₁ = (exec_in_container host c (forget_command n) s).1 in
      let s₂ = record s₁ {
        metrics = record (s₁.metrics) {
          quorum_recoveries_failed = s₁.metrics.quorum_recoveries_failed + 1;
        };
      } in
      ground (
        arith,
        e,
        (exec-forgets host n k) s,
        (replace-Acts host n k) 10000 s₁,
        (replace-Acts host n k) 10000 s₂,
      )

  recover_container-forgets :
      (s : Recovery)
      → (forgets n s.ops < forgets n (recover_container host n k s).1.ops)
        × (stops k s.ops < stops k (recover_container host n k s).1.ops)
  unfolding recover_container forgets stops
  recover_container-forgets s =
      let s₁ = record s { ops = container_stop k 10000 ∷ s.ops } in
      let (b, e) = IsReturn-value _ (forget_loop-Kept host 4 1000 n s₁).0 in
      let s₂ = (forget_loop host 4 1000 n s₁).1 in
      ground (
        arith,
        e,
        bytes_eq_refl k,
        forget_loop-forgets 4 1000 s₁,
        forget_loop-Acts 4 1000 n s₁ b e,
        remove_and_replace-Acts k s₂,
      )

-- The recovery of a node runs the command that forgets it, and stops its container if it has one.
pub recover-forgets :
    (host : Host) (n : Bytes) (s : Recovery)
    → let c = extract_container n in
      let t = (recover host n s).1 in
      (forgets n s.ops < forgets n t.ops)
      × (stops c s.ops + (if is_empty c then 0 else 1) ≤ stops c t.ops)
unfolding recover
recover-forgets host n s =
    let c = extract_container n in
    let s₁ = record s { forgotten = n ∷ s.forgotten } in
    ground (
      arith,
      forget_and_replace-forgets host n c s₁,
      forget_and_replace-Acts host n c n s₁,
      recover_container-forgets host n c s₁,
    )
