-- ===== src/Examples/Balancing.antt =====
-- A registry of two gateways, of which the first is down.
use distributed_messaging_sy.Base.{
  ◌≡◌, inl, inr, refl, true, Bool, bytes, bytes_eq, if◌then◌else◌, Bytes, [], ◌∷◌, Option, none,
  some, returns, arith, http_error, unwritten,
}
use distributed_messaging_sy.Balancer.{
  Balancer, Reply, Sent, Incoming, probe, forward, init, proxy_handler, relay_reply,
}
use distributed_messaging_sy.Balancer.Registry.{In, IsRegistry}
use distributed_messaging_sy.Balancer.History.{
  register, proxy, metrics, prune, perform_all, perform_all-IsRegistry,
}
use distributed_messaging_sy.Balancer.Members.{of_list}
use distributed_messaging_sy.Balancer.Refinement.{effects, healthy, perform_all-effects}
use distributed_messaging_sy.Balancer.Resent.{Loses, forwards, proxy_handler-resends}
use distributed_messaging_sy.Balancer.RoundRobin.{unchanging, served_by, proxy_handler-serves}

abbrev ok : Reply
ok = record { status = 200; headers = []; body = bytes "ok" }

-- The gateway at ":2" answers, and nothing else does.
abbrev second_only : Sent → Option Reply
second_only (probe url) = if bytes_eq url (bytes ":2/health") then some ok else none
second_only (forward method url body headers) =
    if bytes_eq url (bytes ":2/submit-task") then some ok else none

-- Both are healthy, and what they answer to a request that is sent on is lost.
abbrev deaf : Sent → Option Reply
deaf (probe url) = some ok
deaf (forward method url body headers) = none

abbrev pub any : Bytes → Bytes → Bool
any _ _ = true

abbrev pub both : Balancer
both = record { backends = bytes ":1" ∷ bytes ":2" ∷ []; current = 1; requests = [] }

abbrev pub submit : Incoming
submit = record {
  method = bytes "POST";
  path = bytes "/submit-task";
  headers = [];
  body = some (bytes "task=resize");
}

proxy_handler-serves_example :
    (y : Bytes) × (rep : Reply) × In y both.backends
    × (served_by second_only any submit (bytes "task=resize") y ≡ some rep)
    × ((proxy_handler (unchanging second_only any) submit both).0
        ≡ returns (relay_reply (some rep)))
unfolding bytes bytes_eq
proxy_handler-serves_example =
    proxy_handler-serves second_only any submit (bytes "task=resize") both (bytes ":2") ok
      (omega arith) refl (inr (inl refl)) refl

both-named : ¬ In [] both.backends
unfolding bytes
both-named (inl e) = cc
both-named (inr (inl e)) = cc
both-named (inr (inr h)) = absurd h

deaf-Loses : Loses (unchanging deaf any)
unfolding bytes
deaf-Loses = record {
  healthy = λ h url. refl;
  lost = λ h method url body headers. refl;
  well_formed = λ method url. refl;
}

proxy_handler-resends_example :
    let after = proxy_handler (unchanging deaf any) submit both in
    (forwards after.1.requests ≡ 2)
    × (after.0 ≡ returns (http_error (bytes "All backends unhealthy") 503 unwritten))
unfolding forwards
proxy_handler-resends_example =
    proxy_handler-resends (unchanging deaf any) deaf-Loses submit (bytes "task=resize") both refl
      (λ e. cc) both-named

perform_all-IsRegistry_example : IsRegistry (
    perform_all
      (unchanging second_only any)
      (register (bytes ":1")
        ∷ register (bytes ":2")
        ∷ register (bytes ":1")
        ∷ prune
        ∷ proxy submit
        ∷ metrics
        ∷ [])
      init)
perform_all-IsRegistry_example =
    perform_all-IsRegistry (unchanging second_only any)
      (register (bytes ":1")
        ∷ register (bytes ":2")
        ∷ register (bytes ":1")
        ∷ prune
        ∷ proxy submit
        ∷ metrics
        ∷ [])
      init (record { distinct = tt; named = λ h. h })

perform_all-effects_example :
    let os = register (bytes ":1") ∷ register (bytes ":2") ∷ prune ∷ register [] ∷ [] in
    of_list (perform_all (unchanging second_only any) os init).backends
    ≡ effects (healthy second_only any) os (of_list [])
perform_all-effects_example =
    perform_all-effects second_only any
      (register (bytes ":1") ∷ register (bytes ":2") ∷ prune ∷ register [] ∷ []) init
