-- ===== src/Quorum/Older/Names.antt =====
-- tester.go: the containers of the three nodes.
use std.Path.{subst}
use distributed_messaging_sy.Base.{
  ◌≡◌, ◌≢◌, sym, refl, true, bytes_cases, inl, inr, bytes_eq_iff, bytes_eq, Bytes, bytes, [], arith,
}
use distributed_messaging_sy.Quorum.Trigger.{is_listed}
use distributed_messaging_sy.Quorum.Older.{expected_nodes, extract_container}
use distributed_messaging_sy.Quorum.Nodes as Nodes

abbrev Agrees : Bytes → Type 0
Agrees node =
    (is_listed node expected_nodes ≡ true) × (Nodes.extract_container node ≡ extract_container node)

at_rabbit1 : Agrees (bytes "rabbit@rabbit1")
unfolding bytes bytes_eq extract_container is_listed Nodes.extract_container Nodes.split
at_rabbit1 = (refl, refl)

at_rabbit2 : Agrees (bytes "rabbit@rabbit2")
unfolding bytes bytes_eq extract_container is_listed Nodes.extract_container Nodes.split
at_rabbit2 = (refl, refl)

at_rabbit3 : Agrees (bytes "rabbit@rabbit3")
unfolding bytes bytes_eq extract_container is_listed Nodes.extract_container Nodes.split
at_rabbit3 = (refl, refl)

unnamed_lem :
    (node : Bytes)
    → node ≢ bytes "rabbit@rabbit1"
    → node ≢ bytes "rabbit@rabbit2"
    → node ≢ bytes "rabbit@rabbit3"
    → extract_container node ≡ []
unfolding extract_container
unnamed_lem node n₁ n₂ n₃ = ground (
  arith,
  bytes_eq_iff node (bytes "rabbit@rabbit1"),
  bytes_eq_iff node (bytes "rabbit@rabbit2"),
  bytes_eq_iff node (bytes "rabbit@rabbit3"),
)

-- A node to which the older monitor knows a container is one of those that it expects, and the
-- newer monitor reads the same container off its name.
extract_container-agrees :
    (node : Bytes)
    → extract_container node ≢ []
    → (is_listed node expected_nodes ≡ true)
      × (Nodes.extract_container node ≡ extract_container node)
extract_container-agrees node named = elim (bytes_cases node (bytes "rabbit@rabbit1")) [
  | inl e ↦ subst Agrees (sym e) at_rabbit1
  | inr n₁ ↦ elim (bytes_cases node (bytes "rabbit@rabbit2")) [
    | inl e ↦ subst Agrees (sym e) at_rabbit2
    | inr n₂ ↦ elim (bytes_cases node (bytes "rabbit@rabbit3")) [
      | inl e ↦ subst Agrees (sym e) at_rabbit3
      | inr n₃ ↦ absurd (named (unnamed_lem node n₁ n₂ n₃))
    ]
  ]
]
