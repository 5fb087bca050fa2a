-- ===== src/Quorum/Nodes/Names.antt =====
-- quorum_recovery/handler.go: a node's container is found again from the node's name.
use distributed_messaging_sy.Base.{ℕ, ◌≡◌, ◌≢◌, refl, Bytes, bytes, [], ◌∷◌, arith}
use distributed_messaging_sy.Quorum.Nodes.{split, extract_container, node_of}

abbrev pub Lacks : ℕ → Bytes → Type 0
Lacks b [] = Unit {0}
Lacks b (c ∷ s) = (c ≢ b) × Lacks b s

split-Lacks : (b : ℕ) (s : Bytes) → Lacks b s → split b s ≡ s ∷ []
unfolding split
split-Lacks b [] h = refl
split-Lacks b (c ∷ s) h = ground (arith, split-Lacks b s h.1)

-- The container of a node that the monitor named after a container is that container, if the
-- container's name has no at sign.
pub extract_container-node_of :
    (name : Bytes) → Lacks b'@' name → extract_container (node_of name) ≡ name
unfolding extract_container node_of bytes
extract_container-node_of name h = ground (arith, split-Lacks b'@' name h)
