-- ===== src/Quorum/Nodes.antt =====
-- quorum_recovery/handler.go: the names of nodes and containers.
pub mod Names
use distributed_messaging_sy.Base.{
  ◌==◌, has_prefix, if◌then◌else◌, decimal, ℕ, Bytes, bytes, List, [], ◌∷◌, ◌++◌, Option, none,
  some,
}

abbrev prepend : ℕ → List Bytes → List Bytes
prepend c [] = (c ∷ []) ∷ []
prepend c (p ∷ ps) = (c ∷ p) ∷ ps

-- `strings.Split(s, sep)` for a separator of one byte
unfoldable pub split : ℕ → Bytes → List Bytes
split sep [] = [] ∷ []
split sep (c ∷ s) = let rest = split sep s in if c == sep then [] ∷ rest else prepend c rest

abbrev second_of_two : List Bytes → Bytes
second_of_two (a ∷ b ∷ []) = b
second_of_two _ = []

-- `extractContainer`
unfoldable pub extract_container : Bytes → Bytes
unfolding split
extract_container node = second_of_two (split b'@' node)

-- `fmt.Sprintf("rabbit@%s", name)`
unfoldable pub node_of : Bytes → Bytes
node_of name = bytes "rabbit@" ++ name

-- `fmt.Sprintf("rabbit-recover-%d", id)`
unfoldable pub recovery_container : ℕ → Bytes
recovery_container id = bytes "rabbit-recover-" ++ decimal id

-- `strings.TrimPrefix(name, "/")`
unfoldable pub trim_slash : Bytes → Bytes
trim_slash [] = []
trim_slash (c ∷ s) = if c == b'/' then s else c ∷ s

-- The loop of `updateExpectedNodes` over the first names of the running containers
unfoldable pub expected_of : List Bytes → List Bytes
unfolding node_of trim_slash
expected_of [] = []
expected_of (n ∷ ns) =
    let rest = expected_of ns in
    if has_prefix n (bytes "/rabbit") then node_of (trim_slash n) ∷ rest else rest
