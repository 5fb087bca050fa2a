-- ===== src/Shards/Range.antt =====
-- gateway/server.go, `pickShard`: the sum stays a uint32, and the shard is one of the ring.
use Prim.Native.Nat.{bit_xor}
use distributed_messaging_sy.Base.{
  ℕ, zero, suc, ◌*◌, ◌%◌, ◌^◌, ◌<◌, ◌≡◌, refl, get_elem?, decimal, Bytes, bytes, [], ◌∷◌, ◌++◌,
  some, arith,
}
use distributed_messaging_sy.WorkQueue.{shard_ring}
use distributed_messaging_sy.Shards.{fnv_write, fnv32a, pick_shard}

-- The hash of a key is a 32-bit number, whatever its bytes.
fnv_write-lt : (h : ℕ) (s : Bytes) → h < 2 ^ 32 → fnv_write h s < 2 ^ 32
unfolding fnv_write
fnv_write-lt h [] p = p
fnv_write-lt h (c ∷ s) p = fnv_write-lt (bit_xor h c * 16777619 % 2 ^ 32) s (omega arith)

ring_entry : (i : ℕ) → i < 4 → get_elem? shard_ring i ≡ some (bytes "task_shard_" ++ decimal i)
unfolding bytes decimal
ring_entry zero p = refl
ring_entry (suc zero) p = refl
ring_entry (suc (suc zero)) p = refl
ring_entry (suc (suc (suc zero))) p = refl
ring_entry (suc (suc (suc (suc i)))) p = absurd (omega arith)

-- For every key there is a number below four, the 32-bit hash of the key modulo four, and the shard
-- that is picked is the queue of that number: the index is never out of range.
pub pick_shard_total :
    (key : Bytes)
    → (fnv32a key < 2 ^ 32)
      × (fnv32a key % 4 < 4)
      × (pick_shard key ≡ some (bytes "task_shard_" ++ decimal (fnv32a key % 4)))
unfolding fnv32a pick_shard
pick_shard_total key =
    (fnv_write-lt 2166136261 key (omega arith), omega arith, ring_entry _ (omega arith))
