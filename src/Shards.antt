-- ===== src/Shards.antt =====
-- gateway/server.go, `pickShard`, over FNV-1a of package hash/fnv.
pub mod Range
use Prim.Native.Nat.{bit_xor}
use distributed_messaging_sy.Base.{
  ℕ, zero, suc, ◌*◌, ◌%◌, ◌^◌, ◌≡◌, refl, length, get_elem?, Bytes, bytes, List, [], ◌∷◌, Option,
  none, some,
}
use distributed_messaging_sy.WorkQueue.{shard_ring}

-- `h.Write`, a byte at a time, in uint32
unfoldable pub fnv_write : ℕ → Bytes → ℕ
fnv_write h [] = h
fnv_write h (c ∷ s) = fnv_write (bit_xor h c * 16777619 % 2 ^ 32) s

-- `fnv.New32a()`, `Write` and `Sum32`
unfoldable pub fnv32a : Bytes → ℕ
unfolding fnv_write
fnv32a key = fnv_write 2166136261 key

-- `int` has 64 bits, so the conversion of the sum keeps it.
unfoldable pub pick_shard : Bytes → Option Bytes
unfolding fnv32a
pick_shard key = get_elem? shard_ring (fnv32a key % length shard_ring)

-- The published test vector of FNV-1a for "foobar", and the shards of two tasks
fnv32a_foobar : fnv32a (bytes "foobar") ≡ 0xbf9cf968
unfolding fnv32a bytes
fnv32a_foobar = refl
