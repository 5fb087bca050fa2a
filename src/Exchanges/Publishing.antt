-- ===== src/Exchanges/Publishing.antt =====
-- The producers of the four exchanges: what they publish, and when they report an error.
use distributed_messaging_sy.Base.{
  ◌≡◌, none, some, bytes, bytes_eq, bytes_eq_iff, Bytes, arith, if◌then◌else◌,
}
use distributed_messaging_sy.Amqp.{Table, text, get}
use distributed_messaging_sy.Exchanges.Headers.{with_match}

-- A table that a headers exchange can match on says how: `x-match` is there, as it was or as "all",
-- and every other entry is as it was.
pub get-with_match :
    (k : Bytes) (h : Table)
    → get k (with_match h) ≡ (
        if bytes_eq (bytes "x-match") k
        then elim (get (bytes "x-match") h) [ none ↦ some (text (bytes "all")) | some v ↦ some v ]
        else get k h)
unfolding with_match get
get-with_match k h = ground (arith, bytes_eq_iff (bytes "x-match") k)
