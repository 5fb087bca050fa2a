-- ===== src/Amqp/Trace.antt =====
-- What a record of calls says of a message: how often it was settled, and what was sent where.
use distributed_messaging_sy.Base.{
  ℕ, suc, Option, none, some, ◌+◌, ◌&&◌, ◌==◌, List, [], ◌∷◌, Bytes, bytes_eq, if◌then◌else◌,
}
use distributed_messaging_sy.Amqp.{Call, Env, Publishing, publish, ack, nack, consume}

-- Positive and negative acknowledgements of a delivery tag
unfoldable pub acks : ℕ → List Call → ℕ
acks t [] = 0
acks t (ack u _ ∷ cs) = (if u == t then 1 else 0) + acks t cs
acks t (_ ∷ cs) = acks t cs

unfoldable pub nacks : ℕ → List Call → ℕ
nacks t [] = 0
nacks t (nack u _ _ ∷ cs) = (if u == t then 1 else 0) + nacks t cs
nacks t (_ ∷ cs) = nacks t cs

-- The messages published to an exchange with a routing key, newest first
unfoldable pub sent_to : Bytes → Bytes → List Call → List Publishing
sent_to e k [] = []
sent_to e k (publish x r _ _ m ∷ cs) =
    let rest = sent_to e k cs in if bytes_eq x e && bytes_eq r k then m ∷ rest else rest
sent_to e k (_ ∷ cs) = sent_to e k cs

-- All messages published, whatever their address, newest first
unfoldable pub sent : List Call → List Publishing
sent [] = []
sent (publish _ _ _ _ m ∷ cs) = m ∷ sent cs
sent (_ ∷ cs) = sent cs

-- Acknowledgements and refusals of any delivery
unfoldable pub ack_total : List Call → ℕ
ack_total [] = 0
ack_total (ack _ _ ∷ cs) = suc (ack_total cs)
ack_total (_ ∷ cs) = ack_total cs

unfoldable pub nack_total : List Call → ℕ
nack_total [] = 0
nack_total (nack _ _ _ ∷ cs) = suc (nack_total cs)
nack_total (_ ∷ cs) = nack_total cs

abbrev one_if_none {ℓ} : {A : Type ℓ} → Option A → ℕ
one_if_none none = 1
one_if_none (some _) = 0

-- How many publishings to an address the broker took; the tail of the list is the history at the
-- time of the call.
unfoldable pub taken : Env → Bytes → Bytes → List Call → ℕ
taken env e k [] = 0
taken env e k (publish x r m i msg ∷ cs) =
    (if bytes_eq x e && bytes_eq r k then one_if_none (env.fails cs (publish x r m i msg)) else 0)
    + taken env e k cs
taken env e k (_ ∷ cs) = taken env e k cs

-- How many acknowledgements returned no error
unfoldable pub acks_taken : Env → List Call → ℕ
acks_taken env [] = 0
acks_taken env (ack t m ∷ cs) = one_if_none (env.fails cs (ack t m)) + acks_taken env cs
acks_taken env (_ ∷ cs) = acks_taken env cs

-- How many consumers were attached to a queue
unfoldable pub consumers : Bytes → List Call → ℕ
consumers q [] = 0
consumers q (consume k _ _ _ _ _ ∷ cs) = (if bytes_eq k q then 1 else 0) + consumers q cs
consumers q (_ ∷ cs) = consumers q cs

-- How many publishings to any address the broker took
unfoldable pub taken_total : Env → List Call → ℕ
taken_total env [] = 0
taken_total env (publish x r m i msg ∷ cs) =
    one_if_none (env.fails cs (publish x r m i msg)) + taken_total env cs
taken_total env (_ ∷ cs) = taken_total env cs
