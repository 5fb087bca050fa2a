-- ===== src/Examples/Broker.antt =====
-- Brokers to run the model on. The statuses are marshalled as they are, so that reading them back is
-- the identity.
use distributed_messaging_sy.Base.{
  ℕ, ◌==◌, true, refl, bytes, bytes_eq, if◌then◌else◌, [], ◌∷◌, length, Option, none, some,
}
use distributed_messaging_sy.Amqp.{
  Call, Env, Error, IsFaithful, Decoded, Value, Delivery, publish, ack,
}
use distributed_messaging_sy.Gateway.Publish.{Request}

-- What a broker refuses: it takes no message for the retry exchange, and no acknowledgement of tag 9.
abbrev pub strict : Call → Option Error
strict (publish exchange key mandatory immediate msg) =
    if bytes_eq exchange (bytes "retry_exchange") then some (bytes "blocked") else none
strict (ack tag multiple) = if tag == 9 then some (bytes "closed") else none
strict _ = none

abbrev pub lossy : Env
lossy = record {
  fails = λ _ c. strict c;
  server_named = λ _. bytes "amq.gen-1";
  messages = λ _ q. 0;
  elapsed_ms = λ calls. length calls;
  unix_nano = λ calls. length calls;
  coin = λ _. true;
  marshal = λ f. f.status;
  status_of = λ b. b;
  unmarshal_table = λ _. Decoded.decoded ((bytes "format", Value.text (bytes "pdf")) ∷ []);
}

abbrev pub lossy-IsFaithful : IsFaithful lossy
lossy-IsFaithful = record { status_of-marshal = λ f. refl }

-- A delivery of a task with some retries behind it
abbrev pub delivery : ℕ → ℕ → Delivery
delivery tag retries = record {
  tag = tag;
  headers = (bytes "x-retry-count", Value.int32 retries) ∷ [];
  content_type = bytes "text/plain";
  body = bytes "resize";
  reply_to = bytes "amq.gen-1";
  correlation_id = bytes "7";
}

-- A task for the topic exchange
abbrev pub by_topic : Request
by_topic = record {
  task = bytes "foobar";
  routing_key = bytes "images.*";
  headers_json = [];
  fail = [];
  retry = [];
  reply_to = bytes "amq.gen-1";
  corr_id = bytes "7";
  use_shards = true;
}
