-- ===== src/Amqp.antt =====
-- What the program hands to the AMQP client library and gets from it (github.com/rabbitmq/amqp091-go).
-- The library and the broker are not modelled: `Env` is a parameter that answers each call, as any
-- function of the calls made before.
pub mod Process
pub mod Trace
pub mod Connect
use distributed_messaging_sy.Base.{
  ℕ, ◌≡◌, Bool, Bytes, List, [], ◌∷◌, Option, none, some, bytes_eq, if◌then◌else◌,
}

-- A value of an `amqp.Table`, with the Go type that a type switch sees. An integer is its bit
-- pattern; a `float64` is the bit pattern of the `int32` that Go's conversion gives.
pub data Value : Type 0 where
  bool : Bool → Value
  int32 : ℕ → Value
  int64 : ℕ → Value
  float64 : ℕ → Value
  text : Bytes → Value
  other : Value

abbrev pub Table : Type 0
Table = List (Bytes × Value)

-- `v, ok := table[key]`
unfoldable pub get : Bytes → Table → Option Value
get k [] = none
get k ((j, v) ∷ t) = if bytes_eq j k then some v else get k t

-- `amqp.Publishing`, with the fields that the program sets
pub record Publishing : Type 0 where
  pub headers : Table
  pub persistent : Bool  -- `DeliveryMode: amqp.Persistent`
  pub content_type : Bytes
  pub body : Bytes
  pub reply_to : Bytes
  pub correlation_id : Bytes

-- `amqp.Delivery`, with the fields that the program reads
pub record Delivery : Type 0 where
  pub tag : ℕ
  pub headers : Table
  pub content_type : Bytes
  pub body : Bytes
  pub reply_to : Bytes
  pub correlation_id : Bytes

pub data Call : Type 0 where
  dial : (url : Bytes) → Call  -- `amqp.Dial`
  open_channel : Call  -- `conn.Channel`
  exchange_declare : (name kind : Bytes) (durable auto_delete internal no_wait : Bool) → Call
  queue_declare :
      (name : Bytes) (durable auto_delete exclusive no_wait : Bool) (args : Table) → Call
  queue_bind : (queue key exchange : Bytes) (no_wait : Bool) (args : Table) → Call
  queue_inspect : (queue : Bytes) → Call
  qos : (prefetch_count prefetch_size : ℕ) (global : Bool) → Call
  consume : (queue consumer : Bytes) (auto_ack exclusive no_local no_wait : Bool) → Call
  publish : (exchange key : Bytes) (mandatory immediate : Bool) (msg : Publishing) → Call
  ack : (tag : ℕ) (multiple : Bool) → Call
  nack : (tag : ℕ) (multiple requeue : Bool) → Call
  sleep : (milliseconds : ℕ) → Call  -- `time.Sleep`, which shares the record of calls

-- The JSON object that a worker sends back; an absent field is `none`.
pub record Feedback : Type 0 where
  pub status : Bytes
  pub attempt : Option ℕ
  pub worker : Option Bytes
  pub reason : Option Bytes

abbrev pub status_only : Bytes → Feedback
status_only s = record { status = s; attempt = none; worker = none; reason = none }

-- An `error` value, read through `Error()`
abbrev pub Error : Type 0
Error = Bytes

-- What `json.Unmarshal` makes of a text that should hold a table: an error, a nil map (of `null`), or
-- a table
pub data Decoded : Type 0 where
  malformed : Error → Decoded
  nil_map : Decoded
  decoded : Table → Decoded

-- The answers of the broker, the clock, the random source and package encoding/json. A list of
-- calls is the history before the question, newest first.
pub record Env : Type 0 where
  pub fails : List Call → Call → Option Error
  pub server_named : List Call → Bytes  -- the name that `QueueDeclare("")` returns
  pub messages : List Call → Bytes → ℕ  -- the depth that `QueueInspect` returns
  pub elapsed_ms : List Call → ℕ  -- milliseconds since a start taken earlier
  pub unix_nano : List Call → ℕ
  pub coin : List Call → Bool  -- `rand.Float32() < 0.5`
  pub marshal : Feedback → Bytes
  pub status_of : Bytes → Bytes  -- the `Status` that `Unmarshal` leaves in a feedback
  pub unmarshal_table : Bytes → Decoded

-- What encoding/json documents of a struct that is marshalled and read back
pub record IsFaithful (env : Env) : Type 0 where
  pub status_of-marshal : (f : Feedback) → env.status_of (env.marshal f) ≡ f.status
