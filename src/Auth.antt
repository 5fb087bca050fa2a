-- ===== src/Auth.antt =====
-- google_authentication/: what the authentication server asks of Redis, of Google and of the JWT
-- library. They are not modelled: `KeyStore` and `Google` are parameters.
pub mod Page
pub mod Server
pub mod Package
pub mod Worker
pub mod Readiness
pub mod Login
pub mod Held
pub mod Session
pub mod Routes
use distributed_messaging_sy.Base.{
  ℕ, ◌+◌, ◌-◌, ◌<◌, ◌≡◌, ◌≢◌, ◌⊎◌, Bool, true, Bytes, Option, none, some, Go, Outcome,
}
use distributed_messaging_sy.Gateway.Submit.{Claim, email}

-- The answer to GET: an error, `redis.Nil`, or a value
pub data Fetched : Type 0 where
  failed : Fetched
  absent : Fetched
  stored : Bytes → Fetched

pub record KeyStore : Type 1 where
  pub Store : Type 0
  pub incr : Bytes → Store → Option ℕ × Store  -- INCR: the new number, or an error
  -- SET key value with an expiry in milliseconds: whether it returned no error
  pub set_key : Bytes → Bytes → ℕ → Store → Bool × Store
  pub get_key : Bytes → Store → Fetched × Store
  pub elapse : ℕ → Store → Store  -- milliseconds pass
  pub value : Bytes → Store → Option Bytes  -- what a key holds
  pub left : Bytes → Store → ℕ  -- the milliseconds left to a key that was set with an expiry

-- What Redis documents. A SET that returns an error may have been carried out.
pub record IsKeyStore (r : KeyStore) : Type 0 where
  pub incr_keeps : (k j : Bytes) (s : r.Store) → k ≢ j → r.value j (r.incr k s).1 ≡ r.value j s
  pub set_stores :
      (k v : Bytes) (t : ℕ) (s : r.Store)
      → (r.set_key k v t s).0 ≡ true
      → (r.value k (r.set_key k v t s).1 ≡ some v) × (r.left k (r.set_key k v t s).1 ≡ t)
  pub set_either :
      (k v : Bytes) (t : ℕ) (s : r.Store)
      → (r.value k (r.set_key k v t s).1 ≡ some v) ⊎ (r.value k (r.set_key k v t s).1 ≡ r.value k s)
  pub set_keeps :
      (k j v : Bytes) (t : ℕ) (s : r.Store) → k ≢ j → r.value j (r.set_key k v t s).1 ≡ r.value j s
  pub get_reads :
      (k v : Bytes) (s : r.Store) → (r.get_key k s).0 ≡ Fetched.stored v → r.value k s ≡ some v
  pub get_finds :
      (k v : Bytes) (s : r.Store)
      → r.value k s ≡ some v
      → ((r.get_key k s).0 ≡ Fetched.stored v) ⊎ ((r.get_key k s).0 ≡ Fetched.failed)
  pub get_keeps : (k j : Bytes) (s : r.Store) → r.value j (r.get_key k s).1 ≡ r.value j s
  pub elapse_either :
      (k : Bytes) (g : ℕ) (s : r.Store)
      → (r.value k (r.elapse g s) ≡ r.value k s) ⊎ (r.value k (r.elapse g s) ≡ none)
  pub elapse_keeps :
      (k : Bytes) (g : ℕ) (s : r.Store) → g < r.left k s → r.value k (r.elapse g s) ≡ r.value k s
  -- The time left to a key goes down with the clock, and only a SET of the key gives it more.
  pub incr_left : (k j : Bytes) (s : r.Store) → k ≢ j → r.left j (r.incr k s).1 ≡ r.left j s
  pub set_left :
      (k j v : Bytes) (t : ℕ) (s : r.Store) → k ≢ j → r.left j (r.set_key k v t s).1 ≡ r.left j s
  pub get_left : (k j : Bytes) (s : r.Store) → r.left j (r.get_key k s).1 ≡ r.left j s
  pub elapse_left : (k : Bytes) (g : ℕ) (s : r.Store) → r.left k (r.elapse g s) ≡ r.left k s - g

-- The answers of the OAuth and JWT libraries during one request
pub record Google : Type 0 where
  pub auth_url : Bytes → Bytes  -- `AuthCodeURL` for a state
  pub exchange : Bytes → Option Bytes  -- the OAuth token for a code
  pub user_info : Bytes → Option Bytes  -- the body of the response under a token
  pub decode_email : Bytes → Option Bytes
  pub now : ℕ  -- Unix seconds
  pub sign : Bytes → ℕ → Option Bytes  -- the JWT for an email and an expiry time
  pub parse : Bytes → Option Claim  -- `none` for an error or a token that is not valid

-- What the JWT library documents, for the server's one secret: a signed token is valid until it
-- expires, and holds the claims.
pub record IsSigner (issuing checking : Google) : Type 0 where
  pub parse-sign :
      (user t : Bytes) (until : ℕ)
      → issuing.sign user until ≡ some t
      → checking.now < until
      → checking.parse t ≡ some (email user)
