-- ===== src/ApiKeys.antt =====
-- database_connect/mongo_api_store.go: the store of API keys, which the gateway does not call at
-- present. The MongoDB driver is the parameter `Mongo`.
use distributed_messaging_sy.Base.{
  ℕ, ◌≡◌, inl, inr, Bool, false, ltb, is_empty, if◌then◌else◌, Bytes, bytes, ◌++◌, Option, none,
  some, Option-cases, Go, pure, fatal, ◌>>◌, arith,
}

pub record ApiKey : Type 0 where
  pub key : Bytes
  pub owner : Bytes
  pub status : Bytes
  pub rate_limit : ℕ  -- the bit pattern of an int
  pub created_at : ℕ
  pub expires_at : Option ℕ  -- nanoseconds; `none` for a zero time

-- The driver: whether it connects to a URI, and what `FindOne` and `Decode` return for a filter on
-- `key` and `status`
pub record Mongo : Type 0 where
  pub connects : Bytes → Bool
  pub find_one : (key status : Bytes) → Option ApiKey

-- What MongoDB documents of a filter: a document that it finds has the values asked for.
pub record IsFiltered (mongo : Mongo) : Type 0 where
  pub matches :
      (key status : Bytes) (found : ApiKey)
      → mongo.find_one key status ≡ some found
      → (found.key ≡ key) × (found.status ≡ status)

-- `InitMongoStore`, with the variable MONGO_URI
unfoldable pub init_mongo_store : Mongo → Bytes → Go (Unit {0}) (Unit {0})
init_mongo_store mongo uri =
    if is_empty uri then fatal else if mongo.connects uri then pure tt else fatal

-- `!t.IsZero() && time.Now().After(t)`
abbrev pub is_expired : ℕ → Option ℕ → Bool
is_expired now none = false
is_expired now (some t) = ltb t now

-- `ValidateAPIKey`: a key, or an error
unfoldable pub validate_api_key : Mongo → ℕ → Bytes → Option ApiKey
validate_api_key mongo now key = elim (mongo.find_one key (bytes "active")) [
  | none ↦ none
  | some result ↦ if is_expired now result.expires_at then none else some result
]

-- `main`: what it prints of a key, if it comes back
unfoldable pub check_key : Mongo → Bytes → ℕ → Bytes → Go (Unit {0}) Bytes
check_key mongo uri now key = do
  init_mongo_store mongo uri
  pure (elim (validate_api_key mongo now key) [
    | none ↦ bytes "Invalid or expired API key"
    | some k ↦ bytes "Authenticated " ++ key ++ bytes " owned by " ++ k.owner
  ])

found_lem :
    (mongo : Mongo) (now : ℕ) (key : Bytes) (found : ApiKey)
    → validate_api_key mongo now key ≡ some found
    → (mongo.find_one key (bytes "active") ≡ some found) × (is_expired now found.expires_at ≡ false)
unfolding validate_api_key
found_lem mongo now key found h = elim (Option-cases (mongo.find_one key (bytes "active"))) [
  | inl e ↦ ground (arith, e, h)
  | inr (k, e) ↦ ground (arith, e, h)
]

-- With a store that filters by what it is asked for: a key that is returned is the one that was asked
-- for, is active, and has either no end or one that has not passed.
pub validate_api_key_lem :
    (mongo : Mongo) (now : ℕ) (key : Bytes) (found : ApiKey)
    → IsFiltered mongo
    → validate_api_key mongo now key ≡ some found
    → (found.key ≡ key)
      × (found.status ≡ bytes "active")
      × (is_expired now found.expires_at ≡ false)
validate_api_key_lem mongo now key found filtered h =
    let (at, current) = found_lem mongo now key found h in
    let (same, active) = filtered.matches key (bytes "active") found at in (same, active, current)
