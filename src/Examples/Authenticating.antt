-- ===== src/Examples/Authenticating.antt =====
-- A store of logins and a signer of tokens, and the client at them.
use distributed_messaging_sy.Base.{
  ℕ, ◌+◌, ◌-◌, ◌≤◌, ◌≡◌, ◌⊎◌, inl, refl, true, ltb, has_prefix, if◌then◌else◌, bytes, bytes_eq,
  bytes_eq_iff, bytes_eq_refl, Bytes, [], ◌∷◌, ◌++◌, Option, none, some, Response, returns, write,
  ◌≢◌, ap, false, write_header, unwritten, arith, List,
}
use distributed_messaging_sy.Gateway.Submit.{email, slice_from}
use distributed_messaging_sy.Auth.{KeyStore, IsKeyStore, Fetched, absent, stored, Google, IsSigner}
use distributed_messaging_sy.Auth.Server.{
  handle_google_callback, handle_is_ready, handle_verify_token, handle_fetch_token, fail,
}
use distributed_messaging_sy.Auth.Readiness.{
  Operation, is_ready, fetch_token, generate_id, login, callback, pass, perform_all,
  is_ready-refuses,
}
use distributed_messaging_sy.Auth.Login.{Vouches}
use distributed_messaging_sy.Auth.Held.{Spares, time, spent}
use distributed_messaging_sy.Auth.Session.{fetch-callback}

-- The counter, and for each other key its value with the time left
abbrev Keys : Type 0
Keys = ℕ × (Bytes → Option Bytes × ℕ)

abbrev answer_of : Option Bytes → Fetched
answer_of none = absent
answer_of (some v) = stored v

abbrev pub cache : KeyStore
cache = record {
  Store = Keys;
  incr = λ k s. (some (s.0 + 1), (s.0 + 1, s.1));
  set_key = λ k v t s. (true, (s.0, λ j. if bytes_eq k j then (some v, t) else s.1 j));
  get_key = λ k s. (answer_of (s.1 k).0, s);
  elapse = λ g s. (s.0, λ k. if ltb g (s.1 k).1 then ((s.1 k).0, (s.1 k).1 - g) else (none, 0));
  value = λ k s. (s.1 k).0;
  left = λ k s. (s.1 k).1;
}

answer_of-stored : (o : Option Bytes) (v : Bytes) → answer_of o ≡ stored v → o ≡ some v
answer_of-stored none v e = cc
answer_of-stored (some w) v e = cc

cache-IsKeyStore : IsKeyStore cache
cache-IsKeyStore = record {
  incr_keeps = λ k j s n. refl;
  set_stores = λ k v t s e. ground (arith, bytes_eq_refl k);
  set_either = λ k v t s. inl (ground (arith, bytes_eq_refl k));
  set_keeps = λ k j v t s n. ground (arith, bytes_eq_iff k j);
  get_reads = λ k v s e. answer_of-stored (s.1 k).0 v e;
  get_finds = λ k v s e. inl (cc);
  get_keeps = λ k j s. refl;
  elapse_either = λ k g s. ground arith;
  elapse_keeps = λ k g s l. ground arith;
  incr_left = λ k j s n. refl;
  set_left = λ k j v t s n. ground (arith, bytes_eq_iff k j);
  get_left = λ k j s. refl;
  elapse_left = λ k g s. ground arith;
}

abbrev pub google : Google
google = record {
  auth_url = λ state. bytes "https://accounts.google.com/?state=" ++ state;
  exchange = λ code. some (bytes "access");
  user_info = λ access. some (bytes "{\"email\":\"a@b.c\"}");
  decode_email = λ body. some (bytes "a@b.c");
  now = 1700000000;
  sign = λ user until. some (bytes "jwt:" ++ user);
  parse = λ t. if has_prefix t (bytes "jwt:") then some (email (slice_from 4 t)) else none;
}

pub google-IsSigner : IsSigner google google
unfolding bytes has_prefix
google-IsSigner = record { parse-sign = λ user t until e early. ground (arith, e) }

abbrev pub nothing : Keys
nothing = (0, λ k. (none, 0))

abbrev logged_in : cache.Store
logged_in =
    (perform_all cache
      (generate_id
        ∷ login google (bytes "1")
        ∷ pass 3000
        ∷ callback google (bytes "c0de") (bytes "state-1")
        ∷ [])
      nothing)

is_ready-refuses_example :
    (c : ℕ) × (r : Response) × ((handle_is_ready cache (bytes "1") logged_in).0 ≡ returns r)
    × (r.status ≡ some c)
    × (400 ≤ c)
is_ready-refuses_example =
    is_ready-refuses cache cache-IsKeyStore
      (generate_id
        ∷ login google (bytes "1")
        ∷ pass 3000
        ∷ callback google (bytes "c0de") (bytes "state-1")
        ∷ [])
      nothing (bytes "1") (λ uid e. cc)

pub vouched : Vouches google (bytes "c0de") (bytes "a@b.c") (bytes "jwt:a@b.c")
unfolding bytes
vouched = record {
  coded = λ e. cc;
  access = bytes "access";
  exchanged = refl;
  body = _;
  told = refl;
  decoded = refl;
  signed = refl;
}

-- Another user's login in between
abbrev meanwhile : List Operation
meanwhile =
    generate_id
    ∷ pass 1000
    ∷ login google (bytes "2")
    ∷ callback google (bytes "c1de") (bytes "state-2")
    ∷ is_ready (bytes "1")
    ∷ pass 2000
    ∷ fetch_token (bytes "2")
    ∷ []

states_differ : bytes "state-2" ≢ bytes "state-1"
unfolding bytes bytes_eq
states_differ e = let differ : false ≡ true = ap (λ b. bytes_eq b (bytes "state-1")) e in cc

fetch-callback_example :
    let after =
      perform_all cache meanwhile
        (handle_google_callback cache google (bytes "c0de") (bytes "state-1") nothing).1 in
    (((handle_fetch_token cache (bytes "1") after).0
        ≡ returns (write (bytes "jwt:a@b.c") (write_header 200 unwritten)))
      ⊎ ((handle_fetch_token cache (bytes "1") after).0 ≡ returns (fail (bytes "Redis error") 500)))
    × ((handle_verify_token cache google (bytes "Bearer jwt:a@b.c") nothing).0
        ≡ returns (write (bytes "Token is valid!\nEmail: a@b.c\n") unwritten))
unfolding bytes bytes_eq Spares time spent
fetch-callback_example =
    fetch-callback cache cache-IsKeyStore google google google-IsSigner (bytes "c0de")
      (bytes "a@b.c") (bytes "jwt:a@b.c") (bytes "1") nothing vouched (λ e. cc) meanwhile nothing
      refl (tt, (tt, (tt, (states_differ, (tt, (tt, (tt, tt))))))) (omega arith) (λ e. cc)
      (omega arith)
