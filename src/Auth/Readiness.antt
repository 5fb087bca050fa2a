-- ===== src/Auth/Readiness.antt =====
-- google_authentication/auth_server.go: no login is ever reported as done.
use std.Path.{subst}
use distributed_messaging_sy.Base.{
  ℕ, ◌+◌, ◌≤◌, ◌≡◌, ◌≢◌, refl, sym, ap, ◌⊎◌, inl, inr, true, false, bytes_cases, bytes_eq,
  bytes_eq_iff, has_prefix, Bytes, bytes, List, [], ◌∷◌, some, returns, Response, arith, decimal,
  Option-cases,
}
use distributed_messaging_sy.Gateway.Submit.{slice_from}
use distributed_messaging_sy.Auth.{KeyStore, IsKeyStore, Fetched, stored, absent, failed, Google}
use distributed_messaging_sy.Auth.Server.{
  status_key, token_key, ten_minutes, fail, status_read, handle_generate_id, handle_google_login,
  handle_google_callback, finish_login, handle_is_ready, handle_verify_token, handle_fetch_token,
}

-- What can happen to the store of the server, one after the other; each login meets answers of its own.
pub data Operation : Type 0 where
  generate_id : Operation
  login : Google → Bytes → Operation
  callback : Google → (code state : Bytes) → Operation
  is_ready : Bytes → Operation
  verify_token : Google → Bytes → Operation
  fetch_token : Bytes → Operation
  pass : (milliseconds : ℕ) → Operation

started-ne-done : bytes "started" ≢ bytes "done"
unfolding bytes
started-ne-done e = cc

created-ne-done : bytes "created" ≢ bytes "done"
unfolding bytes
created-ne-done e = cc

pub token_key-ne-status_key : (a b : Bytes) → token_key a ≢ status_key b
unfolding bytes has_prefix
token_key-ne-status_key a b e =
    let differ : true ≡ false = ap (λ k. has_prefix k (bytes "login:token:")) e in cc

module _ (redis : KeyStore) where
  open redis use {Store, incr, set_key, get_key, elapse, value}

  abbrev pub perform : Operation → Store → Store
  perform generate_id s = (handle_generate_id redis s).1
  perform (login google uid) s = (handle_google_login redis google uid s).1
  perform (callback google code state) s = (handle_google_callback redis google code state s).1
  perform (is_ready uid) s = (handle_is_ready redis uid s).1
  perform (verify_token google authorization) s =
      (handle_verify_token redis google authorization s).1
  perform (fetch_token uid) s = (handle_fetch_token redis uid s).1
  perform (pass ms) s = elapse ms s

  abbrev pub perform_all : List Operation → Store → Store
  perform_all [] s = s
  perform_all (o ∷ os) s = perform_all os (perform o s)

  -- No status says that a login is done.
  abbrev pub IsPending : Store → Type 0
  IsPending s = (uid : Bytes) → value (status_key uid) s ≢ some (bytes "done")

  module _ (laws : IsKeyStore redis) where
    set-IsPending :
        (k v : Bytes) (t : ℕ) (s : Store)
        → ((uid : Bytes) → k ≡ status_key uid → v ≢ bytes "done")
        → IsPending s
        → IsPending (set_key k v t s).1
    set-IsPending k v t s safe h uid = elim (bytes_cases k (status_key uid)) [
      | inl e ↦ λ done. safe uid e (either_done (laws.set_either k v t s) e done)
      | inr n ↦ ground (arith, laws.set_keeps k (status_key uid) v t s n, h uid)
    ]
      where
        either_done :
            (value k (set_key k v t s).1 ≡ some v) ⊎ (value k (set_key k v t s).1 ≡ value k s)
            → k ≡ status_key uid
            → value (status_key uid) (set_key k v t s).1 ≡ some (bytes "done")
            → v ≡ bytes "done"
        either_done (inl new) e done = cc
        either_done (inr old) e done = absurd (h uid (cc))

    get-IsPending : (k : Bytes) (s : Store) → IsPending s → IsPending (get_key k s).1
    get-IsPending k s h uid = ground (arith, laws.get_keeps k (status_key uid) s, h uid)

    elapse-IsPending : (g : ℕ) (s : Store) → IsPending s → IsPending (elapse g s)
    elapse-IsPending g s h uid = ground (arith, laws.elapse_either (status_key uid) g s, h uid)

    incr-IsPending : (s : Store) → IsPending s → IsPending (incr (bytes "user_id_counter") s).1
    unfolding bytes
    incr-IsPending s h uid =
        ground (arith, laws.incr_keeps (bytes "user_id_counter") (status_key uid) s, h uid)

    pub generate_lem :
        (s : Store)
        → let s' = (incr (bytes "user_id_counter") s).1 in
          (perform generate_id s ≡ s')
          ⊎ ((n : ℕ) × (perform generate_id s
                ≡ (set_key (status_key (decimal n)) (bytes "created") ten_minutes s').1))
    unfolding handle_generate_id
    generate_lem s = elim (Option-cases (incr (bytes "user_id_counter") s).0) [
      | inl e ↦ inl (ground (arith, e))
      | inr (n, e) ↦ inr (n, ground (arith, e))
    ]

    generate-IsPending : (s : Store) → IsPending s → IsPending (perform generate_id s)
    generate-IsPending s h = elim (generate_lem s) [
      | inl e ↦ subst IsPending (sym e) (incr-IsPending s h)
      | inr (n, e) ↦ subst IsPending (sym e) (
          set-IsPending (status_key (decimal n)) (bytes "created") ten_minutes
            (incr (bytes "user_id_counter") s).1 (λ uid _. created-ne-done) (incr-IsPending s h))
    ]

    login-IsPending :
        (google : Google) (uid : Bytes) (s : Store)
        → IsPending s
        → IsPending (perform (login google uid) s)
    unfolding handle_google_login
    login-IsPending google [] s h = h
    login-IsPending google (c ∷ cs) s h =
        set-IsPending (status_key (c ∷ cs)) (bytes "started") ten_minutes s
          (λ uid _. started-ne-done) h

    finish-IsPending :
        (state token : Bytes) (s : Store)
        → IsPending s
        → IsPending (finish_login redis state token s).1
    unfolding finish_login
    finish-IsPending state token s h uid =
        let key = token_key (slice_from 6 state) in
        let stored =
          set-IsPending key token ten_minutes s (λ i e. absurd (token_key-ne-status_key _ i e)) h
            uid in
        ground (arith, stored, h uid)

    callback-IsPending :
        (google : Google) (code state : Bytes) (s : Store)
        → IsPending s
        → IsPending (perform (callback google code state) s)
    unfolding handle_google_callback
    callback-IsPending google code state s h uid = elim (Option-cases (google.exchange code)) [
      | inl e ↦ ground (arith, e, h uid)
      | inr (t, e₁) ↦ elim (Option-cases (google.user_info t)) [
        | inl e ↦ ground (arith, e₁, e, h uid)
        | inr (body, e₂) ↦ elim (Option-cases (google.decode_email body)) [
          | inl e ↦ ground (arith, e₁, e₂, e, h uid)
          | inr (user, e₃) ↦ elim (Option-cases (google.sign user (google.now + 3600))) [
            | inl e ↦ ground (arith, e₁, e₂, e₃, e, h uid)
            | inr (token, e) ↦
                ground (arith, e₁, e₂, e₃, e, h uid, finish-IsPending state token s h uid)
          ]
        ]
      ]
    ]

    perform-IsPending : (o : Operation) (s : Store) → IsPending s → IsPending (perform o s)
    unfolding handle_is_ready handle_fetch_token handle_verify_token
    perform-IsPending generate_id s h = generate-IsPending s h
    perform-IsPending (login google uid) s h = login-IsPending google uid s h
    perform-IsPending (callback google code state) s h = callback-IsPending google code state s h
    perform-IsPending (is_ready []) s h = h
    perform-IsPending (is_ready (c ∷ cs)) s h = get-IsPending (status_key (c ∷ cs)) s h
    perform-IsPending (verify_token google authorization) s h = λ uid. ground (arith, h uid)
    perform-IsPending (fetch_token []) s h = h
    perform-IsPending (fetch_token (c ∷ cs)) s h = get-IsPending (token_key (c ∷ cs)) s h
    perform-IsPending (pass ms) s h = elapse-IsPending ms s h

    pub perform_all-IsPending :
        (os : List Operation) (s : Store) → IsPending s → IsPending (perform_all os s)
    perform_all-IsPending [] s h = h
    perform_all-IsPending (o ∷ os) s h =
        perform_all-IsPending os (perform o s) (perform-IsPending o s h)

    status_lem :
        (uid : Bytes) (s : Store) (f : Fetched)
        → IsPending s
        → (get_key (status_key uid) s).0 ≡ f
        → bytes_eq (status_read redis f) (bytes "done") ≡ false
    unfolding bytes_eq bytes
    status_lem uid s failed h e = refl
    status_lem uid s absent h e = refl
    status_lem uid s (stored v) h e =
        ground (arith, h uid, laws.get_reads (status_key uid) v s e, bytes_eq_iff v (bytes "done"))

    not_ready :
        (uid : Bytes) (s : Store)
        → IsPending s
        → (c : ℕ) × (r : Response) × ((handle_is_ready redis uid s).0 ≡ returns r)
          × (r.status ≡ some c)
          × (400 ≤ c)
    unfolding handle_is_ready
    not_ready [] s h = (400, _, refl, refl, omega arith)
    not_ready (c ∷ cs) s h =
        (404, fail [] 404, rw (status_lem (c ∷ cs) s _ h refl) refl, refl, omega arith)

    -- With a store in which no login is marked as done, and through any sequence of requests to the
    -- server with time passing between them, the handler that clients poll for a finished login never
    -- says that it is done: it answers each user with a status of at least 400.
    pub is_ready-refuses :
        (os : List Operation) (s : Store) (uid : Bytes)
        → IsPending s
        → (c : ℕ) × (r : Response) × ((handle_is_ready redis uid (perform_all os s)).0 ≡ returns r)
          × (r.status ≡ some c)
          × (400 ≤ c)
    is_ready-refuses os s uid h = not_ready uid (perform_all os s) (perform_all-IsPending os s h)
