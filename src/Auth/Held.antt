-- ===== src/Auth/Held.antt =====
-- google_authentication/auth_server.go: what keeps the token of a login in the store.
use std.Path.{subst}
use distributed_messaging_sy.Base.{
  ℕ, ◌+◌, ◌<◌, ◌≡◌, ◌≢◌, refl, ◌∙◌, ap, sym, ◌⊎◌, inl, inr, true, false, is_empty, not, ◌||◌, leb,
  length, has_prefix, All, Bytes, bytes, List, [], ◌∷◌, ◌++◌, some, Bool-cases, Option-cases, arith,
  decimal,
}
use distributed_messaging_sy.Gateway.Submit.{slice_from}
use distributed_messaging_sy.Auth.{KeyStore, IsKeyStore, Google}
use distributed_messaging_sy.Auth.Server.{
  status_key, token_key, ten_minutes, handle_google_login, handle_google_callback, finish_login,
  handle_is_ready, handle_verify_token, handle_fetch_token,
}
use distributed_messaging_sy.Auth.Readiness.{
  Operation, generate_id, login, callback, is_ready, verify_token, fetch_token, pass, perform,
  perform_all, generate_lem, token_key-ne-status_key,
}

-- The milliseconds that an operation takes, and that some take
unfoldable pub spent : Operation → ℕ
spent (pass ms) = ms
spent _ = 0

unfoldable pub time : List Operation → ℕ
time [] = 0
time (o ∷ os) = spent o + time os

-- An operation is not the end of a further login of a user.
unfoldable pub Spares : Bytes → Operation → Type 0
Spares uid (callback google code state) = state ≢ bytes "state-" ++ uid
Spares uid _ = Unit {0}

has_prefix-slice : (s p : Bytes) → has_prefix s p ≡ true → s ≡ p ++ slice_from (length p) s
unfolding has_prefix
has_prefix-slice s [] h = refl
has_prefix-slice [] (b ∷ p) h = absurd (cc)
has_prefix-slice (a ∷ s) (b ∷ p) h = ground (arith, has_prefix-slice s p)

token_key-injective : (a b : Bytes) → token_key a ≡ token_key b → a ≡ b
unfolding bytes
token_key-injective a b e = ap (slice_from 12) e

counter-ne-token_key : (uid : Bytes) → bytes "user_id_counter" ≢ token_key uid
unfolding bytes has_prefix
counter-ne-token_key uid e =
    let differ : false ≡ true = ap (λ k. has_prefix k (bytes "login:token:")) e in cc

module _ (redis : KeyStore) where
  open redis use {Store, incr, set_key, get_key, elapse, value, left}

  finish_either :
      (state token : Bytes) (s : Store)
      → ((finish_login redis state token s).1 ≡ s)
        ⊎ ((uid : Bytes) × (state ≡ bytes "state-" ++ uid)
            × ((finish_login redis state token s).1
                ≡ (set_key (token_key uid) token ten_minutes s).1))
  unfolding finish_login bytes
  finish_either state token s =
      elim (Bool-cases (leb (length state) 6 || not (has_prefix state (bytes "state-")))) [
        | inl refused ↦ inl (ground (arith, refused))
        | inr valid ↦ inr (
          slice_from 6 state,
          has_prefix-slice state (bytes "state-") (ground (arith, valid)),
          ground (arith, valid),
        )
      ]

  -- The callback leaves the store, or stores a token for the user whose login its state names.
  callback_either :
      (google : Google) (code state : Bytes) (s : Store)
      → (perform redis (callback google code state) s ≡ s)
        ⊎ ((uid token : Bytes) × (state ≡ bytes "state-" ++ uid)
            × (perform redis (callback google code state) s
                ≡ (set_key (token_key uid) token ten_minutes s).1))
  unfolding handle_google_callback
  callback_either google code state s = elim (Bool-cases (is_empty code)) [
    | inl e ↦ inl (ground (arith, e))
    | inr e₀ ↦ elim (Option-cases (google.exchange code)) [
      | inl e ↦ inl (ground (arith, e))
      | inr (t, e₁) ↦ elim (Option-cases (google.user_info t)) [
        | inl e ↦ inl (ground (arith, e₁, e))
        | inr (body, e₂) ↦ elim (Option-cases (google.decode_email body)) [
          | inl e ↦ inl (ground (arith, e₁, e₂, e))
          | inr (user, e₃) ↦ elim (Option-cases (google.sign user (google.now + 3600))) [
            | inl e ↦ inl (ground (arith, e₁, e₂, e₃, e))
            | inr (token, e) ↦ elim (finish_either state token s) [
              | inl kept ↦ inl (ground (arith, e₀, e₁, e₂, e₃, e, kept))
              | inr (uid, named, set) ↦
                  inr (uid, token, named, ground (arith, e₀, e₁, e₂, e₃, e, set))
            ]
          ]
        ]
      ]
    ]
  ]

  -- The token of a user is in the store, for a time to come.
  abbrev pub Held : Bytes → Bytes → ℕ → Store → Type 0
  Held uid token n s = (value (token_key uid) s ≡ some token) × (n < left (token_key uid) s)

  module _ (laws : IsKeyStore redis) (uid token : Bytes) (n : ℕ) where
    set-Held :
        (k v : Bytes) (t : ℕ) (s : Store)
        → k ≢ token_key uid
        → Held uid token n s
        → Held uid token n (set_key k v t s).1
    set-Held k v t s ne h = ground (
      arith,
      h,
      laws.set_keeps k (token_key uid) v t s ne,
      laws.set_left k (token_key uid) v t s ne,
    )

    get-Held : (k : Bytes) (s : Store) → Held uid token n s → Held uid token n (get_key k s).1
    get-Held k s h =
        ground (arith, h, laws.get_keeps k (token_key uid) s, laws.get_left k (token_key uid) s)

    elapse-Held : (g : ℕ) (s : Store) → Held uid token (g + n) s → Held uid token n (elapse g s)
    elapse-Held g s h =
        ground
          (arith, h, laws.elapse_keeps (token_key uid) g s, laws.elapse_left (token_key uid) g s)

    generate-Held :
        (s : Store) → Held uid token n s → Held uid token n (perform redis generate_id s)
    generate-Held s h = elim (generate_lem redis laws s) [
      | inl e ↦ subst (Held uid token n) (sym e) (incr-Held s h)
      | inr (i, e) ↦ subst (Held uid token n) (sym e) (
          set-Held (status_key (decimal i)) (bytes "created") ten_minutes _
            (λ same. token_key-ne-status_key uid (decimal i) (sym same)) (incr-Held s h))
    ]
      where
        incr-Held :
            (s : Store) → Held uid token n s → Held uid token n (incr (bytes "user_id_counter") s).1
        incr-Held s h =
            let ne = counter-ne-token_key uid in
            ground (
              arith,
              h,
              laws.incr_keeps (bytes "user_id_counter") (token_key uid) s ne,
              laws.incr_left (bytes "user_id_counter") (token_key uid) s ne,
            )

    at_once : {s : Store} → Held uid token (0 + n) s → Held uid token n s
    at_once h = ground (arith, h)

    perform-Held :
        (o : Operation) (s : Store)
        → Spares uid o
        → Held uid token (spent o + n) s
        → Held uid token n (perform redis o s)
    unfolding spent Spares handle_google_login handle_is_ready handle_fetch_token
        handle_verify_token
    perform-Held generate_id s ok h = generate-Held s (at_once h)
    perform-Held (login google []) s ok h = at_once h
    perform-Held (login google (c ∷ cs)) s ok h =
        set-Held (status_key (c ∷ cs)) (bytes "started") ten_minutes s
          (λ same. token_key-ne-status_key uid (c ∷ cs) (sym same)) (at_once h)
    perform-Held (callback google code state) s ok h = elim (callback_either google code state s) [
      | inl e ↦ subst (Held uid token n) (sym e) (at_once h)
      | inr (other, v, named, e) ↦ subst (Held uid token n) (sym e) (
          set-Held (token_key other) v ten_minutes s
            (λ same. ok (named ∙ ap (◌++◌ (bytes "state-")) (token_key-injective other uid same)))
            (at_once h))
    ]
    perform-Held (is_ready []) s ok h = at_once h
    perform-Held (is_ready (c ∷ cs)) s ok h = get-Held (status_key (c ∷ cs)) s (at_once h)
    perform-Held (verify_token google authorization) s ok h = ground (arith, at_once h)
    perform-Held (fetch_token []) s ok h = at_once h
    perform-Held (fetch_token (c ∷ cs)) s ok h = get-Held (token_key (c ∷ cs)) s (at_once h)
    perform-Held (pass ms) s ok h = elapse-Held ms s h

  pub perform_all-Held :
      (laws : IsKeyStore redis) (uid token : Bytes) (os : List Operation) (n : ℕ) (s : Store)
      → All (Spares uid) os
      → Held uid token (time os + n) s
      → Held uid token n (perform_all redis os s)
  unfolding time
  perform_all-Held laws uid token [] n s all h = at_once laws uid token n h
  perform_all-Held laws uid token (o ∷ os) n s (ok, all) h =
      perform_all-Held laws uid token os n (perform redis o s) all
        (perform-Held laws uid token (time os + n) o s ok (ground (arith, h)))
