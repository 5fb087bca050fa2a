-- ===== src/Client/Verified.antt =====
-- main.go: what the client asks of the servers before it submits.
use std.Path.{subst}
use distributed_messaging_sy.Base.{
  ℕ, ap, sym, ◌∙◌, ◌⊎◌, zero, suc, ◌≡◌, ◌≢◌, refl, Bool, true, false, is_empty, Bytes, bytes, List,
  [], ◌∷◌, ◌++◌, Option-cases, Bool-cases, inl, inr, returns, arith,
}
use distributed_messaging_sy.Gateway.Submit.{Submission}
use distributed_messaging_sy.Client.{
  Answers, submission_of, Asked, get, verify, submit, sleep, Web, token_in, poll, verify_and_submit,
  client_main, is_verified,
}

-- The submissions among some questions, newest first
unfoldable pub submissions : List Asked → List Submission
submissions [] = []
submissions (submit s ∷ qs) = s ∷ submissions qs
submissions (_ ∷ qs) = submissions qs

-- The newest question is a submission, the one before it a verification of the token in it that the
-- server answered with status 200, and there is no submission before.
abbrev pub Verified : Web → Answers → List Asked → Type 0
Verified web a qs =
    (h : List Asked) × (qs ≡ submit (submission_of a) ∷ verify (submission_of a).authorization ∷ h)
    × (submissions h ≡ [])
    × (is_verified (web.answer h (verify (submission_of a).authorization)) ≡ true)

module _ (web : Web) (a : Answers) where
  poll_lem :
      (n : ℕ) (user_id : Bytes) (qs : List Asked)
      → (ready : Bool) × ((poll web n user_id qs).0 ≡ returns ready)
        × (submissions (poll web n user_id qs).1 ≡ submissions qs)
  unfolding poll submissions
  poll_lem zero user_id qs = (false, refl, refl)
  poll_lem (suc n) user_id qs =
      let q = get (bytes "http://localhost:9000/fetch-token?userId=" ++ user_id) in
      let (later, e, kept) = poll_lem n user_id (sleep 2000 ∷ q ∷ qs) in
      elim (Bool-cases (is_empty (token_in (web.answer qs q)))) [
        | inl unready ↦ (later, ground (arith, unready, e), ground (arith, unready, kept))
        | inr ready ↦ (true, ground (arith, ready), ground (arith, ready))
      ]

  verify_lem :
      (qs : List Asked)
      → submissions qs ≡ []
      → submissions (verify_and_submit web a qs).1 ≢ []
      → Verified web a (verify_and_submit web a qs).1
  unfolding verify_and_submit submissions submission_of
  verify_lem qs none_before some_after =
      let q = verify (submission_of a).authorization in
      elim (Bool-cases (is_verified (web.answer qs q))) [
        | inl up ↦ (qs, ground (arith, up), none_before, up)
        | inr down ↦ absurd (some_after (ground (arith, down, none_before)))
      ]

  -- A run submits nothing, or comes to the pasted token without a submission before.
  main_lem :
      (rounds : ℕ)
      → (submissions (client_main web rounds a []).1 ≡ [])
        ⊎ ((qs : List Asked) × (submissions qs ≡ [])
            × ((client_main web rounds a []).1 ≡ (verify_and_submit web a qs).1))
  unfolding client_main submissions
  main_lem rounds =
      let q = get (bytes "http://localhost:9000/generate-id") in
      elim (Option-cases (web.answer [] q)) [
        | inl e ↦ inl (ground (arith, e))
        | inr (r, e) ↦
            let (ready, back, kept) = poll_lem rounds (web.decode_id r.body) (q ∷ []) in
            elim (Bool-cases ready) [
              | inl got ↦ inr (
                (poll web rounds (web.decode_id r.body) (q ∷ [])).1,
                kept,
                ground (arith, e, back, got),
              )
              | inr not_yet ↦ inl (ground (arith, e, back, not_yet, kept))
            ]
      ]

-- However the servers answer, and for however many rounds the client polls: if it submits anything, it
-- submits once, as the last thing it does, and right before that the authentication server answered
-- with status 200 to the header that the submission carries.
pub client_main-Verified :
    (web : Web) (a : Answers) (rounds : ℕ)
    → submissions (client_main web rounds a []).1 ≢ []
    → Verified web a (client_main web rounds a []).1
client_main-Verified web a rounds some_after = elim (main_lem web a rounds) [
  | inl e ↦ absurd (some_after e)
  | inr (qs, none_before, e) ↦
      subst (Verified web a) (sym e)
        (verify_lem web a qs none_before (λ nothing. some_after (ap submissions e ∙ nothing)))
]
