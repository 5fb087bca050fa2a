-- ===== src/Client.antt =====
-- main.go: the command-line client, from the login to the submission of a task. What it prints is left
-- out, and so is the browser that it opens. A form is sent and read back as it is, which package net/url
-- documents. Texts are taken to be ASCII where the client trims them or changes their case.
pub mod Submitting
pub mod Verified
pub mod LoggedIn
use distributed_messaging_sy.Base.{
  ℕ, zero, suc, ◌+◌, ◌==◌, Bool, true, false, not, ◌&&◌, ◌||◌, leb, is_empty, bytes_eq,
  if◌then◌else◌, map, Bytes, bytes, List, [], ◌∷◌, ◌++◌, Option, none, some, Go, Outcome, pure,
  ◌>>=◌, ◌>>◌, modify,
}
use distributed_messaging_sy.Balancer.{Reply}
use distributed_messaging_sy.Gateway.Submit.{Submission}

-- `unicode.IsSpace` on ASCII
abbrev is_space : ℕ → Bool
is_space c = c == 32 || (leb 9 c && leb c 13)

unfoldable pub trim_left : Bytes → Bytes
trim_left [] = []
trim_left (c ∷ s) = let rest = trim_left s in if is_space c then rest else c ∷ s

unfoldable pub trim_right : Bytes → Bytes
trim_right [] = []
trim_right (c ∷ s) = let rest = trim_right s in if is_empty rest && is_space c then [] else c ∷ rest

-- `strings.TrimSpace`
unfoldable pub trim_space : Bytes → Bytes
unfolding trim_left trim_right
trim_space s = trim_right (trim_left s)

-- `strings.ToLower`
unfoldable pub to_lower : Bytes → Bytes
to_lower = map (λ c. if leb 65 c && leb c 90 then c + 32 else c)

-- What the user types, a line each
pub record Answers : Type 0 where
  pub token : Bytes
  pub task : Bytes
  pub routing_key : Bytes
  pub headers : Bytes
  pub fail : Bytes
  pub retry : Bytes
  pub broadcast : Bytes

abbrev pub pasted : Answers → Bytes
pasted a = trim_space a.token

abbrev pub flag : Bool → Bytes
flag true = bytes "1"
flag false = bytes "0"

abbrev pub says_fail : Bytes → Bool
says_fail input = bytes_eq input (bytes "yes") || bytes_eq input (bytes "y")

-- The form and the headers of the POST to /submit-task
unfoldable pub submission_of : Answers → Submission
submission_of a = record {
  method = bytes "POST";
  authorization = bytes "Bearer " ++ pasted a;
  task = trim_space a.task;
  routing_key = trim_space a.routing_key;
  headers_json = trim_space a.headers;
  fail = flag (says_fail (to_lower (trim_space a.fail)));
  retry = flag (bytes_eq (trim_space (to_lower a.retry)) (bytes "yes"));
  broadcast = to_lower (trim_space a.broadcast);
}

-- What the client asks of the servers
pub data Asked : Type 0 where
  get : (url : Bytes) → Asked
  verify : (authorization : Bytes) → Asked
  submit : Submission → Asked
  sleep : (milliseconds : ℕ) → Asked

-- The servers' answers, as any function of what was asked before, newest first
pub record Web : Type 0 where
  pub answer : List Asked → Asked → Option Reply
  pub decode_id : Bytes → Bytes  -- the `UserID` that the decoder leaves

pub data Ending : Type 0 where
  no_server : Ending  -- the first request failed
  polling : Ending  -- the rounds are used up
  exited : Ending  -- `os.Exit(1)`
  finished : Reply → Ending

abbrev pub Act {ℓ} : Type ℓ → Type ℓ
Act A = Go (List Asked) A

-- The token in an answer of /fetch-token: empty if there is none yet
abbrev pub token_in : Option Reply → Bytes
token_in none = []
token_in (some r) = if r.status == 200 then r.body else []

-- Whether the authentication server found the token valid
abbrev pub is_verified : Option Reply → Bool
is_verified none = false
is_verified (some r) = r.status == 200

module _ (web : Web) where
  abbrev ask : Asked → Act (Option Reply)
  ask q s = (Outcome.returns (web.answer s q), q ∷ s)

  -- The endless loop that polls for the token, for some rounds: whether it got one
  unfoldable pub poll : ℕ → Bytes → Act Bool
  poll zero user_id = pure false
  poll (suc n) user_id =
      let rest = poll n user_id in
      do
        reply ← ask (get (bytes "http://localhost:9000/fetch-token?userId=" ++ user_id))
        if is_empty (token_in reply) then (do modify (λ s. sleep 2000 ∷ s); rest) else pure true

  -- From the pasted token on
  unfoldable pub verify_and_submit : Answers → Act Ending
  verify_and_submit a = do
    reply ← ask (verify (bytes "Bearer " ++ pasted a))
    if is_verified reply
        then (do
          sent ← ask (submit (submission_of a))
          pure (elim sent [ none ↦ exited | some r ↦ finished r ]))
        else pure exited

  -- `main`, with the rounds of its polling
  unfoldable pub client_main : ℕ → Answers → Act Ending
  unfolding poll verify_and_submit
  client_main rounds a = do
    reply ← ask (get (bytes "http://localhost:9000/generate-id"))
    elim reply [
      | none ↦ pure no_server
      | some r ↦ do
        ready ← poll rounds (web.decode_id r.body)
        if ready then verify_and_submit a else pure polling
    ]
