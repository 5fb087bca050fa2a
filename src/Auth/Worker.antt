-- ===== src/Auth/Worker.antt =====
-- google_authentication/auth_worker.go: the worker that issues tokens for requests from a queue.
use distributed_messaging_sy.Base.{
  ◌+◌, true, false, Bytes, bytes, List, [], ◌∷◌, Option, none, some, Go, Outcome, pure, ◌>>◌,
}
use distributed_messaging_sy.Amqp.{Env, Delivery, consume, queue_declare}
use distributed_messaging_sy.Amqp.Process.{Act, call_or_exit}
use distributed_messaging_sy.Amqp.Connect.{connect}
use distributed_messaging_sy.Auth.{KeyStore, Google}

-- `main`, up to the start of its goroutine
unfoldable pub start_auth_worker : Env → Act (Unit {0})
start_auth_worker env = do
  connect env
  call_or_exit env (queue_declare (bytes "auth_queue") true false false false [])
  call_or_exit env (consume (bytes "auth_queue") (bytes "auth_worker") true false false false)

module _ (redis : KeyStore) (google : Google) where
  open redis use {Store, set_key}

  -- `issueToken`
  unfoldable pub issue_token : Bytes → Go Store (Unit {0})
  issue_token user s = elim (google.sign user (google.now + 3600)) [
    | none ↦ (Outcome.returns tt, s)
    | some token ↦ (Outcome.returns tt, (set_key user token 300000 s).1)
  ]

  -- `for d := range msgs`, with `json.Unmarshal` of the payload's `userId` as a parameter
  unfoldable pub auth_loop : (Bytes → Option Bytes) → List Delivery → Go Store (Unit {0})
  auth_loop decode_user [] = pure tt
  auth_loop decode_user (d ∷ ds) = do
    elim (decode_user d.body) [ none ↦ pure tt | some user ↦ issue_token user ]
    auth_loop decode_user ds
