-- ===== src/Examples/Console.antt =====
-- What a user types into the client.
use distributed_messaging_sy.Base.{
  hexadecimal, arith, returns, write, set_content_type, unwritten, [], ◌≡◌, refl, inl, bytes,
  bytes_eq, Bytes, some,
}
use distributed_messaging_sy.Auth.Page.{token_page}
use distributed_messaging_sy.Auth.Server.{handle_google_callback}
use distributed_messaging_sy.Amqp.Process.{started}
use distributed_messaging_sy.Limiter.{allow}
use distributed_messaging_sy.Shards.{pick_shard}
use distributed_messaging_sy.DeadLetter.RetryChain.{accepting}
use distributed_messaging_sy.Gateway.Routing.{Routes, Publishes}
use distributed_messaging_sy.Gateway.Submit.{
  random_id, Outside, request_of, wait_for_feedback, handle_submit_task,
}
use distributed_messaging_sy.Client.{Answers, trim_space, trim_left, trim_right, submission_of}
use distributed_messaging_sy.Client.{Web, poll, verify_and_submit, client_main}
use distributed_messaging_sy.Client.Verified.{submissions, Verified, client_main-Verified}
use distributed_messaging_sy.Client.LoggedIn.{login-Publishes}
use distributed_messaging_sy.Examples.Authenticating.{
  cache, nothing, google, google-IsSigner, vouched,
}
use distributed_messaging_sy.Examples.Broker.{lossy}
use distributed_messaging_sy.Examples.Limiting.{memory, small, client, one_done}
use distributed_messaging_sy.Examples.Requesting.{site}

abbrev typed : Answers
typed = record {
  token = bytes "t0ken\n";
  task = bytes " resize\n";
  routing_key = bytes "images\n";
  headers = bytes "\n";
  fail = bytes "Y\n";
  retry = bytes "no\n";
  broadcast = bytes "\n";
}

-- A gateway with the secret that the tokens are signed with
abbrev secured : Outside
secured = record site { parse_jwt = google.parse }

login-Publishes_example :
    let a = record typed { token = bytes " jwt:a@b.c\n" } in
    let s = submission_of a in
    let request = request_of s (bytes "amq.gen-1") (bytes "7") in
    let r = handle_submit_task (accepting lossy) secured memory small s (started, one_done) in
    ((handle_google_callback cache google (bytes "c0de") (bytes "state-1") nothing).0
      ≡ returns (
          write
            (token_page (bytes "jwt:a@b.c"))
            (set_content_type (bytes "text/html; charset=utf-8") unwritten)))
    × (shard : Bytes) × (pick_shard (bytes "resize") ≡ some shard)
    × (e : Bytes) × (k : Bytes) × Routes request shard e k
    × Publishes request e k started r.1.0
    × (r.0 ≡ (wait_for_feedback (accepting lossy) secured (bytes "resize") (bytes "7") r.1.0).0)
unfolding bytes trim_space trim_left trim_right bytes_eq allow submission_of random_id hexadecimal
login-Publishes_example =
    login-Publishes lossy secured memory small one_done
      (record typed { token = bytes " jwt:a@b.c\n" }) started cache nothing google google
      (bytes "c0de") client (bytes "jwt:a@b.c") (bytes "1") google-IsSigner (λ t. refl) vouched
      (λ e. cc) (omega arith) refl (λ e. cc) refl (λ e. cc) (inl refl)

-- Every server is up, and every token is found valid.
abbrev helpful : Web
helpful = record {
  answer = λ asked q. some (record { status = 200; headers = []; body = bytes "t0ken" });
  decode_id = λ body. bytes "1";
}

client_main-Verified_example : Verified helpful typed (client_main helpful 3 typed []).1
unfolding client_main poll verify_and_submit submissions bytes
client_main-Verified_example = client_main-Verified helpful typed 3 (λ e. cc)
