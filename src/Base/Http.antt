-- ===== src/Base/Http.antt =====
-- What package net/http does with the writes of a handler: the first status stands, and a body that
-- comes before any status sets 200.
use Prim.Native.Nat.{ℕ}
use mathlib.Core.List.{List, [], ◌∷◌, ◌++◌}
use mathlib.Core.Option.{Option, none, some}
use distributed_messaging_sy.Base.Text.{Bytes, bytes}

pub record Response : Type 0 where
  pub status : Option ℕ
  pub content_type : Bytes
  pub headers : List (Bytes × Bytes)  -- headers added besides
  pub body : Bytes

abbrev pub unwritten : Response
unwritten = record { status = none; content_type = []; headers = []; body = [] }

abbrev first_status : Option ℕ → ℕ → Option ℕ
first_status none code = some code
first_status (some c) code = some c

-- A header set after the status is not sent.
abbrev if_unsent : Option ℕ → Bytes → Bytes → Bytes
if_unsent none old new = new
if_unsent (some _) old new = old

abbrev pub set_content_type : Bytes → Response → Response
set_content_type t r = record r { content_type = if_unsent r.status r.content_type t }

abbrev if_unsent_all : Option ℕ → List (Bytes × Bytes) → List (Bytes × Bytes) → List (Bytes × Bytes)
if_unsent_all none old new = new
if_unsent_all (some _) old new = old

abbrev pub add_headers : List (Bytes × Bytes) → Response → Response
add_headers hs r = record r { headers = if_unsent_all r.status r.headers (r.headers ++ hs) }

abbrev pub write_header : ℕ → Response → Response
write_header code r = record r { status = first_status r.status code }

abbrev pub write : Bytes → Response → Response
write b r = record r { status = first_status r.status 200; body = r.body ++ b }

-- `http.Error(w, message, code)`, which ends the message with a line feed
abbrev pub http_error : Bytes → ℕ → Response → Response
http_error message code r =
    write (message ++ b'\n' ∷ [])
      (write_header code (set_content_type (bytes "text/plain; charset=utf-8") r))

-- `http.Redirect(w, r, url, code)`, without the short page that it writes for a browser of old
abbrev pub redirect : Bytes → ℕ → Response → Response
redirect url code r = write_header code (add_headers ((bytes "Location", url) ∷ []) r)
