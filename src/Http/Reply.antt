-- ===== src/Http/Reply.antt =====
-- src/http/response.rs: what the routes answer with. Of a reply's headers only the three that the
-- source sets are kept, by their values.
use poulpy_eth_pir_demo.Base.{ℕ, Option, none, some, List}
use poulpy_eth_pir_demo.Text.{Text, ascii}

pub record Reply : Type 0 where
  pub status : ℕ
  pub content_type : Text
  pub cache_control : Option Text
  -- Seconds.
  pub retry_after : Option ℕ
  pub body : List ℕ

abbrev pub json : Text
json = ascii "application/json"

abbrev pub text : Text
text = ascii "text/plain; charset=utf-8"

abbrev pub octet_stream : Text
octet_stream = ascii "application/octet-stream"

abbrev pub no_store : Text
no_store = ascii "no-store"

unfoldable pub blob : List ℕ → Reply
blob bytes = record {
  status = 200;
  content_type = octet_stream;
  cache_control = some no_store;
  retry_after = none;
  body = bytes;
}

unfoldable pub problem : ℕ → Text → Reply
problem code message = record {
  status = code;
  content_type = text;
  cache_control = none;
  retry_after = none;
  body = message;
}

unfoldable pub unavailable : Reply
unavailable = problem 503 (ascii "directory not built yet")
