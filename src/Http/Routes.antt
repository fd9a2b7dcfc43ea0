-- ===== src/Http/Routes.antt =====
-- src/http/mod.rs: the four routes and the checks before the endpoint opens. The slot that holds
-- the directory is `none` if its lock is poisoned. The writing of a tail belongs to poulpy-pir, and
-- what a query is answered to the batcher: both are parameters. The router and the listener are
-- glue over axum.
pub mod Burst
pub mod Read
use poulpy_eth_pir_demo.Base.{
  ℕ, ◌+◌, ◌/◌, max, Bool, Option, none, some, List, [], ◌∷◌, ◌++◌, length, nat_eq, leb,
  if◌then◌else◌,
}
use poulpy_eth_pir_demo.Base.Run.{Result, ok, err}
use poulpy_eth_pir_demo.Text.{Text, ascii, to_decimal}
use poulpy_eth_pir_demo.Progress
use poulpy_eth_pir_demo.Progress.{Progress, Sample}
use poulpy_eth_pir_demo.Publish.Directory.{Directory, Parsed}
use poulpy_eth_pir_demo.Http.Batch.{BatchConfig, Rejected, overloaded, stopped, Answer}
use poulpy_eth_pir_demo.Http.Limit.{RateLimit, IpAddr, Floats, Clients, check_at}
use poulpy_eth_pir_demo.Http.Query.{parse_from}
use poulpy_eth_pir_demo.Http.Reply.{Reply, json, text, no_store, blob, problem, unavailable}

-- The first check that fails is reported.
unfoldable pub bind_checks : BatchConfig → RateLimit → Result Text (Unit {0})
bind_checks batch rate =
    if leb 1 batch.max_queries
    then if leb 1 batch.queue_depth
      then if leb 1 rate.burst then ok tt else err (ascii "--rate-burst must be at least 1")
      else err (ascii "--queue-depth must be at least 1")
    else err (ascii "--max-batch must be at least 1")

unfoldable pub age_text : Option ℕ → Text
age_text none = ascii "null"
age_text (some a) = to_decimal a

unfoldable pub status_body : Directory → Sample → Text
status_body dir chain =
    ascii "{\"version\":"
    ++ to_decimal dir.version
    ++ (ascii ",\"len\":" ++ to_decimal dir.len)
    ++ (ascii ",\"mphfLen\":" ++ to_decimal dir.mphf_len)
    ++ (ascii ",\"tailLen\":" ++ to_decimal dir.tail_len)
    ++ (ascii ",\"directoryBytes\":" ++ to_decimal (length dir.full))
    ++ (ascii ",\"mphfBytes\":" ++ to_decimal dir.mphf_bytes)
    ++ (ascii ",\"tailBytes\":" ++ to_decimal dir.tail_bytes)
    ++ (ascii ",\"cursor\":" ++ to_decimal chain.cursor)
    ++ (ascii ",\"tip\":" ++ to_decimal chain.tip)
    ++ (ascii ",\"lagBlocks\":" ++ to_decimal chain.lag_blocks)
    ++ (ascii ",\"lastSyncAgeSecs\":" ++ age_text chain.age_secs)
    ++ ascii "}"

unfoldable pub status : ℕ → Progress → Option Directory → Reply
status now progress none = unavailable
status now progress (some dir) = record {
  status = 200;
  content_type = json;
  cache_control = some no_store;
  retry_after = none;
  body = status_body dir (Progress.sample now progress);
}

unfoldable pub full_directory : Option Directory → Reply
full_directory none = unavailable
full_directory (some dir) = blob dir.full

module _ (write_tail : Parsed → ℕ → Result Text (List ℕ)) where
  unfoldable pub tail_from : Directory → Option ℕ → Reply
  tail_from dir none = problem 400 (ascii "from must be a whole number")
  tail_from dir (some from) = elim (write_tail dir.parsed from) [
    | ok bytes ↦ blob bytes
    | err e ↦ problem 400 (ascii "tail: " ++ e)
  ]

  unfoldable pub tail : Option Text → Option Directory → Reply
  tail raw none = unavailable
  tail raw (some dir) = tail_from dir (parse_from raw)

unfoldable pub message : Rejected → Text
message overloaded = ascii "server is at capacity; retry shortly"
message stopped = ascii "query service is not running"

-- A time to wait is a number of milliseconds, and rounded up to seconds.
unfoldable pub too_many : ℕ → Reply
too_many wait =
    let secs = max ((wait + 999) / 1000) 1 in
    record {
      status = 429;
      content_type = text;
      cache_control = none;
      retry_after = some secs;
      body = ascii "rate limit reached; retry in " ++ to_decimal secs ++ (b's' ∷ 10 ∷ []);
    }

unfoldable pub respond : Result Rejected Answer → Reply
respond (ok (ok bytes)) = blob bytes
respond (ok (err e)) = problem 400 (ascii "query rejected: " ++ e)
respond (err rejected) = problem 503 (message rejected)

module _ (floats : Floats) (submit : List ℕ → Result Rejected Answer) where
  unfoldable pub submit_checked :
      List ℕ → Result ℕ (Unit {0}) × Clients floats → Reply × Clients floats
  submit_checked body (err wait, clients) = (too_many wait, clients)
  submit_checked body (ok t, clients) = (respond (submit body), clients)

  unfoldable pub query : RateLimit → List ℕ → IpAddr → ℕ → Clients floats → Reply × Clients floats
  query limit body peer now clients =
      if nat_eq (length body) 0
      then (problem 400 (ascii "empty query"), clients)
      else submit_checked body (check_at floats limit peer now clients)
