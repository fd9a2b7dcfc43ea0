-- ===== src/Http/Limit.antt =====
-- src/http/limit.rs: the limit on one client's queries. Time and tokens are binary floating-point
-- numbers in the source, so their type and their arithmetic are parameters. Instants are numbers
-- of milliseconds. A lock that is poisoned is not modelled.
pub mod Room
use poulpy_eth_pir_demo.Base.{
  ℕ, ◌+◌, ◌-◌, max, Bool, true, false, ◌||◌, Option, none, some, List, [], ◌∷◌, length, ltb,
  if◌then◌else◌,
}
use poulpy_eth_pir_demo.Base.Equality.{byte_list_eq}
use poulpy_eth_pir_demo.Base.Table
use poulpy_eth_pir_demo.Base.Table.{Table, or_default}
use poulpy_eth_pir_demo.Base.Run.{Result, ok, err}

pub record RateLimit : Type 0 where
  pub per_minute : ℕ
  pub burst : ℕ

abbrev pub IpAddr : Type 0
IpAddr = List ℕ

pub record Floats : Type 1 where
  pub F : Type 0
  pub of_nat : ℕ → F
  pub per_second : ℕ → F
  -- The tokens after so many milliseconds at a rate, no more than the burst.
  pub refilled : F → ℕ → F → F → F
  pub has_token : F → Bool
  pub spend : F → F
  -- How long until a token is there.
  pub wait_for : F → F → ℕ

abbrev pub max_tracked : ℕ
max_tracked = 100000

abbrev pub idle_evict : ℕ
idle_evict = 600000

unfoldable pub enabled : RateLimit → Bool
enabled limit = ltb 0 limit.per_minute

module _ (floats : Floats) where
  open floats use {F, of_nat, per_second, refilled, has_token, spend, wait_for}

  pub record Bucket : Type 0 where
    pub tokens : F
    pub last : ℕ

  abbrev pub Clients : Type 0
  Clients = Table IpAddr Bucket

  -- `duration_since` stops at 0.
  unfoldable pub retain_recent : ℕ → Clients → Clients
  retain_recent now [] = []
  retain_recent now ((ip, b) ∷ rest) =
      let kept = retain_recent now rest in
      if ltb (now - b.last) idle_evict then (ip, b) ∷ kept else kept

  -- The error is the time to wait.
  unfoldable pub make_room : IpAddr → ℕ → Clients → Result ℕ (Unit {0}) × Clients
  make_room client now clients =
      let kept = retain_recent now clients in
      if Table.contains_key client clients || ltb (length clients) max_tracked
      then (ok tt, clients)
      else if ltb (length kept) max_tracked
      then (ok tt, kept)
      else (err 1000, kept)

  abbrev pub fresh_bucket : F → ℕ → Bucket
  fresh_bucket burst now = record { tokens = burst; last = now }

  unfoldable pub refill : RateLimit → ℕ → Bucket → Bucket
  refill limit now b = record {
    tokens =
        refilled b.tokens (now - b.last) (per_second limit.per_minute) (of_nat (max limit.burst 1));
    last = now;
  }

  unfoldable pub spend_token : RateLimit → IpAddr → Bucket → Clients → Result ℕ (Unit {0}) × Clients
  spend_token limit client b clients =
      if has_token b.tokens
      then (ok tt, Table.insert client (record b { tokens = spend b.tokens }) clients)
      else (err (wait_for b.tokens (per_second limit.per_minute)), Table.insert client b clients)

  unfoldable pub check_admitted :
      RateLimit → IpAddr → ℕ → Result ℕ (Unit {0}) × Clients → Result ℕ (Unit {0}) × Clients
  check_admitted limit client now (err wait, clients) = (err wait, clients)
  check_admitted limit client now (ok t, clients) =
      let b =
        or_default (fresh_bucket (of_nat (max limit.burst 1)) now) (Table.get client clients) in
      spend_token limit client (refill limit now b) clients

  unfoldable pub check_at : RateLimit → IpAddr → ℕ → Clients → Result ℕ (Unit {0}) × Clients
  check_at limit client now clients =
      if enabled limit
      then check_admitted limit client now (make_room client now clients)
      else (ok tt, clients)
