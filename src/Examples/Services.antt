-- ===== src/Examples/Services.antt =====
-- Runs of the client, the HTTP endpoint and the PIR thread.
use poulpy_eth_pir_demo.Base.{
  ℕ, ◌+◌, ◌-◌, ◌≡◌, ◌≤◌, refl, true, none, some, List, [], ◌∷◌, length, replicate, arith,
}
use poulpy_eth_pir_demo.Base.Run.{Result, ok, err}
use poulpy_eth_pir_demo.Tokens.{Address}
use poulpy_eth_pir_demo.Snapshot.{ErrorKind}
use poulpy_eth_pir_demo.Http.Batch.{
  BatchConfig, Job, Receiver, Polled, ready, disconnected, Answer, answer, collect,
}
use poulpy_eth_pir_demo.Http.Batch.Size.{
  IsGrown, collect-IsGrown, answer-replied, replied, replies_of,
}
use poulpy_eth_pir_demo.Http.Limit.{Floats, max_tracked, check_at}
use poulpy_eth_pir_demo.Http.Limit.Room.{check_at_le}
use poulpy_eth_pir_demo.Publish.Store.{
  KeywordCheckpoint, Files, Loaded, index_file, load, save_keys, save_index,
}
use poulpy_eth_pir_demo.Publish.Store.RoundTrip.{IsStorable, load-save_checkpoint}
use poulpy_eth_pir_demo.Publish.Worker.{Server, PirConfig, Worker, serve_round}
use poulpy_eth_pir_demo.Publish.Current.{UpdateBatch}
use poulpy_eth_pir_demo.Publish.Worker.{absorb}
use poulpy_eth_pir_demo.Base.Table
use poulpy_eth_pir_demo.Base.Equality.{byte_list_eq}
use poulpy_eth_pir_demo.Publish.Worker.Absorbed.{get-absorb, taken, offered}
use poulpy_eth_pir_demo.Publish.Worker.Served.{IsServed, serve_round-IsServed}
use poulpy_eth_pir_demo.Client.{
  Pir, unknown_query, Client, query, decode, resync, report_of, parse_address, address_body, all,
  is_ascii_hexdigit, any, or_bad_address,
}
use poulpy_eth_pir_demo.Client.Pending.{decode-query, resync-decode}
use poulpy_eth_pir_demo.Examples.Records.{alice, some_entry}

abbrev job : ℕ → Job
job n = record { query = n ∷ []; reply = n }

-- Jobs that wait, and then every sender is gone.
abbrev queued : Receiver
queued = record {
  State = List Job;
  try_recv = poll;
  recv_until = λ deadline s. (none, s);
  now = λ s. 0;
}
  where
    poll : List Job → Polled × List Job
    poll [] = (disconnected, [])
    poll (j ∷ js) = (ready j, js)

abbrev pairs : BatchConfig
pairs = record { window = 1000; max_queries = 2; queue_depth = 4 }

collect-IsGrown_example :
    IsGrown queued 2 (job 1 ∷ []) (collect queued pairs (job 1) (job 2 ∷ job 3 ∷ [])).0
collect-IsGrown_example = collect-IsGrown queued pairs (job 1) (job 2 ∷ job 3 ∷ [])

-- A responder that echoes.
abbrev echo : List (List ℕ) → List Answer
echo [] = []
echo (q ∷ qs) = ok q ∷ echo qs

abbrev echo_all : List (List ℕ) → Result (List ℕ) (List Answer)
echo_all qs = ok (echo qs)

length-echo : (qs : List (List ℕ)) → length (echo qs) ≡ length qs
length-echo [] = refl
length-echo (q ∷ qs) = ground (arith, length-echo qs)

echo_total :
    (queries : List (List ℕ)) (results : List Answer)
    → echo_all queries ≡ ok results
    → length results ≡ length queries
echo_total queries results h = ground (arith, length-echo queries)

answer-replied_example :
    replied (answer echo_all (job 1 ∷ job 2 ∷ [])) ≡ replies_of (job 1 ∷ job 2 ∷ [])
answer-replied_example = answer-replied echo_all (job 1 ∷ job 2 ∷ []) echo_total

-- Whole tokens, one a second.
abbrev whole : Floats
whole = record {
  F = ℕ;
  of_nat = λ n. n;
  per_second = λ n. 1;
  refilled = λ tokens ms rate burst. burst;
  has_token = λ n. true;
  spend = λ n. n - 1;
  wait_for = λ n rate. 1000;
}

check_at_le_example :
    length (check_at whole (record { per_minute = 60; burst = 3 }) alice 5 []).1 ≤ max_tracked
check_at_le_example =
    check_at_le whole (record { per_minute = 60; burst = 3 }) alice 5 [] (omega arith)

-- The blob's first byte is its version.
abbrev pub first_byte : List ℕ → Result ErrorKind ℕ
first_byte [] = err ErrorKind.other
first_byte (b ∷ bs) = ok b

abbrev checkpoint : KeywordCheckpoint
checkpoint = record { directory = 3 ∷ 8 ∷ []; keys = alice ∷ []; version = 3 }

checkpoint-IsStorable : IsStorable checkpoint
checkpoint-IsStorable = record {
  directory_fits = omega arith;
  version_fits = omega arith;
  count_fits = omega arith;
  keys_fit = (refl, tt);
}

abbrev old_files : Files
old_files = record { index = some (index_file (2 ∷ [])); keys = none }

load-save_checkpoint_example :
    let half = save_keys checkpoint old_files in
    let loaded : List ℕ → Loaded =
      λ directory. record { directory = directory; keys = alice ∷ []; version = 3 } in
    (load first_byte half ≡ ok none)
    × (load first_byte (save_index (3 ∷ 8 ∷ []) half) ≡ ok (some (loaded (3 ∷ 8 ∷ []))))
    × (load first_byte (save_index (3 ∷ 8 ∷ 9 ∷ []) (save_index (3 ∷ 8 ∷ []) half))
        ≡ ok (some (loaded (3 ∷ 8 ∷ 9 ∷ []))))
load-save_checkpoint_example =
    load-save_checkpoint first_byte checkpoint (2 ∷ []) (3 ∷ 8 ∷ 9 ∷ []) 2 old_files
      checkpoint-IsStorable refl (omega arith) refl (omega arith) refl (omega arith) refl

-- A server whose state is its version, and whose blob is that byte.
abbrev pub tiny_server : Server
tiny_server = record {
  State = ℕ;
  init = λ map. some 1;
  restore = λ directory keys map. some 1;
  update = λ addr entry s. (ok tt, s);
  try_rebuild_database = λ s. (ok (some tt), s + 1);
  rebuild_keyword_index_from = λ map s. (ok tt, s + 1);
  server_len = λ s. s;
  checkpoint = λ s. some (record { directory = s ∷ []; keys = []; version = s });
  try_full = λ s. some (s ∷ []);
  mphf_size = λ s. some 1;
  tail_size = λ s. some 48;
  read_from = λ blob. some (record { version = 1; len = 0; mphf_len = 0; delta_len = 0 });
  now = λ s. (0, s);
  can_write_keys = λ s. true;
  can_write_checkpoint = λ s. true;
  can_write_index = λ s. true;
}

abbrev config : PirConfig
config = record { rebuild_every = 30; compact_after = 2; compact_tail_percent = 100 }

abbrev idle : Worker ℕ
idle = record {
  server = 4;
  last_publish = 0;
  len_at_compaction = 0;
  absorbed_since_publish = 0;
  current = [];
  files = record { index = none; keys = none };
  slot = none;
}

serve_round-IsServed_example :
    IsServed tiny_server config idle (serve_round tiny_server config idle)
serve_round-IsServed_example = serve_round-IsServed tiny_server config idle

-- A client whose secret is the address, and whose answers are always the same record.
abbrev tiny_pir : Pir
tiny_pir = record {
  State = ℕ;
  Lookup = Address;
  try_new = λ directory. ok 0;
  version = λ s. s;
  tail_len = λ s. 0;
  slot_of = λ a s. 0;
  try_apply_tail = λ bytes s. (ok tt, s);
  try_resync = λ directory s. (ok tt, s + 1);
  try_query_bytes = λ a s. (ok (5 ∷ [], a), s);
  try_decrypt_bytes = λ bytes lookup s. (ok some_entry, s);
  parse_checksummed = λ text. none;
  parse_hex = λ text. some alice;
  to_checksum = λ a. a;
  error_text = λ e. [];
}

abbrev client : Client tiny_pir
client = record { client = 0; pending = []; next_id = 0 }

-- Forty digits.
abbrev digits : List ℕ
digits = replicate 40 b'7'

decode-query_example :
    let c' = (query tiny_pir digits client).1 in
    ((query tiny_pir digits client).0 ≡ ok (record { id = 0; bytes = 5 ∷ [] }))
    × ((decode tiny_pir 0 (1 ∷ []) c').0 ≡ report_of tiny_pir alice (ok some_entry))
    × ((decode tiny_pir 0 (2 ∷ []) (decode tiny_pir 0 (1 ∷ []) c').1).0 ≡ err (unknown_query 0))
unfolding parse_address address_body all is_ascii_hexdigit any or_bad_address
decode-query_example =
    decode-query tiny_pir digits (5 ∷ []) (1 ∷ []) (2 ∷ []) alice alice 0 client refl refl

resync-decode_example :
    ((resync tiny_pir (3 ∷ []) client).0 ≡ ok tt)
    × ((decode tiny_pir 0 (1 ∷ []) (resync tiny_pir (3 ∷ []) client).1).0 ≡ err (unknown_query 0))
resync-decode_example = resync-decode tiny_pir (3 ∷ []) (1 ∷ []) 0 1 client refl

abbrev batch : UpdateBatch
batch = (alice, some_entry) ∷ []

get-absorb_example :
    Table.get alice (absorb tiny_server config batch idle).current
    ≡ taken tiny_server config alice
        (Table.get alice batch)
        (offered tiny_server config alice batch idle)
        (Table.get alice idle.current)
unfolding Table.get
get-absorb_example = get-absorb tiny_server config batch idle alice (refl, tt)
