-- ===== src/Examples/Logs.antt =====
-- Runs of the projection of logs.
use poulpy_eth_pir_demo.Base.{◌≡◌, refl, none, some, List, [], ◌∷◌, if◌then◌else◌}
use poulpy_eth_pir_demo.Base.Equality.{byte_list_eq, bytes_eq}
use poulpy_eth_pir_demo.Base.Table
use poulpy_eth_pir_demo.Tokens.{usdt_token, usdc_token, transfer, issue}
use poulpy_eth_pir_demo.Chain.Events.{Log, collect_touched}
use poulpy_eth_pir_demo.Chain.Events.Words.{word_of, IsHolder}
use poulpy_eth_pir_demo.Chain.Events.Names.{collect_touched-last_seen, named_by_any, last_seen}
use poulpy_eth_pir_demo.Chain.Events.Supply.{
  collect_touched-supply_blocks, Increasing, elem, supply_event_at,
}
use poulpy_eth_pir_demo.Examples.Records.{alice, bob}

abbrev some_logs : List Log
some_logs =
    record {
      address = usdt_token;
      topics = transfer ∷ word_of alice ∷ word_of bob ∷ [];
      payload = 1 ∷ [];
      block_number = some 40;
    }
    ∷ record { address = usdt_token; topics = issue ∷ []; payload = 1 ∷ []; block_number = some 39 }
    ∷ record {
      address = usdc_token;
      topics = transfer ∷ word_of bob ∷ word_of alice ∷ [];
      payload = 2 ∷ [];
      block_number = some 38;
    }
    ∷ []

pub alice-IsHolder : IsHolder alice
unfolding bytes_eq
alice-IsHolder = record { size = refl; nonzero = refl }

collect_touched-last_seen_example : Table.get alice (collect_touched some_logs []).0 ≡ (
    if named_by_any alice some_logs
    then some (record {
      usdt = last_seen alice usdt_token some_logs;
      usdc = last_seen alice usdc_token some_logs;
    })
    else none)
collect_touched-last_seen_example = collect_touched-last_seen alice alice-IsHolder some_logs

collect_touched-supply_blocks_example :
    let blocks = (collect_touched some_logs []).1.usdt_supply_blocks in
    Increasing blocks × (elem 39 blocks ≡ supply_event_at 39 some_logs)
collect_touched-supply_blocks_example = collect_touched-supply_blocks some_logs [] 39
