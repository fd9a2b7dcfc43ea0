-- ===== src/Report.antt =====
-- client/src/report.rs: what a client is told of an address, with the JSON and the text of it.
pub mod Read
use poulpy_eth_pir_demo.Base.{ℕ, Bool, true, false, max, List, [], ◌∷◌, ◌++◌, if◌then◌else◌}
use poulpy_eth_pir_demo.Text.{Text, ascii, to_decimal, pad_left}
use poulpy_eth_pir_demo.Record.{Entry, format_units}

pub record TokenBalance : Type 0 where
  pub symbol : Text
  -- Whole units and six places.
  pub amount : Text
  -- Base units.
  pub raw : ℕ
  pub last_change_block : ℕ

pub record Report : Type 0 where
  pub address : Text
  pub held : Bool
  pub usdt : TokenBalance
  pub usdc : TokenBalance

unfoldable pub token_balance : Text → ℕ → ℕ → TokenBalance
token_balance symbol raw block = record {
  symbol = symbol;
  amount = format_units raw;
  raw = raw;
  last_change_block = block;
}

unfoldable pub found : Text → Entry → Report
found address e = record {
  address = address;
  held = true;
  usdt = token_balance (ascii "USDT") e.usdt e.usdt_block;
  usdc = token_balance (ascii "USDC") e.usdc e.usdc_block;
}

unfoldable pub not_held : Text → Report
not_held address = record {
  address = address;
  held = false;
  usdt = token_balance (ascii "USDT") 0 0;
  usdc = token_balance (ascii "USDC") 0 0;
}

unfoldable pub as_of_block : Report → ℕ
as_of_block r = max r.usdt.last_change_block r.usdc.last_change_block

-- `{}` of a boolean.
unfoldable pub bool_text : Bool → Text
bool_text true = ascii "true"
bool_text false = ascii "false"

unfoldable pub to_json : Report → Text
to_json r =
    ascii "{\"address\":\""
    ++ r.address
    ++ (ascii "\",\"held\":" ++ bool_text r.held)
    ++ (ascii ",\"asOfBlock\":" ++ to_decimal (as_of_block r))
    ++ (ascii ",\"usdt\":{\"symbol\":\"USDT\",\"amount\":\"" ++ r.usdt.amount)
    ++ (ascii "\",\"raw\":\"" ++ to_decimal r.usdt.raw)
    ++ (ascii "\",\"lastChangeBlock\":" ++ to_decimal r.usdt.last_change_block)
    ++ (ascii "},\"usdc\":{\"symbol\":\"USDC\",\"amount\":\"" ++ r.usdc.amount)
    ++ (ascii "\",\"raw\":\"" ++ to_decimal r.usdc.raw)
    ++ (ascii "\",\"lastChangeBlock\":" ++ to_decimal r.usdc.last_change_block)
    ++ ascii "}}"

unfoldable pub line_of : Text → TokenBalance → Text
line_of lead b =
    lead
    ++ pad_left 24 b.amount
    ++ (ascii "  (last change at block " ++ to_decimal b.last_change_block)
    ++ ascii ")"

-- `Display`; 10 ends a line.
unfoldable pub report_text : Report → Text
report_text r =
    r.address
    ++ (10 ∷ [])
    ++ (if r.held
        then line_of (ascii "  USDT ") r.usdt ++ (10 ∷ []) ++ line_of (ascii "  USDC ") r.usdc
        else ascii "  holds no USDT or USDC in the served set (as of the server's last rebuild)")
