-- ===== src/Tokens.antt =====
-- src/tokens.rs: the two tokens and the event topics, as byte strings in network order.
use poulpy_eth_pir_demo.Base.{ℕ, zero, suc, ◌/◌, ◌%◌, List, [], ◌∷◌, ◌++◌}

-- An address is 20 bytes, a hash or a topic 32.
abbrev pub Address : Type 0
Address = List ℕ

abbrev pub Hash : Type 0
Hash = List ℕ

-- The bytes of a literal, highest first.
abbrev to_be_bytes : ℕ → ℕ → List ℕ
to_be_bytes zero v = []
to_be_bytes (suc n) v = to_be_bytes n (v / 256) ++ (v % 256 ∷ [])

abbrev pub usdt_token : Address
usdt_token = to_be_bytes 20 0xdAC17F958D2ee523a2206206994597C13D831ec7

abbrev pub usdc_token : Address
usdc_token = to_be_bytes 20 0xA0b86991c6218b36c1d19D4a2e9Eb0cE3606eB48

abbrev pub multicall : Address
multicall = to_be_bytes 20 0xcA11bde05977b3631167028862bE2a173976CA11

abbrev pub transfer : Hash
transfer = to_be_bytes 32 0xddf252ad1be2c89b69c2b068fc378daa952ba7f163c4a11628f55a4df523b3ef

abbrev pub destroyed_black_funds : Hash
destroyed_black_funds =
    to_be_bytes 32 0x61e6e66b0d6339b2980aecc6ccc0039736791f0ccde9ed512e789a7fbdd698c6

abbrev pub issue : Hash
issue = to_be_bytes 32 0xcb8241adb0c3fdb35b70c24ce35c5eb0c17af7431c99f827d44a445ca624176a

abbrev pub redeem : Hash
redeem = to_be_bytes 32 0x702d5967f45f6513a38ffc42d6ba9bf230bd40e8f53b16363c7eb4fd2deb9a44

abbrev pub supply_topics : List Hash
supply_topics = issue ∷ redeem ∷ []

abbrev pub mainnet_chain_id : ℕ
mainnet_chain_id = 1

abbrev pub tokens : List Address
tokens = usdt_token ∷ usdc_token ∷ []

abbrev pub multicall_deploy_block : ℕ
multicall_deploy_block = 14_353_601
