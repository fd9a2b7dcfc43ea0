-- ===== src/Chain/Events/Names.antt =====
-- An address is collected exactly if a log names it, with the last block for each token.
use poulpy_eth_pir_demo.Base.{
  ℕ, Bool, true, false, ◌&&◌, ◌||◌, ◌≡◌, refl, ap, ◌∙◌, Option, none, some, List, [], ◌∷◌, length,
  take, leb, if◌then◌else◌, arith, inl, inr, Option-cases, Bool-cases,
}
use poulpy_eth_pir_demo.Base.Equality.{◌==◌, byte_list_eq, bytes_eq, bytes_eq_iff}
use poulpy_eth_pir_demo.Base.Table
use poulpy_eth_pir_demo.Base.Table.{or_default}
use poulpy_eth_pir_demo.Tokens.{
  Address, Hash, usdt_token, usdc_token, transfer, destroyed_black_funds,
}
use poulpy_eth_pir_demo.Chain.Touch.{Touch, no_touch, see, max_block}
use poulpy_eth_pir_demo.Chain.Events.{
  Log, Touched, Collected, addr_from_word, all_zero, touch, touch_word, transfer_is_inert,
  funds_word, funds_address, collect_transfer, collect_destroyed_black_funds, collect_topics,
  collect_log, collect_logs, collect_touched,
}
use poulpy_eth_pir_demo.Chain.Events.Words.{
  word_of, IsHolder, addr_from_word-word_of, addr_from_word-some, word_of-injective,
}

-- The words of a log in which an address counts: the two ends of a transfer that moves something,
-- and the holder whose funds are destroyed.
abbrev pub naming_words : List Hash → List ℕ → List (List ℕ)
naming_words (topic ∷ from ∷ to ∷ []) payload =
    if topic == transfer
    then if all_zero payload || from == to then [] else from ∷ to ∷ []
    else if topic == destroyed_black_funds
    then from ∷ []
    else []
naming_words (topic ∷ word ∷ rest) payload =
    if topic == transfer then [] else if topic == destroyed_black_funds then word ∷ [] else []
naming_words (topic ∷ []) payload =
    if topic == transfer
    then []
    else if topic == destroyed_black_funds
    then if leb 32 (length payload) then take 32 payload ∷ [] else []
    else []
naming_words [] payload = []

abbrev is_one_of : List ℕ → List (List ℕ) → Bool
is_one_of w [] = false
is_one_of w (v ∷ vs) = v == w || is_one_of w vs

-- A log names an address if the address, padded, is one of those words.
abbrev pub names : Address → Log → Bool
names a log = is_one_of (word_of a) (naming_words log.topics log.payload)

abbrev sight : Log → Option Touch → Option Touch
sight log t = some (see log.address log.block_number (or_default no_touch t))

-- The last block of a token's logs that name the address.
abbrev pub last_seen : Address → Address → List Log → Option ℕ
last_seen a token [] = none
last_seen a token (log ∷ rest) =
    max_block (if names a log && log.address == token then log.block_number else none)
      (last_seen a token rest)

abbrev pub named_by_any : Address → List Log → Bool
named_by_any a [] = false
named_by_any a (log ∷ rest) = names a log || named_by_any a rest

module _ (a : Address) where
  -- What is known of the address after each log in turn.
  abbrev sights : List Log → Option Touch → Option Touch
  sights [] t = t
  sights (log ∷ rest) t = sights rest (if names a log then sight log t else t)

  tokens_differ : (x : Address) → (x == usdt_token) ≡ true → (x == usdc_token) ≡ false
  tokens_differ x h = rw ((bytes_eq_iff x usdt_token).0 h) (unfold bytes_eq in refl)

  max_block_assoc : (x y z : Option ℕ) → max_block (max_block x y) z ≡ max_block x (max_block y z)
  unfolding max_block
  max_block_assoc none y z = refl
  max_block_assoc (some x) none z = refl
  max_block_assoc (some x) (some y) none = refl
  max_block_assoc (some x) (some y) (some z) = ap some (omega arith)

  max_block-none : (x : Option ℕ) → max_block x none ≡ x
  unfolding max_block
  max_block-none none = refl
  max_block-none (some x) = refl

  max_block-none_left : (x : Option ℕ) → max_block none x ≡ x
  unfolding max_block
  max_block-none_left x = refl

  see_max :
      (token : Address) (b : Option ℕ) (t : Touch)
      → see token b t ≡ record {
        usdt = max_block t.usdt (if token == usdt_token then b else none);
        usdc = max_block t.usdc (if token == usdc_token then b else none);
      }
  unfolding see
  see_max token b t =
      ground (arith, tokens_differ token, max_block-none t.usdt, max_block-none t.usdc)

  -- From a touch already there.
  sights-some :
      (logs : List Log) (t : Touch)
      → sights logs (some t)
        ≡ some (record {
          usdt = max_block t.usdt (last_seen a usdt_token logs);
          usdc = max_block t.usdc (last_seen a usdc_token logs);
        })
  sights-some [] t = ground (arith, max_block-none t.usdt, max_block-none t.usdc)
  sights-some (log ∷ rest) t = elim (Bool-cases (names a log)) [
    | inl named ↦
        rw (named, see_max log.address log.block_number t)
          (rw (sights-some rest _, max_block_assoc, max_block_assoc))
    | inr other ↦ rw (other, max_block-none_left, max_block-none_left) (sights-some rest t)
  ]

  sights-none :
      (logs : List Log)
      → sights logs none ≡ (
          if named_by_any a logs
          then some
              (record { usdt = last_seen a usdt_token logs; usdc = last_seen a usdc_token logs })
          else none)
  sights-none [] = refl
  sights-none (log ∷ rest) = elim (Bool-cases (names a log)) [
    | inl named ↦
        rw (named, see_max log.address log.block_number no_touch)
          (rw (sights-some rest _, max_block-none_left, max_block-none_left))
    | inr other ↦ rw (other, max_block-none_left, max_block-none_left) (sights-none rest)
  ]

module _ (a : Address) (holder : IsHolder a) where
  get-touch_word :
      (log : Log) (w : List ℕ) (out : Touched)
      → Table.get a (touch_word log w out)
        ≡ (if w == word_of a then sight log (Table.get a out) else Table.get a out)
  unfolding touch_word touch
  get-touch_word log w out = elim (Option-cases (addr_from_word w)) [
    | inl unread ↦ ground (arith, addr_from_word-word_of a holder, bytes_eq_iff w (word_of a))
    | inr (b, read) ↦
        let (holds, word) = addr_from_word-some w b read in
        ground (
          arith,
          bytes_eq_iff w (word_of a),
          bytes_eq_iff b a,
          word_of-injective b a,
          Table.get-insert b a
              (see log.address log.block_number (or_default no_touch (Table.get b out))) out,
        )
  ]

  destroyed-touch_word :
      (log : Log) (topics : List Hash) (out : Touched) (c : Collected) (w : List ℕ)
      → funds_word log topics ≡ some w
      → (collect_destroyed_black_funds log topics out c).0 ≡ touch_word log w out
  unfolding collect_destroyed_black_funds funds_address touch_word
  destroyed-touch_word log topics out c w h = rw (h, collect_destroyed_black_funds) (ground arith)

  destroyed_short :
      (log : Log) (t : Hash) (out : Touched) (c : Collected)
      → leb 32 (length log.payload) ≡ false
      → (collect_destroyed_black_funds log (t ∷ []) out c).0 ≡ out
  unfolding collect_destroyed_black_funds funds_address funds_word
  destroyed_short log t out c h = ground arith

  get-transfer :
      (log : Log) (topic from to : Hash) (out : Touched) (c : Collected)
      → Table.get a (collect_transfer log (topic ∷ from ∷ to ∷ []) out c).0 ≡ (
          if all_zero log.payload || from == to
          then Table.get a out
          else if from == word_of a || (to == word_of a || false)
          then sight log (Table.get a out)
          else Table.get a out)
  unfolding collect_transfer transfer_is_inert
  get-transfer log topic from to out c = ground (
    arith,
    get-touch_word log to (touch_word log from out),
    get-touch_word log from out,
    bytes_eq_iff from to,
    bytes_eq_iff from (word_of a),
    bytes_eq_iff to (word_of a),
  )

  get-collect_topics :
      (topics : List Hash) (log : Log) (out : Touched) (c : Collected)
      → Table.get a (collect_topics topics log out c).0 ≡ (
          if is_one_of (word_of a) (naming_words topics log.payload)
          then sight log (Table.get a out)
          else Table.get a out)
  unfolding collect_topics funds_word
  get-collect_topics [] log out c = refl
  get-collect_topics (t ∷ []) log out c =
      unfold collect_transfer in
      ground (
        arith,
        destroyed-touch_word log (t ∷ []) out c (take 32 log.payload),
        get-touch_word log (take 32 log.payload) out,
        destroyed_short log t out c,
      )
  get-collect_topics (t ∷ w ∷ []) log out c =
      unfold collect_transfer in
      ground (arith, destroyed-touch_word log (t ∷ w ∷ []) out c w, get-touch_word log w out)
  get-collect_topics (t ∷ from ∷ to ∷ []) log out c = ground (
    arith,
    get-transfer log t from to out c,
    destroyed-touch_word log (t ∷ from ∷ to ∷ []) out c from,
    get-touch_word log from out,
  )
  get-collect_topics (t ∷ w ∷ x ∷ y ∷ rest) log out c =
      unfold collect_transfer in
      ground
        (arith, destroyed-touch_word log (t ∷ w ∷ x ∷ y ∷ rest) out c w, get-touch_word log w out)

  get-collect_log :
      (log : Log) (out : Touched) (c : Collected)
      → Table.get a (collect_log log out c).0
        ≡ (if names a log then sight log (Table.get a out) else Table.get a out)
  unfolding collect_log
  get-collect_log log out c = get-collect_topics log.topics log out c

  get-collect_logs :
      (logs : List Log) (out : Touched) (c : Collected)
      → Table.get a (collect_logs logs out c).0 ≡ sights a logs (Table.get a out)
  unfolding collect_logs
  get-collect_logs [] out c = refl
  get-collect_logs (log ∷ rest) out c =
      get-collect_logs rest (collect_log log out c).0 (collect_log log out c).1
      ∙ ap (sights a rest) (get-collect_log log out c)

  -- From no known touch, a holder's address is collected exactly if a log names it, and its touch
  -- has, for each token, the last block among that token's logs that name it.
  pub collect_touched-last_seen :
      (logs : List Log)
      → Table.get a (collect_touched logs []).0 ≡ (
          if named_by_any a logs
          then some
              (record { usdt = last_seen a usdt_token logs; usdc = last_seen a usdc_token logs })
          else none)
  unfolding collect_touched Table.get
  collect_touched-last_seen logs = get-collect_logs logs [] _ ∙ sights-none a logs
