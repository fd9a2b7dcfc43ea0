-- ===== src/Chain/Rpc/Exact.antt =====
-- Reading balances from a node that answers with what they are.
use poulpy_eth_pir_demo.Base.{
  ℕ, zero, suc, ◌≤◌, Bool, true, false, ◌||◌, ◌≡◌, refl, ap, ◌∙◌, ◌⊎◌, inl, inr, none, some, List,
  [], ◌∷◌, length, take, drop, if◌then◌else◌, arith, Bool-cases, length-drop,
}
use poulpy_eth_pir_demo.Base.Equality.{◌==◌, byte_list_eq, bytes_eq_iff}
use poulpy_eth_pir_demo.Base.Table
use poulpy_eth_pir_demo.Base.Table.{Table, Unique}
use poulpy_eth_pir_demo.Base.Run.{Result, ok, err, and_then, lift}
use poulpy_eth_pir_demo.Tokens.{Address}
use poulpy_eth_pir_demo.Balances.{Reading}
use poulpy_eth_pir_demo.Chain.Node.{Node, Fault, Message, CallResult, of_rpc}
use poulpy_eth_pir_demo.Chain.Rpc.{
  addresses_per_multicall, from_be_bytes, decode_balance, insert_pairs, insert_balance_results,
  chunks_loop, chunks, balance_calls, call_balance_chunk, read_chunks, read_balances,
}
use poulpy_eth_pir_demo.Follow.Syncer.Ends.{
  Post, Post-map, Keeps, Always, bind-Keeps, insert_balance_results-ne,
}

-- The answer to one call: the balance as a word of 32 bytes, or a call that failed, which counts as
-- a balance of 0.
abbrev pub Says : CallResult → ℕ → Type 0
Says r v =
    ((r.success ≡ false) × (v ≡ 0))
    ⊎ ((r.success ≡ true) × (length r.return_data ≡ 32) × (from_be_bytes 0 r.return_data ≡ v))

-- Two answers for each holder, in order.
pub data Answered (truth : Address → Reading) : List Address → List CallResult → Type 0 where
  nobody : Answered truth [] []
  both :
      {holder : Address} {holders : List Address} {a b : CallResult} {results : List CallResult}
      → Says a (truth holder).usdt
      → Says b (truth holder).usdc
      → Answered truth holders results
      → Answered truth (holder ∷ holders) (a ∷ b ∷ results)

-- A node that, when it answers a batch of balance calls at a block, answers with the balances there.
pub record AnswersAt (node : Node) (block : ℕ) (truth : Address → Reading) : Type 0 where
  pub answered :
      (holders : List Address) (w w' : node.World) (results : List CallResult)
      → node.aggregate (balance_calls node holders) block w ≡ (ok results, w')
      → Answered truth holders results

abbrev pub is_among : Address → List Address → Bool
is_among j [] = false
is_among j (a ∷ rest) = a == j || is_among j rest

decode_balance-Says : (r : CallResult) (v x : ℕ) → Says r v → decode_balance r ≡ ok x → x ≡ v
unfolding decode_balance
decode_balance-Says r v x (inl (failed, none_held)) h = ground (arith, h)
decode_balance-Says r v x (inr (done, long, value)) h = ground (arith, h)

module _ (truth : Address → Reading) where
  -- A table that has the balances of these, and is as it was at the others.
  abbrev pub Has : List Address → Table Address Reading → Table Address Reading → Type 0
  Has addrs out out' =
      (Unique out → Unique out')
      × ((j : Address)
          → Table.get j out' ≡ (if is_among j addrs then some (truth j) else Table.get j out))

  insert_pairs-Has :
      {addrs : List Address} {results : List CallResult} (out out' : Table Address Reading)
      → Answered truth addrs results
      → insert_pairs out addrs results ≡ ok out'
      → Has addrs out out'
  unfolding insert_pairs
  insert_pairs-Has out out' nobody h = (λ once. ground (arith, h), λ j. cc)
  insert_pairs-Has out out'
        (both {holder = addr} {holders = addrs} {a = a} {b = b} {results = results} says_a says_b
          rest)
        h =
      go (λ reading. insert_pairs-Has (Table.insert addr reading out) out' rest) (decode_balance a)
        (decode_balance b) refl refl h
    where
      go :
          ((reading : Reading)
            → insert_pairs (Table.insert addr reading out) addrs results ≡ ok out'
            → Has addrs (Table.insert addr reading out) out')
          → (x y : Result Fault ℕ) → decode_balance a ≡ x
          → decode_balance b ≡ y
          → and_then x (λ usdt. and_then y (λ usdc.
            insert_pairs
              (Table.insert addr (record { usdt = usdt; usdc = usdc }) out)
              addrs
              results))
            ≡ ok out'
          → Has (addr ∷ addrs) out out'
      go rec (err e) y p q h = (λ once. cc, λ j. cc)
      go rec (ok x) (err e) p q h = (λ once. cc, λ j. cc)
      go rec (ok x) (ok y) p q h =
          let reading : Reading = record { usdt = x; usdc = y } in
          let usdt_right : x ≡ (truth addr).usdt = decode_balance-Says a _ x says_a p in
          let usdc_right : y ≡ (truth addr).usdc = decode_balance-Says b _ y says_b q in
          let right : reading ≡ truth addr = rw (usdt_right, usdc_right) refl in
          (
            λ once. (rec reading h).0 (Table.Unique-insert addr reading out once),
            λ j. elim (Bool-cases (addr == j)) [
              | inl here ↦ ground (
                arith,
                (rec reading h).1 j,
                Table.get-insert addr j reading out,
                right ∙ ap truth ((bytes_eq_iff addr j).0 here),
              )
              | inr there ↦ ground (arith, (rec reading h).1 j, Table.get-insert addr j reading out)
            ],
          )

  insert_balance_results-Has :
      (addrs : List Address) (results : List CallResult) (out out' : Table Address Reading)
      → Answered truth addrs results
      → insert_balance_results out addrs results ≡ ok out'
      → Has addrs out out'
  unfolding insert_balance_results
  insert_balance_results-Has addrs results out out' answered h =
      insert_pairs-Has out out' answered (ground (arith, h))

  -- Whether an address is in one of the batches.
  abbrev is_in_any : Address → List (List Address) → Bool
  is_in_any j [] = false
  is_in_any j (batch ∷ rest) = is_among j batch || is_in_any j rest

  module _ (node : Node) (block : ℕ) (honest : AnswersAt node block truth) where
    open node use {World}

    call_balance_chunk-Answered :
        (batch : List Address)
        → Keeps Always
            (call_balance_chunk node batch block)
            (λ results w. Answered truth batch results)
            Always
    unfolding call_balance_chunk
    call_balance_chunk-Answered batch = record {
      post = λ w p. go w (node.aggregate (balance_calls node batch) block w) refl;
    }
      where
        go :
            (w : World) (r : Result Message (List CallResult) × World)
            → node.aggregate (balance_calls node batch) block w ≡ r
            → Post (λ results w. Answered truth batch results) Always (of_rpc r)
        go w (ok results, w') e = honest.answered batch w w' results e
        go w (err m, w') e = (λ h. cc, tt)

    insert_chunk-Has :
        (out : Table Address Reading) (batch : List Address) (results : List CallResult)
        → Answered truth batch results
        → Keeps {S = World} Always
            (lift (insert_balance_results out batch results))
            (λ out' w. Has batch out out')
            Always
    insert_chunk-Has out batch results answered = record {
      post = λ w p. go w (insert_balance_results out batch results) refl;
    }
      where
        go :
            (w : World) (r : Result Fault (Table Address Reading))
            → insert_balance_results out batch results ≡ r
            → Post (λ out' w. Has batch out out') Always (r, w)
        go w (ok out') e = insert_balance_results-Has batch results out out' answered e
        go w (err x) e = (λ h. insert_balance_results-ne out batch results (e ∙ ap err h), tt)

    read_chunks-Has :
        (out : Table Address Reading) (batches : List (List Address))
        → Keeps Always
            (read_chunks node out batches block)
            (λ out' w.
              (Unique out → Unique out')
              × ((j : Address)
                  → Table.get j out'
                    ≡ (if is_in_any j batches then some (truth j) else Table.get j out)))
            Always
    unfolding read_chunks
    read_chunks-Has out [] = record { post = λ w p. (λ once. once, λ j. refl) }
    read_chunks-Has out (batch ∷ rest) =
        bind-Keeps (call_balance_chunk node batch block) _ (call_balance_chunk-Answered batch)
          (λ results. record {
            post = λ w answered.
                (bind-Keeps (lift (insert_balance_results out batch results)) _
                    (insert_chunk-Has out batch results answered)
                    (λ out'. record {
                      post = λ w has.
                          Post-map Always (read_chunks node out' rest block w)
                            (λ table w' later. (
                              λ once. later.0 (has.0 once),
                              λ j. ground (arith, has.1 j, later.1 j),
                            ))
                            ((read_chunks-Has out' rest).post w tt);
                    })).post
                  w tt;
          })

  is_among-parts :
      (j : Address) (n : ℕ) (addrs : List Address)
      → (is_among j (take n addrs) || is_among j (drop n addrs)) ≡ is_among j addrs
  is_among-parts j zero addrs = refl
  is_among-parts j (suc n) [] = refl
  is_among-parts j (suc n) (a ∷ addrs) = ground (arith, is_among-parts j n addrs)

  -- The batches are all the addresses.
  is_in_any-chunks :
      (j : Address) (fuel n : ℕ) (addrs : List Address)
      → 1 ≤ n
      → length addrs ≤ fuel
      → is_in_any j (chunks_loop fuel n addrs) ≡ is_among j addrs
  unfolding chunks_loop
  is_in_any-chunks j fuel n [] p q = refl
  is_in_any-chunks j zero n (a ∷ rest) p q = absurd (omega arith)
  is_in_any-chunks j (suc fuel) n (a ∷ rest) p q =
      ap (λ b. is_among j (take n (a ∷ rest)) || b)
        (is_in_any-chunks j fuel n (drop n (a ∷ rest)) p (omega (arith, length-drop n (a ∷ rest))))
      ∙ is_among-parts j n (a ∷ rest)

  -- Reading balances from an honest node gives each address asked for its balances, and no other address any, and names none twice.
  pub read_balances-exact :
      (node : Node) (block : ℕ) (addrs : List Address)
      → AnswersAt node block truth
      → Keeps Always
          (read_balances node addrs block)
          (λ readings w.
            Unique readings
            × ((j : Address)
                → Table.get j readings ≡ (if is_among j addrs then some (truth j) else none)))
          Always
  unfolding read_balances chunks Table.get
  read_balances-exact node block addrs honest = record {
    post = λ w p.
        Post-map Always (read_balances node addrs block w)
          (λ readings w' h. (
            h.0 tt,
            λ j. ground (
              arith,
              h.1 j,
              is_in_any-chunks j (length addrs) 400 addrs (omega arith) (omega arith),
            ),
          ))
          ((read_chunks-Has node block honest [] (chunks addresses_per_multicall addrs)).post w tt);
  }
