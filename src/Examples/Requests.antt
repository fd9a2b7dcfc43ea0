-- ===== src/Examples/Requests.antt =====
-- Requests to the endpoint.
use poulpy_eth_pir_demo.Base.{
  ℕ, ◌+◌, ◌*◌, ◌-◌, min, Option, none, some, List, [], ◌∷◌, ◌++◌, leb, ◌≡◌, refl, ap, sym, ◌∙◌,
  Bool-cases, inl, inr, arith, if◌then◌else◌,
}
use poulpy_eth_pir_demo.Base.Equality.{◌==◌, byte_list_eq, bytes_eq}
use poulpy_eth_pir_demo.Base.Table
use poulpy_eth_pir_demo.Base.Run.{Result, ok}
use poulpy_eth_pir_demo.Text.{Text, ascii}
use poulpy_eth_pir_demo.Http.Batch.{Rejected, Answer}
use poulpy_eth_pir_demo.Http.Limit.{RateLimit, IpAddr, Floats, enabled}
use poulpy_eth_pir_demo.Http.Routes.Burst.{
  CountsExactly, AsLimited, replies, bodies_of, queries-AsLimited,
}
use poulpy_eth_pir_demo.Http.Files.{
  serve_file, clean_path, split, trim_slashes, any_dots, join, is_absolute, push, file_reply,
  mime_of, mime_of_extension, extension, suffix_of, file_name, after_dot,
}
use poulpy_eth_pir_demo.Http.Files.Below.{place_of, walk, serve_file-below}

-- Tokens in 60000ths, which a rate of so many per minute adds each millisecond.
abbrev scaled : Floats
scaled = record {
  F = ℕ;
  of_nat = λ n. 60000 * n;
  per_second = λ m. m;
  refilled = λ t ms rate burst. min (t + ms * rate) burst;
  has_token = λ t. leb 60000 t;
  spend = λ t. t - 60000;
  wait_for = λ t rate. 60000 - t;
}

scaled-CountsExactly : CountsExactly scaled
scaled-CountsExactly = record {
  refilled_now = λ n burst per_minute h small. omega arith;
  has_none = refl;
  has_some = λ n small. ground arith;
  spend_one = λ n small. omega arith;
}

abbrev two_a_minute : RateLimit
two_a_minute = record { per_minute = 2; burst = 2 }

abbrev echo : List ℕ → Result Rejected Answer
echo body = ok (ok body)

abbrev schedule : List (IpAddr × List ℕ)
schedule =
    (1 ∷ [], 7 ∷ []) ∷ (2 ∷ [], 8 ∷ []) ∷ (1 ∷ [], []) ∷ (1 ∷ [], 9 ∷ []) ∷ (1 ∷ [], 9 ∷ []) ∷ []

queries-AsLimited_example :
    AsLimited echo 2
      (bodies_of (1 ∷ []) schedule)
      (replies scaled echo two_a_minute (1 ∷ []) 5 schedule [])
queries-AsLimited_example =
    queries-AsLimited scaled scaled-CountsExactly echo two_a_minute (1 ∷ []) 5 schedule 2 []
      (unfold enabled in refl) (omega arith) (omega arith) (omega arith) (unfold Table.get in refl)

-- Two systems that differ in a file beside the directory only.
abbrev pages : Text → Option (List ℕ)
pages path = if path == ascii "web/a.js" then some (1 ∷ []) else none

abbrev pages_and_key : Text → Option (List ℕ)
pages_and_key path = if path == ascii "/etc/key" then some (2 ∷ []) else pages path

abbrev first_letter : List Text → ℕ
first_letter ((c ∷ cs) ∷ names) = c
first_letter names = 0

elsewhere :
    (path : Text) (below : List Text)
    → place_of path ≡ place_of (ascii "web") ++ below
    → pages path ≡ pages_and_key path
unfolding place_of walk split bytes_eq
elsewhere path below there = elim (Bool-cases (path == ascii "/etc/key")) [
  | inr other ↦ rw other refl
  | inl key ↦
      let is_key : path ≡ ascii "/etc/key" = (byte_list_eq.same_iff path _).0 key in
      let letters : ◌≡◌ {A = ℕ} b'e' b'w' = ap first_letter (sym (ap place_of is_key) ∙ there) in
      absurd (omega arith)
]

serve_file-below_example :
    serve_file pages (ascii "web") (ascii "//etc/key")
    ≡ serve_file pages_and_key (ascii "web") (ascii "//etc/key")
serve_file-below_example =
    serve_file-below pages pages_and_key (ascii "web") (ascii "//etc/key") elsewhere

served :
    (clean_path (ascii "/../etc/key") ≡ none)
    × (clean_path (ascii "//a.js") ≡ some (ascii "a.js"))
    × ((serve_file pages (ascii "web") (ascii "/a.js")).content_type
        ≡ ascii "text/javascript; charset=utf-8")
unfolding clean_path split trim_slashes any_dots serve_file bytes_eq join is_absolute push
    file_reply mime_of mime_of_extension extension suffix_of file_name after_dot
served = (refl, refl, refl)
