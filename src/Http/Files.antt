-- ===== src/Http/Files.antt =====
-- src/http/static_files.rs: the demo page's files. The reading of a file is a parameter, a function
-- of its path; `Path` is the standard library's, on a system that separates names by slashes.
pub mod Below
use poulpy_eth_pir_demo.Base.{
  ℕ, Bool, true, false, ◌||◌, Option, none, some, List, [], ◌∷◌, ◌++◌, nat_eq, if◌then◌else◌,
}
use poulpy_eth_pir_demo.Base.Equality.{◌==◌, byte_list_eq}
use poulpy_eth_pir_demo.Text.{Text, ascii}
use poulpy_eth_pir_demo.Http.Reply.{Reply, octet_stream, problem}

abbrev pub slash : ℕ
slash = b'/'

-- `trim_start_matches('/')`.
unfoldable pub trim_slashes : Text → Text
trim_slashes [] = []
trim_slashes (c ∷ cs) = let rest = trim_slashes cs in if nat_eq c slash then rest else c ∷ cs

abbrev pub prepend : ℕ → List Text → List Text
prepend c [] = (c ∷ []) ∷ []
prepend c (name ∷ names) = (c ∷ name) ∷ names

-- `split('/')`: one part more than there are slashes.
unfoldable pub split : Text → List Text
split [] = [] ∷ []
split (c ∷ cs) = if nat_eq c slash then [] ∷ split cs else prepend c (split cs)

abbrev pub is_dots : Text → Bool
is_dots name = (name == ascii "..") || (name == ascii ".")

unfoldable pub any_dots : List Text → Bool
any_dots [] = false
any_dots (name ∷ names) = is_dots name || any_dots names

abbrev pub or_index : Text → Text
or_index [] = ascii "index.html"
or_index (c ∷ cs) = c ∷ cs

unfoldable pub clean_path : Text → Option Text
clean_path path =
    let requested = or_index (trim_slashes path) in
    if any_dots (split requested) then none else some requested

-- `Path::join`: a path that is absolute takes the other's place.
unfoldable pub push : Text → Text → Text
push [] path = path
push (c ∷ []) path = if nat_eq c slash then c ∷ path else c ∷ slash ∷ path
push (c ∷ d ∷ root) path = c ∷ push (d ∷ root) path

unfoldable pub is_absolute : Text → Bool
is_absolute [] = false
is_absolute (c ∷ cs) = nat_eq c slash

unfoldable pub join : Text → Text → Text
join root path = if is_absolute path then path else push root path

-- `Path::extension`: what follows the last dot of the last name, unless that dot begins the name.
-- Empty names and `.` are passed over.
unfoldable pub file_name : List Text → Option Text
file_name [] = none
file_name (name ∷ names) = elim (file_name names) [
  | some last ↦ some last
  | none ↦ if (name == []) || (name == ascii ".") then none else some name
]

unfoldable pub after_dot : Text → Option Text
after_dot [] = none
after_dot (c ∷ cs) = elim (after_dot cs) [
  | some rest ↦ some rest
  | none ↦ if nat_eq c b'.' then some cs else none
]

unfoldable pub suffix_of : Option Text → Option Text
suffix_of none = none
suffix_of (some []) = none
suffix_of (some (c ∷ cs)) = if (c ∷ cs) == ascii ".." then none else after_dot cs

unfoldable pub extension : Text → Option Text
extension path = suffix_of (file_name (split path))

unfoldable pub mime_of_extension : Option Text → Text
mime_of_extension none = octet_stream
mime_of_extension (some e) =
    if e == ascii "html"
    then ascii "text/html; charset=utf-8"
    else if e == ascii "js"
    then ascii "text/javascript; charset=utf-8"
    else if e == ascii "wasm"
    then ascii "application/wasm"
    else if e == ascii "css"
    then ascii "text/css; charset=utf-8"
    else if e == ascii "json"
    then ascii "application/json"
    else octet_stream

unfoldable pub mime_of : Text → Text
mime_of path = mime_of_extension (extension path)

unfoldable pub file_reply : Text → Option (List ℕ) → Reply
file_reply path none = problem 404 (ascii "not found")
file_reply path (some bytes) = record {
  status = 200;
  content_type = mime_of path;
  cache_control = none;
  retry_after = none;
  body = bytes;
}

-- The file system: what a file at a path holds, if it can be read.
unfoldable pub serve_file : (Text → Option (List ℕ)) → Text → Text → Reply
serve_file read root uri = elim (clean_path uri) [
  | none ↦ problem 400 (ascii "bad path")
  | some requested ↦ file_reply (join root requested) (read (join root requested))
]
