-- ===== src/Http/Files/Below.antt =====
-- Requests for files stay below the directory that is served.
use poulpy_eth_pir_demo.Base.{
  ℕ, Bool, false, ◌||◌, Option, none, some, List, [], ◌∷◌, ◌++◌, nat_eq, if◌then◌else◌, ◌≡◌, refl,
  ap, sym, ◌∙◌, ◌⊎◌, inl, inr, arith, append_assoc, append-nil, Bool-cases, Option-cases,
}
use poulpy_eth_pir_demo.Base.Equality.{◌==◌, byte_list_eq, bytes_eq}
use poulpy_eth_pir_demo.Text.{Text, ascii}
use poulpy_eth_pir_demo.Http.Files.{
  slash, trim_slashes, prepend, split, any_dots, or_index, clean_path, push, is_absolute, join,
  serve_file,
}

-- The names that lead to a path's file, as the system goes through them: nothing and `.` stay,
-- `..` goes up, and at the top it stays there. Links are not followed.
abbrev pub up : List Text → List Text
up [] = []
up (name ∷ []) = []
up (name ∷ next ∷ names) = name ∷ up (next ∷ names)

abbrev pub stays : Text → Bool
stays name = (name == []) || (name == ascii ".")

-- One name further.
abbrev pub step : List Text → Text → List Text
step place name =
    if stays name then place else if name == ascii ".." then up place else place ++ (name ∷ [])

unfoldable pub walk : List Text → List Text → List Text
walk place [] = place
walk place (name ∷ names) = walk (step place name) names

unfoldable pub place_of : Text → List Text
unfolding walk
place_of path = walk [] (split path)

walk-append :
    (front back place : List Text) → walk place (front ++ back) ≡ walk (walk place front) back
unfolding walk
walk-append [] back place = refl
walk-append (name ∷ front) back place = walk-append front back (step place name)

-- Names without dots lead down.
walk-down :
    (names place : List Text)
    → any_dots names ≡ false
    → (below : List Text) × (walk place names ≡ place ++ below)
unfolding walk any_dots
walk-down [] place h = ([], sym (append-nil place))
walk-down (name ∷ names) place h = elim (Bool-cases (stays name)) [
  | inl here ↦ rw here (walk-down names place (ground arith))
  | inr on ↦
      let further = walk-down names (place ++ (name ∷ [])) (ground arith) in
      let is_name : (name == ascii "..") ≡ false = ground arith in
      rw (on, is_name) (name ∷ further.0, further.1 ∙ append_assoc place (name ∷ []) further.0)
]

-- The parts of a path in a directory: those of the directory, but for an empty last one, and then
-- the path's own.
abbrev Pushed : Text → Text → Type 0
Pushed root path =
    (name : Text) × (names : List Text) × (split (push root path) ≡ name ∷ (names ++ split path))
    × ((split root ≡ name ∷ names) ⊎ (split root ≡ name ∷ (names ++ ([] ∷ []))))

push-split : (c : ℕ) (root path : Text) → Pushed (c ∷ root) path
unfolding push split
push-split c [] path = elim (Bool-cases (nat_eq c slash)) [
  | inl is_slash ↦ rw is_slash ([], [], rw is_slash refl, inr refl)
  | inr other ↦ rw other (c ∷ [], [], rw other refl, inl refl)
]
push-split c (d ∷ root) path =
    let (name, names, whole, own) = push-split d root path in
    elim (Bool-cases (nat_eq c slash)) [
      | inl is_slash ↦ rw is_slash (
        [],
        name ∷ names,
        ap (◌∷◌ []) whole,
        elim own [ inl e ↦ inl (ap (◌∷◌ []) e) | inr e ↦ inr (ap (◌∷◌ []) e) ],
      )
      | inr other ↦ rw other (
        c ∷ name,
        names,
        ap (prepend c) whole,
        elim own [ inl e ↦ inl (ap (prepend c) e) | inr e ↦ inr (ap (prepend c) e) ],
      )
    ]

-- A path that begins with a name and goes nowhere up is below its directory.
push-below :
    (root path : Text)
    → any_dots (split path) ≡ false
    → (below : List Text) × (place_of (push root path) ≡ place_of root ++ below)
unfolding place_of push walk split bytes_eq
push-below [] path h = walk-down (split path) [] h
push-below (c ∷ root) path h =
    let (name, names, whole, own) = push-split c root path in
    let (below, there) = walk-down (split path) (walk [] (name ∷ names)) h in
    let own_place : walk [] (split (c ∷ root)) ≡ walk [] (name ∷ names) = elim own [
      | inl e ↦ ap (walk []) e
      | inr e ↦ ap (walk []) e ∙ walk-append (name ∷ names) ([] ∷ []) []
    ] in
    (
      below,
      rw whole (
          walk-append (name ∷ names) (split path) []
          ∙ there
          ∙ ap (λ x. x ++ below) (sym own_place)),
    )

trimmed-relative : (path : Text) → is_absolute (or_index (trim_slashes path)) ≡ false
unfolding is_absolute trim_slashes
trimmed-relative [] = refl
trimmed-relative (c ∷ path) = elim (Bool-cases (nat_eq c slash)) [
  | inl is_slash ↦ rw is_slash (trimmed-relative path)
  | inr other ↦ rw (other, is_absolute) other
]

requested_if :
    (dots : Bool) (clean requested : Text)
    → (if dots then none else some clean) ≡ some requested
    → (dots ≡ false) × (clean ≡ requested)
requested_if dots clean requested h = ground arith

-- The file that a request may name is below the directory.
clean_path-below :
    (root uri requested : Text)
    → clean_path uri ≡ some requested
    → (below : List Text) × (place_of (join root requested) ≡ place_of root ++ below)
unfolding clean_path join
clean_path-below root uri requested h =
    let clean = or_index (trim_slashes uri) in
    let (plain, is_clean) = requested_if (any_dots (split clean)) clean requested h in
    rw (← is_clean, trimmed-relative uri) (push-below root clean plain)

-- Two states of the file system in which every path that leads below the directory reads the same
-- give the same reply to a request, whatever its path: what lies elsewhere is never shown.
pub serve_file-below :
    (read read' : Text → Option (List ℕ)) (root uri : Text)
    → ((path : Text) (below : List Text)
        → place_of path ≡ place_of root ++ below
        → read path ≡ read' path)
    → serve_file read root uri ≡ serve_file read' root uri
unfolding serve_file
serve_file-below read read' root uri same = elim (Option-cases (clean_path uri)) [
  | inl refused ↦ rw (refused, serve_file) refl
  | inr (requested, clean) ↦
      let (below, there) = clean_path-below root uri requested clean in
      rw (clean, serve_file, same (join root requested) below there) refl
]
