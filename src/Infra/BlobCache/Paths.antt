-- ===== src/Infra/BlobCache/Paths.antt =====
-- internal/infra/ocicache/disk.go: the paths of a cached artifact. The regular expression of a digest
-- is written as a matcher over its characters; url.PathEscape and filepath.Join are parameters.
pub mod Safe
use Prim.Native.Char.{Char, code}
use dependency_firewall.Base.{
  Bool, List, Option, String, [], eqb, false, if◌then◌else◌, leb, none, not, some, split_once,
  trim_space, true, ℕ, ◌&&◌, ◌<>◌, ◌==◌, ◌||◌, ◌∷◌,
}
use dependency_firewall.Domain.Message.{Error, Result, err, errorf, ok, text, ◌>>=◌, ◌>>◌}

abbrev between : ℕ → ℕ → Char → Bool
between low high c = leb low (code c) && leb (code c) high

-- [a-z0-9]
abbrev pub is_algorithm_char : Char → Bool
is_algorithm_char c = between b'a' b'z' c || between b'0' b'9' c

-- [+._-]
abbrev pub is_separator : Char → Bool
is_separator c = eqb (code c) b'+' || eqb (code c) b'.' || eqb (code c) b'_' || eqb (code c) b'-'

-- [a-zA-Z0-9=_-]
abbrev pub is_encoded_char : Char → Bool
is_encoded_char c =
    is_algorithm_char c
    || between b'A' b'Z' c
    || eqb (code c) b'='
    || eqb (code c) b'_'
    || eqb (code c) b'-'

abbrev pub all_text : (Char → Bool) → String → Bool
all_text p String.[] = true
all_text p (String.◌∷◌ c s) = p c && all_text p s

abbrev pub is_encoded : String → Bool
is_encoded s = not (s == "") && all_text is_encoded_char s

-- `inside`: the algorithm may end here, after a character of a component.
unfoldable pub matches_digest : Bool → String → Bool
matches_digest inside String.[] = false
matches_digest inside (String.◌∷◌ c s) =
    let more = matches_digest true s in
    let next = matches_digest false s in
    if is_algorithm_char c
    then more
    else if not inside
    then false
    else if is_separator c
    then next
    else eqb (code c) b':' && is_encoded s

unfoldable pub invalid_digest : String → Error
invalid_digest digest =
    errorf (record { format = "invalid OCI digest %q"; args = text digest ∷ [] })

unfoldable pub cut_digest : String → String × Option String → Result (String × String)
unfolding invalid_digest
cut_digest digest (algo, none) = err (invalid_digest digest)
cut_digest digest (algo, some encoded) = ok (algo, encoded)

unfoldable pub split_digest : String → Result (String × String)
unfolding cut_digest
split_digest digest =
    let d = trim_space digest in
    if not (matches_digest false d)
    then err (invalid_digest d)
    else cut_digest d (split_once b':' d)

module _ (path_escape : String → String) (join_paths : List String → String) where
  unfoldable pub path_component : String → String → Result String
  path_component name value =
      let trimmed = trim_space value in
      if trimmed == ""
      then err (errorf (record { format = "OCI cache %s is required"; args = text name ∷ [] }))
      else ok (path_escape trimmed)

  unfoldable pub scope_root : String → String → String → Result String
  unfolding path_component
  scope_root root_dir tenant upstream = do
    t ← path_component "tenant_id" tenant
    u ← path_component "upstream_id" upstream
    ok (join_paths (root_dir ∷ t ∷ u ∷ []))

  -- finalPaths: the path of the data and that of the metadata
  unfoldable pub final_paths : String → String → String → String → String → Result (String × String)
  unfolding split_digest scope_root
  final_paths root_dir tenant upstream kind digest = do
    (algo, encoded) ← split_digest digest
    scope ← scope_root root_dir tenant upstream
    let base = join_paths (scope ∷ kind ∷ algo ∷ encoded ∷ [])
    ok (base <> ".data", base <> ".meta.json")
