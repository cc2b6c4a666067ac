-- ===== src/Infra/NpmGraph/Paths.antt =====
-- Package `path` of Go, as far as internal/infra/npmgraph/lockfile.go uses it, and the paths of a
-- lock file: packageNameFromLockPath and resolveDependencyPath. A path is cut at its slashes.
use Prim.Native.Char.{code}
use mathlib.Core.List.{reverse}
use dependency_firewall.Base.{
  Bool, List, String, [], eqb, has_prefix, if◌then◌else◌, is_empty, join, keep, none, not, some,
  split_once, suc, zero, ℕ, ◌&&◌, ◌-◌, ◌<>◌, ◌==◌, ◌||◌, ◌∷◌,
}

-- strings.Split(s, "/")
split_slash : String → String → List String
split_slash cur String.[] = cur ∷ []
split_slash cur (String.◌∷◌ c s) =
    let cut = cur ∷ split_slash "" s in
    let more = split_slash (cur <> String.◌∷◌ c String.[]) s in
    if eqb (code c) b'/' then cut else more

-- One segment of path.Clean: `done` are the segments so far, the last one first.
clean_segment : Bool → List String → String → List String
clean_segment rooted done segment =
    if segment == "" || segment == "."
    then done
    else if segment == ".."
    then elim done [
      | [] ↦ if rooted then [] else ".." ∷ []
      | last ∷ rest ↦ if last == ".." then ".." ∷ last ∷ rest else rest
    ]
    else segment ∷ done

clean_segments : Bool → List String → List String → List String
unfolding clean_segment
clean_segments rooted done [] = done
clean_segments rooted done (s ∷ ss) = clean_segments rooted (clean_segment rooted done s) ss

-- a clean path: whether it begins at the root, and its segments, the last one first
pub record CleanPath : Type 0 where
  pub rooted : Bool
  pub segments : List String

-- path.Clean
unfoldable pub clean_path : String → CleanPath
unfolding split_slash clean_segments
clean_path s = record {
  rooted = has_prefix s "/";
  segments = clean_segments (has_prefix s "/") [] (split_slash "" s);
}

-- the text of a clean path
unfoldable pub path_text : CleanPath → String
path_text p =
    let text = join "/" (reverse p.segments) in
    if p.rooted then "/" <> text else if text == "" then "." else text

-- path.Join: the empty elements are left out
unfoldable pub join_path : List String → String
join_path elements =
    let named = keep (λ e. not (e == "")) elements in
    if is_empty named then "" else path_text (clean_path (join "/" named))

-- what stands up to the last slash, the slash included; "" without a slash
up_to_last_slash : String → String
up_to_last_slash String.[] = ""
up_to_last_slash (String.◌∷◌ c s) =
    let rest = up_to_last_slash s in
    if rest == "" && not (eqb (code c) b'/') then "" else String.◌∷◌ c rest

-- path.Dir
unfoldable pub dir_path : String → CleanPath
unfolding up_to_last_slash
dir_path s = clean_path (up_to_last_slash s)

-- `s` without as many characters as `p` has
drop_chars : String → String → String
drop_chars String.[] s = s
drop_chars (String.◌∷◌ d p) String.[] = ""
drop_chars (String.◌∷◌ d p) (String.◌∷◌ c s) = drop_chars p s

-- strings.TrimPrefix
unfoldable pub trim_prefix : String → String → String
unfolding drop_chars
trim_prefix s p = if has_prefix s p then drop_chars p s else s

length_text : String → ℕ
length_text String.[] = 0
length_text (String.◌∷◌ c s) = suc (length_text s)

-- The last part of strings.Split(s, sep); `skip` characters still belong to a separator.
last_part : String → String → String → ℕ → String
last_part sep cur String.[] skip = cur
last_part sep cur (String.◌∷◌ c s) (suc skip) = last_part sep cur s skip
last_part sep cur (String.◌∷◌ c s) zero =
    let at = has_prefix (String.◌∷◌ c s) sep in
    last_part sep (if at then "" else cur <> String.◌∷◌ c String.[]) s
      (if at then length_text sep - 1 else 0)

-- the first segment, or the first two of a scoped name
first_segments : String → String
first_segments last =
    let (scope, more) = split_once b'/' last in
    if has_prefix last "@"
    then elim more [ none ↦ scope | some rest ↦ scope <> "/" <> (split_once b'/' rest).0 ]
    else scope

unfoldable pub package_name_from_lock_path : String → String
unfolding last_part length_text first_segments
package_name_from_lock_path lock_path =
    first_segments (last_part "/node_modules/" "" (trim_prefix lock_path "node_modules/") 0)
