-- ===== src/Pg/Paths.antt =====
-- internal/store/pg/setup.go: where the migrations are, and what it uses of Go's standard library
-- for that, on Unix.
pub mod Removed
mod Tests
use Prim.Native.Char.{Char, code}
use Prim.Native.String
use ethereum_fetcher.Prelude.{
  ℕ, String, ℤ, pos, negsuc, ◌==ℤ◌, Bool, true, false, not, ◌&&◌, ◌||◌, List, [], ◌∷◌, ◌++◌, take,
  drop, join_texts, str_eq, ◌==◌, if◌then◌else◌,
}
use ethereum_fetcher.Result.{◌+++◌}
use ethereum_fetcher.Pg.Overlap.{find_longest_overlap}

-- `string(filepath.Separator)`
abbrev separator : String
separator = "/"

abbrev is_separator : Char → Bool
is_separator c = code c == 47

abbrev prepend : Char → List String → List String
prepend c [] = []
prepend c (s ∷ ss) = String.◌∷◌ c s ∷ ss

-- `strings.Split(s, "/")`
pub split : String → List String
split String.[] = "" ∷ []
split (String.◌∷◌ c s) =
    let parts = split s in if is_separator c then "" ∷ parts else prepend c parts

-- `strings.HasPrefix(p, "/")` and `p[1:]` of a text that has it
pub is_absolute : String → Bool
is_absolute String.[] = false
is_absolute (String.◌∷◌ c s) = is_separator c

pub without_first : String → String
without_first String.[] = ""
without_first (String.◌∷◌ c s) = s

-- `filepath.Clean` by components: `rooted` paths have nothing above their first, and `kept` are the
-- components before this one, the last one first.
pub up_from : Bool → List String → List String
up_from rooted [] = if rooted then [] else ".." ∷ []
up_from rooted (c ∷ kept) = if str_eq c ".." then ".." ∷ c ∷ kept else kept

pub resolve : Bool → List String → List String → List String
unfolding up_from
resolve rooted kept [] = kept
resolve rooted kept (c ∷ cs) =
    resolve rooted
      (if str_eq c "" || str_eq c "."
        then kept
        else if str_eq c ".."
        then up_from rooted kept
        else c ∷ kept)
      cs

abbrev reversed : List String → List String → List String
reversed [] acc = acc
reversed (c ∷ cs) acc = reversed cs (c ∷ acc)

pub clean : String → String
unfolding split is_absolute resolve
clean path =
    let rooted = is_absolute path in
    let cleaned = join_texts separator (reversed (resolve rooted [] (split path)) []) in
    if rooted then separator +++ cleaned else if str_eq cleaned "" then "." else cleaned

-- `filepath.Join`, which skips the empty elements in front
unfoldable pub join : List String → String
unfolding clean
join [] = ""
join (e ∷ es) =
    let rest = join es in if str_eq e "" then rest else clean (join_texts separator (e ∷ es))

unfoldable pub split_path : String → List String
unfolding split clean is_absolute without_first
split_path p = if is_absolute p then "" ∷ split (clean (without_first p)) else split (clean p)

unfoldable pub join_path : List String → String
unfolding join
join_path [] = join []
join_path (part ∷ parts) = if str_eq part "" then separator +++ join parts else join (part ∷ parts)

-- a bound of a slice, which is not negative where it is used
abbrev bound : ℤ → ℕ
bound (pos n) = n
bound (negsuc n) = 0

-- the rest of `removeOverlap`, after the search for the bounds
abbrev pub build : ℤ × ℤ → List String → (cur_dir rel_dir : String) → String
build (start, end) cur_dir_parts cur_dir rel_dir =
    if not (start ==ℤ negsuc 0) && not (end ==ℤ negsuc 0)
    then join_path
        (take (bound start) cur_dir_parts ++ drop (bound end) cur_dir_parts ++ rel_dir ∷ [])
    else join (cur_dir ∷ rel_dir ∷ [])

unfoldable pub remove_overlap : String → String → String
unfolding split_path join_path join
remove_overlap cur_dir rel_dir =
    let cur_dir_parts = split_path cur_dir in
    build (find_longest_overlap cur_dir_parts (split_path rel_dir)) cur_dir_parts cur_dir rel_dir
