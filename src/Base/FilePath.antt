-- ===== src/Base/FilePath.antt =====
-- What the node code takes from path/filepath on Unix: Clean, Dir and Join, over code points.
use Prim.Native.Char.{code}
use Prim.Native.String.{String, ◌++◌ as ◌<>◌}
use mathlib.Core.Path.{◌≡◌, refl}
use mathlib.Core.Bool.{Bool, false, ◌||◌}
use mathlib.Core.List.{List, [], ◌∷◌, reverse}
use nvmeof_csi.Base.Tests.{◌==◌, nat_eq, string_eq, if◌then◌else◌}

-- The parts of a path between its slashes.
unfoldable pub parts : String → List String
parts String.[] = "" ∷ []
parts (String.◌∷◌ c s) =
    let rest = parts s in
    if code c == 47
    then "" ∷ rest
    else elim rest [ [] ↦ String.◌∷◌ c "" ∷ [] | p ∷ more ↦ String.◌∷◌ c p ∷ more ]

unfoldable pub is_rooted : String → Bool
is_rooted String.[] = false
is_rooted (String.◌∷◌ c s) = code c == 47

-- One `..`, with the parts kept so far in reverse.
unfoldable pub up : Bool → List String → List String
up rooted [] = if rooted then [] else ".." ∷ []
up rooted (p ∷ kept) = if p == ".." then ".." ∷ p ∷ kept else kept

unfoldable pub keep : Bool → List String → List String → List String
unfolding up
keep rooted kept [] = kept
keep rooted kept (p ∷ rest) =
    keep rooted
      (if p == "" || p == "." then kept else if p == ".." then up rooted kept else p ∷ kept) rest

unfoldable pub join_parts : List String → String
join_parts [] = ""
join_parts (p ∷ []) = p
join_parts (p ∷ q ∷ rest) = p <> ("/" <> join_parts (q ∷ rest))

-- filepath.Clean
unfoldable pub clean : String → String
unfolding parts is_rooted keep join_parts
clean path =
    let kept = join_parts (reverse (keep (is_rooted path) [] (parts path))) in
    if is_rooted path then "/" <> kept else if kept == "" then "." else kept

-- The path up to its last slash, which is kept, and "" if there is none.
unfoldable pub directory : String → String
directory String.[] = ""
directory (String.◌∷◌ c s) =
    let rest = directory s in
    if rest == "" then if code c == 47 then String.◌∷◌ c "" else "" else String.◌∷◌ c rest

-- filepath.Dir
unfoldable pub dir : String → String
unfolding clean directory
dir path = clean (directory path)

-- filepath.Join of two elements; an empty one in front is left out.
unfoldable pub join : String → String → String
unfolding clean
join a b = if a == "" then if b == "" then "" else clean b else clean (a <> ("/" <> b))

dir_example : dir "/var//lib/pods/../a/target" ≡ "/var/lib/a"
unfolding dir
dir_example = refl

dir_plain : dir "target" ≡ "."
unfolding dir
dir_plain = refl

join_example : join "/staging/" "id//x" ≡ "/staging/id/x"
unfolding join
join_example = refl
