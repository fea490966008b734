-- ===== src/Fs/Path.antt =====
-- `std::path`: a path is the list of its components below the root of the file system.
use Prim.Native.Char.{code}
use leviso.Base.{
  ℕ, String, ◌<>◌, List, [], ◌∷◌, ◌++◌, Bool, true, false, not, ◌&&◌, ◌==◌, nat_eq, string_eq,
}
use leviso.Base.{Option, none, some}
use leviso.Base.{if◌then◌else◌, filterb}
use leviso.Text.{ends_with, codes}

abbrev pub FilePath : Type 0
FilePath = List String

abbrev push_char : String → List String → List String
push_char c [] = c ∷ []
push_char c (x ∷ xs) = (c <> x) ∷ xs

-- `str::split` at a character.
abbrev pub split_on : ℕ → String → List String
split_on sep String.[] = "" ∷ []
split_on sep (String.◌∷◌ c s) =
    let rest = split_on sep s in
    if code c == sep then "" ∷ rest else push_char (String.◌∷◌ c String.[]) rest

-- The components of a text: empty pieces and `.` do not count.
abbrev pub components : String → List String
components s = filterb (λ c. not (c == "") && not (c == ".")) (split_on b'/' s)

abbrev pub is_absolute : String → Bool
is_absolute String.[] = false
is_absolute (String.◌∷◌ c s) = code c == b'/'

-- `Path::join`: an absolute text replaces the path.
abbrev pub join : FilePath → String → FilePath
join base rel = if is_absolute rel then components rel else base ++ components rel

-- `{}` of `path.display()`
abbrev pub display : FilePath → String
display [] = ""
display (x ∷ p) = "/" <> x <> display p

-- `Path::file_name`
abbrev pub last_of : FilePath → Option String
last_of [] = none
last_of (x ∷ []) = if x == ".." then none else some x
last_of (x ∷ y ∷ r) = last_of (y ∷ r)

abbrev pub drop_last : FilePath → FilePath
drop_last [] = []
drop_last (x ∷ []) = []
drop_last (x ∷ y ∷ r) = x ∷ drop_last (y ∷ r)

-- `str::trim_start_matches` of a character
abbrev pub trim_start : ℕ → String → String
trim_start c String.[] = ""
trim_start c (String.◌∷◌ d s) =
    let rest = trim_start c s in if code d == c then rest else String.◌∷◌ d s

abbrev join_dots : List String → String
join_dots [] = ""
join_dots (x ∷ []) = x
join_dots (x ∷ y ∷ r) = x <> "." <> join_dots (y ∷ r)

-- `Path::file_stem`: a name without a dot, or with one in front only, is its own stem.
abbrev stem_of_pieces : String → List String → String
stem_of_pieces name [] = name
stem_of_pieces name (x ∷ []) = name
stem_of_pieces name (x ∷ y ∷ []) = if x == "" then name else x
stem_of_pieces name (x ∷ y ∷ z ∷ r) = join_dots (x ∷ drop_last (y ∷ z ∷ r))

abbrev pub file_stem : String → String
file_stem name = stem_of_pieces name (split_on b'.' name)

-- `Path::with_extension`
abbrev pub with_extension : FilePath → String → FilePath
with_extension [] ext = []
with_extension (x ∷ []) ext = (if ext == "" then file_stem x else file_stem x <> "." <> ext) ∷ []
with_extension (x ∷ y ∷ r) ext = x ∷ with_extension (y ∷ r) ext

-- `p` is `q` or lies above it.
abbrev pub is_prefix : FilePath → FilePath → Bool
is_prefix [] q = true
is_prefix (x ∷ p) [] = false
is_prefix (x ∷ p) (y ∷ q) = x == y && is_prefix p q

-- Whether `Path::extension` of a name is `ext`, which has no dot: a dot in front only is none.
abbrev pub has_extension : String → String → Bool
has_extension ext name =
    let end : String = "." <> ext in not (name == end) && ends_with (codes end) (codes name)

-- `Path::strip_prefix`, the prefix first
abbrev pub strip_prefix : FilePath → FilePath → Option FilePath
strip_prefix [] q = some q
strip_prefix (x ∷ p) [] = none
strip_prefix (x ∷ p) (y ∷ q) = let rest = strip_prefix p q in if x == y then rest else none
