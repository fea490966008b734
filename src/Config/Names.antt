-- ===== src/Config/Names.antt =====
-- src/config.rs: the list of extra modules.
use leviso.Base.{
  String, ◌<>◌, ◌≡◌, ◌≢◌, refl, List, [], ◌∷◌, map, All, false, arith, ◌==◌, nat_eq, string_eq, not,
  filterb, ◌∙◌, ap,
}
use text.Mathlib.TextLemmas.{nil-append, cons-append}
use text.Mathlib.TextEquality.{eq_iff}
use leviso.Text.{trim_of}
use leviso.Fs.Path.{split_on}
use leviso.Config.{parse_modules}
use Prim.Native.Char.{code}

-- A string without a comma
abbrev LacksComma : String → Type 0
LacksComma String.[] = Unit
LacksComma (String.◌∷◌ c s) = ((code c == b',') ≡ false) × LacksComma s

abbrev pub IsName : String → Type 0
IsName m = (m ≢ "") × (trim_of m ≡ m) × LacksComma m

abbrev pub with_commas : List String → String
with_commas [] = ""
with_commas (m ∷ []) = m
with_commas (m ∷ n ∷ ms) = m <> ("," <> with_commas (n ∷ ms))

split_on-name :
    (m s : String) → LacksComma m → split_on b',' (m <> ("," <> s)) ≡ m ∷ split_on b',' s
split_on-name String.[] s h = rw (nil-append, cons-append, nil-append) refl
split_on-name (String.◌∷◌ c m) s h =
    rw (cons-append c m ("," <> s), h.0, split_on-name m s h.1, cons-append, nil-append) refl

split_on-last : (m : String) → LacksComma m → split_on b',' m ≡ m ∷ []
split_on-last String.[] h = refl
split_on-last (String.◌∷◌ c m) h = rw (h.0, split_on-last m h.1, cons-append, nil-append) refl

split_on-names :
    (m : String) (ms : List String)
    → All IsName (m ∷ ms)
    → split_on b',' (with_commas (m ∷ ms)) ≡ m ∷ ms
split_on-names m [] h = split_on-last m h.0.2
split_on-names m (n ∷ ms) h =
    split_on-name m (with_commas (n ∷ ms)) h.0.2 ∙ ap (λ l. m ∷ l) (split_on-names n ms h.1)

kept_names : (ms : List String) → All IsName ms → filterb (λ m. not (m == "")) (map trim_of ms) ≡ ms
kept_names [] h = refl
kept_names (m ∷ ms) h = ground (arith, h.0.1, eq_iff m "", kept_names ms h.1)

-- Names that are not empty, have no space at either end and no comma are read back from the list of
-- them with commas.
pub parse_modules-with_commas :
    (names : List String) → All IsName names → parse_modules (with_commas names) ≡ names
unfolding parse_modules
parse_modules-with_commas [] h = refl
parse_modules-with_commas (m ∷ ms) h = rw (split_on-names m ms h, kept_names (m ∷ ms) h) refl
