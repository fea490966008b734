-- ===== src/Text.antt =====
-- What `str` and `u32` of the standard library do for the program, over lists of code points.
pub mod Decimal
pub mod Lines
pub mod Fields
use Prim.Native.Char.{code}
use leviso.Base.{
  ℕ, zero, suc, ◌+◌, ◌-◌, ◌*◌, ◌/◌, ◌%◌, String, List, [], ◌∷◌, ◌++◌, Bool, true, false, ◌&&◌, ◌||◌,
  Option, none, some, ltb, leb, ◌==◌, nat_eq, list_eq, if◌then◌else◌,
}

abbrev pub Text : Type 0
Text = List ℕ

abbrev pub codes : String → Text
codes String.[] = []
codes (String.◌∷◌ c s) = code c ∷ codes s

abbrev pub newline : ℕ
newline = 10

abbrev pub return : ℕ
return = 13

abbrev pub colon : ℕ
colon = b':'

-- `str::starts_with`, the pattern first
abbrev pub starts_with : Text → Text → Bool
starts_with [] t = true
starts_with (c ∷ n) [] = false
starts_with (c ∷ n) (d ∷ t) = c == d && starts_with n t

-- `str::contains`, the pattern first
unfoldable pub contains_text : Text → Text → Bool
contains_text n [] = starts_with n []
contains_text n (c ∷ t) = starts_with n (c ∷ t) || contains_text n t

abbrev repeats : Text → Text → Text → Bool
repeats n [] [] = true
repeats n (d ∷ r) [] = false
repeats [] [] (c ∷ t) = false
repeats (d ∷ n) [] (c ∷ t) = c == d && repeats (d ∷ n) n t
repeats n (d ∷ r) (c ∷ t) = c == d && repeats n r t

-- `str::trim_end_matches`, the pattern first: the longest end that repeats the pattern goes.
abbrev pub trim_end : Text → Text → Text
trim_end n [] = []
trim_end n (c ∷ t) = let rest = trim_end n t in if repeats n [] (c ∷ t) then [] else c ∷ rest

-- `str::ends_with`, the end first
abbrev pub ends_with : Text → Text → Bool
ends_with n [] = n == []
ends_with n (c ∷ t) = n == c ∷ t || ends_with n t

abbrev push_code : ℕ → List Text → List Text
push_code c [] = (c ∷ []) ∷ []
push_code c (x ∷ xs) = (c ∷ x) ∷ xs

-- `str::split` at a character: one more piece than there are separators.
unfoldable pub split : ℕ → Text → List Text
split sep [] = [] ∷ []
split sep (c ∷ t) = let rest = split sep t in if c == sep then [] ∷ rest else push_code c rest

abbrev at_newline : Text → Bool
at_newline [] = false
at_newline (c ∷ t) = c == newline

-- `str::lines`: a line ends at a newline, or at a return before one; no line follows the last.
unfoldable pub lines : Text → List Text
lines [] = []
lines (c ∷ t) =
    let rest = lines t in
    if c == newline
    then [] ∷ rest
    else if c == return && at_newline t
    then rest
    else push_code c rest

abbrev pub u32_size : ℕ
u32_size = 4_294_967_296

abbrev pub is_digit : ℕ → Bool
is_digit c = leb b'0' c && leb c b'9'

unfoldable pub parse_digits : ℕ → Text → Option ℕ
parse_digits acc [] = some acc
parse_digits acc (c ∷ t) =
    let v = acc * 10 + (c - b'0') in
    let rest = parse_digits v t in if is_digit c && ltb v u32_size then rest else none

-- `str::parse::<u32>`: an optional plus sign and at least one digit, without overflow.
unfoldable pub parse_u32 : Text → Option ℕ
parse_u32 [] = none
parse_u32 (c ∷ t) = elim (c == b'+') [
  | true ↦ elim t [ [] ↦ none | d ∷ r ↦ parse_digits 0 (d ∷ r) ]
  | false ↦ parse_digits 0 (c ∷ t)
]

-- The digits of a number, at most as many as the fuel.
unfoldable pub show_digits : ℕ → ℕ → Text
show_digits zero n = []
show_digits (suc fuel) n =
    let high = show_digits fuel (n / 10) in
    if ltb n 10 then (b'0' + n) ∷ [] else high ++ ((b'0' + n % 10) ∷ [])

-- `{}` of a `u32`, which has ten digits at most.
unfoldable pub show_u32 : ℕ → Text
unfolding show_digits
show_u32 n = show_digits 10 n

-- `char::is_whitespace`
abbrev pub is_whitespace : ℕ → Bool
is_whitespace c =
    (leb 9 c && leb c 13)
    || c == 32
    || c == 133
    || c == 160
    || c == 5760
    || (leb 8192 c && leb c 8202)
    || c == 8232
    || c == 8233
    || c == 8239
    || c == 8287
    || c == 12288

abbrev pub trim_front : Text → Text
trim_front [] = []
trim_front (c ∷ t) = let rest = trim_front t in if is_whitespace c then rest else c ∷ t

abbrev push_trimmed : ℕ → Text → Text
push_trimmed c [] = if is_whitespace c then [] else c ∷ []
push_trimmed c (d ∷ t) = c ∷ d ∷ t

abbrev pub trim_back : Text → Text
trim_back [] = []
trim_back (c ∷ t) = push_trimmed c (trim_back t)

-- `str::trim`
abbrev pub trim : Text → Text
trim t = trim_back (trim_front t)

-- The same on a `String`.
abbrev trim_front_of : String → String
trim_front_of String.[] = ""
trim_front_of (String.◌∷◌ c s) =
    let rest = trim_front_of s in if is_whitespace (code c) then rest else String.◌∷◌ c s

abbrev trim_back_of : String → String
trim_back_of String.[] = ""
trim_back_of (String.◌∷◌ c s) =
    let rest = trim_back_of s in if trim (code c ∷ codes s) == [] then "" else String.◌∷◌ c rest

abbrev pub trim_of : String → String
trim_of s = trim_back_of (trim_front_of s)

-- `str::trim_end_matches` on a `String`, the pattern first
abbrev pub trim_end_of : String → String → String
trim_end_of n String.[] = ""
trim_end_of n (String.◌∷◌ c s) =
    let rest = trim_end_of n s in
    if repeats (codes n) [] (code c ∷ codes s) then "" else String.◌∷◌ c rest

-- The bytes of a code point in UTF-8
abbrev pub width : ℕ → ℕ
width c = if ltb c 128 then 1 else if ltb c 2048 then 2 else if ltb c 65536 then 3 else 4

-- `str::len`
abbrev pub byte_length : Text → ℕ
byte_length [] = 0
byte_length (c ∷ t) = width c + byte_length t

-- `&t[..n]`, which is there if `n` bytes end between two characters.
abbrev push_taken : ℕ → Option Text → Option Text
push_taken c none = none
push_taken c (some t) = some (c ∷ t)

unfoldable pub take_bytes : ℕ → Text → Option Text
take_bytes n [] = if n == 0 then some [] else none
take_bytes n (c ∷ t) =
    let rest = take_bytes (n - width c) t in
    if n == 0 then some [] else if ltb n (width c) then none else push_taken c rest
