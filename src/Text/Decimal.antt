-- ===== src/Text/Decimal.antt =====
-- Printing and parsing of `u32`.
use native.Mathlib.Nat.{pow-suc}
use leviso.Base.{
  ℕ, zero, suc, ◌+◌, ◌-◌, ◌*◌, ◌/◌, ◌%◌, ◌^◌, ◌<◌, ◌≡◌, ◌≢◌, refl, ap, ◌∙◌, [], ◌∷◌, ◌++◌, true,
  some, All, All-append, arith, inl, inr, Bool-cases, ltb,
}
use leviso.Text.{Text, u32_size, is_digit, parse_digits, parse_u32, show_digits, show_u32}

parse_digits-append :
    (acc v : ℕ) (s t : Text)
    → parse_digits acc s ≡ some v
    → parse_digits acc (s ++ t) ≡ parse_digits v t
unfolding parse_digits
parse_digits-append acc v [] t h = ground arith
parse_digits-append acc v (c ∷ s) t h =
    ground (arith, parse_digits-append (acc * 10 + (c - b'0')) v s t)

parse_digit :
    (acc d : ℕ)
    → d < 10
    → acc * 10 + d < u32_size
    → parse_digits acc ((b'0' + d) ∷ []) ≡ some (acc * 10 + d)
unfolding parse_digits
parse_digit acc d h k = ground arith

parse-show_digits :
    (fuel n : ℕ) → n < 10 ^ fuel → n < u32_size → parse_digits 0 (show_digits fuel n) ≡ some n
unfolding show_digits
parse-show_digits zero n h k = unfold parse_digits in ground arith
parse-show_digits (suc fuel) n h k = elim (Bool-cases (ltb n 10)) [
  | inl small ↦ rw small (parse_digit 0 n (ground arith) (omega arith) ∙ ap some (omega arith))
  | inr big ↦ rw big (
      parse_digits-append 0 (n / 10) (show_digits fuel (n / 10)) _
        (parse-show_digits fuel (n / 10) (omega (arith, pow-suc 10 fuel)) (omega arith))
      ∙ parse_digit (n / 10) (n % 10) (omega arith) (omega arith)
      ∙ ap some (omega arith))
]

abbrev pub IsDigits : Text → Type 0
IsDigits = All (λ c. is_digit c ≡ true)

pub show_digits-IsDigits : (fuel n : ℕ) → IsDigits (show_digits fuel n)
unfolding show_digits
show_digits-IsDigits zero n = tt
show_digits-IsDigits (suc fuel) n = elim (Bool-cases (ltb n 10)) [
  | inl small ↦ rw small ((ground arith, tt))
  | inr big ↦ rw big (All-append _ _ _ (show_digits-IsDigits fuel (n / 10)) (ground arith, tt))
]

append_one-ne-nil : (t : Text) (c : ℕ) → t ++ (c ∷ []) ≢ []
append_one-ne-nil [] c h = cc
append_one-ne-nil (d ∷ t) c h = cc

show_digits-ne-nil : (fuel n : ℕ) → show_digits (suc fuel) n ≢ []
unfolding show_digits
show_digits-ne-nil fuel n =
    ground (arith, append_one-ne-nil (show_digits fuel (n / 10)) (b'0' + n % 10))

parse_u32-digits : (t : Text) → t ≢ [] → IsDigits t → parse_u32 t ≡ parse_digits 0 t
unfolding parse_u32
parse_u32-digits [] h d = absurd (h refl)
parse_u32-digits (c ∷ t) h d = ground arith

-- A `u32` that is printed with `{}` and parsed is the same number.
pub parse_u32-show_u32 : (n : ℕ) → n < u32_size → parse_u32 (show_u32 n) ≡ some n
unfolding show_u32
parse_u32-show_u32 n h =
    parse_u32-digits _ (show_digits-ne-nil 9 n) (show_digits-IsDigits 10 n)
    ∙ parse-show_digits 10 n (omega arith) h
