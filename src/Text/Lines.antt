-- ===== src/Text/Lines.antt =====
-- Laws of `str::lines` and `str::contains`.
use leviso.Base.{
  ℕ, ◌≡◌, ◌≢◌, refl, ◌⊎◌, List, [], ◌∷◌, ◌++◌, true, false, ◌&&◌, All, arith, inl, inr, Bool-cases,
  ◌==◌, nat_eq, append_assoc,
}
use leviso.Text.{Text, newline, return, starts_with, contains_text, lines, push_code, at_newline}

push_code-append :
    (c : ℕ) (ls ms : List Text) → ls ≢ [] → push_code c (ls ++ ms) ≡ push_code c ls ++ ms
push_code-append c [] ms h = absurd (h refl)
push_code-append c (l ∷ ls) ms h = refl

lines-ne-nil : (t r : Text) → lines (t ++ (newline ∷ r)) ≢ []
unfolding lines
lines-ne-nil [] r h = cc
lines-ne-nil (c ∷ t) r h =
    ground (arith, lines-ne-nil t r, push_code-ne-nil c (lines (t ++ (newline ∷ r))))
  where
    push_code-ne-nil : (c : ℕ) (ls : List Text) → push_code c ls ≢ []
    push_code-ne-nil c [] e = cc
    push_code-ne-nil c (l ∷ ls) e = cc

at_newline-append :
    (t r : Text) → at_newline (t ++ (newline ∷ r)) ≡ at_newline (t ++ (newline ∷ []))
at_newline-append [] r = refl
at_newline-append (c ∷ t) r = refl

-- What follows a newline has lines of its own.
pub lines-append :
    (t r : Text) → lines (t ++ (newline ∷ r)) ≡ lines (t ++ (newline ∷ [])) ++ lines r
unfolding lines
lines-append [] r = refl
lines-append (c ∷ t) r = ground (
  arith,
  lines-append t r,
  at_newline-append t r,
  lines-ne-nil t [],
  push_code-append c (lines (t ++ (newline ∷ []))) (lines r),
)

-- A text without line ends is one line.
abbrev pub IsOneLine : Text → Type 0
IsOneLine = All (λ c. ((c == newline) ≡ false) × ((c == return) ≡ false))

pub lines-one_line :
    (c : ℕ) (t : Text) → IsOneLine (c ∷ t) → lines ((c ∷ t) ++ (newline ∷ [])) ≡ (c ∷ t) ∷ []
unfolding lines
lines-one_line c [] h = ground arith
lines-one_line c (d ∷ t) h = ground (arith, lines-one_line d t h.1)

abbrev first : List Text → Text
first [] = []
first (l ∷ ls) = l

abbrev others : List Text → List Text
others [] = []
others (l ∷ ls) = ls

first-at_newline : (t : Text) → at_newline t ≡ true → first (lines t) ≡ []
unfolding lines
first-at_newline [] h = cc
first-at_newline (c ∷ t) h = ground arith

first-push_code : (c : ℕ) (ls : List Text) → first (push_code c ls) ≡ c ∷ first ls
first-push_code c [] = refl
first-push_code c (l ∷ ls) = refl

starts_with-first : (n t : Text) → starts_with n (first (lines t)) ≡ true → starts_with n t ≡ true
unfolding lines
starts_with-first [] t h = refl
starts_with-first (d ∷ n) [] h = h
starts_with-first (d ∷ n) (c ∷ t) h =
    ground (arith, starts_with-first n t, first-at_newline t, first-push_code c (lines t))

-- No line begins with `n`.
abbrev pub Avoids : Text → List Text → Type 0
Avoids n = All (λ l. starts_with n l ≡ false)

Avoids-push_code :
    (d : ℕ) (n : Text) (c : ℕ) (ls : List Text)
    → starts_with (d ∷ n) (c ∷ first ls) ≡ false
    → Avoids (d ∷ n) ls
    → Avoids (d ∷ n) (push_code c ls)
Avoids-push_code d n c [] h k = (h, tt)
Avoids-push_code d n c (l ∷ ls) h k = (h, k.1)

not_starts_with-first :
    (d : ℕ) (n : Text) (c : ℕ) (t : Text)
    → starts_with (d ∷ n) (c ∷ t) ≡ false
    → starts_with (d ∷ n) (c ∷ first (lines t)) ≡ false
not_starts_with-first d n c t h = ground (arith, starts_with-first n t)

-- If a text does not contain `n`, no line of it begins with `n`.
pub lines-Avoids : (d : ℕ) (n t : Text) → contains_text (d ∷ n) t ≡ false → Avoids (d ∷ n) (lines t)
unfolding lines contains_text
lines-Avoids d n [] h = tt
lines-Avoids d n (c ∷ t) h =
    let rest : Avoids (d ∷ n) (lines t) = lines-Avoids d n t (ground arith) in
    elim (Bool-cases (c == newline)) [
      | inl nl ↦ rw nl (refl, rest)
      | inr plain ↦ rw plain (elim (Bool-cases (c == return && at_newline t)) [
        | inl ends ↦ rw ends rest
        | inr inside ↦
            rw inside
              (Avoids-push_code d n c (lines t) (not_starts_with-first d n c t (ground arith)) rest)
      ])
    ]

starts_with-append : (n b : Text) → starts_with n (n ++ b) ≡ true
starts_with-append [] b = refl
starts_with-append (c ∷ n) b = ground (arith, starts_with-append n b)

contains_of_starts : (n t : Text) → starts_with n t ≡ true → contains_text n t ≡ true
unfolding contains_text
contains_of_starts n [] h = h
contains_of_starts n (c ∷ t) h = rw h

-- A text contains what stands in the middle of it.
pub contains_text-middle : (n a b : Text) → contains_text n (a ++ (n ++ b)) ≡ true
unfolding contains_text
contains_text-middle n [] b = contains_of_starts n (n ++ b) (starts_with-append n b)
contains_text-middle n (c ∷ a) b = ground (arith, contains_text-middle n a b)

-- Empty, or ended by a newline.
abbrev pub EndsLine : Text → Type 0
EndsLine t = (t ≡ []) ⊎ ((r : Text) × (t ≡ r ++ (newline ∷ [])))

pub lines-EndsLine : (t s : Text) → EndsLine t → lines (t ++ s) ≡ lines t ++ lines s
unfolding lines
lines-EndsLine t s (inl e) = rw e
lines-EndsLine t s (inr (r, e)) = rw (e, append_assoc) (lines-append r s)
