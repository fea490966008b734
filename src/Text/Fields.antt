-- ===== src/Text/Fields.antt =====
-- Laws of `str::split`.
use leviso.Base.{ℕ, ◌≡◌, refl, List, [], ◌∷◌, ◌++◌, true, false, All, arith, ◌==◌, nat_eq}
use leviso.Text.{Text, starts_with, split, push_code}

-- A text in which the separator does not occur.
abbrev pub Lacks : ℕ → Text → Type 0
Lacks sep = All (λ c. (c == sep) ≡ false)

pub split-field :
    (sep : ℕ) (t r : Text) → Lacks sep t → split sep (t ++ (sep ∷ r)) ≡ t ∷ split sep r
unfolding split
split-field sep [] r h = ground arith
split-field sep (c ∷ t) r h = ground (arith, split-field sep t r h.1)

pub split-last : (sep : ℕ) (t : Text) → Lacks sep t → split sep t ≡ t ∷ []
unfolding split
split-last sep [] h = refl
split-last sep (c ∷ t) h = ground (arith, split-last sep t h.1)

-- The first of several pieces after a character is pushed on it.
push_code-eq :
    (c : ℕ) (ls : List Text) (t x : Text) (xs : List Text)
    → push_code c ls ≡ t ∷ x ∷ xs
    → (r : Text) × (ls ≡ r ∷ x ∷ xs) × (t ≡ c ∷ r)
push_code-eq c [] t x xs h = absurd (cc)
push_code-eq c (r ∷ ls) t x xs h = (r, ground arith, ground arith)

-- A line of which `t` is the first of several pieces begins with `t` and the separator.
pub split-starts :
    (sep : ℕ) (l t x : Text) (xs : List Text)
    → split sep l ≡ t ∷ x ∷ xs
    → starts_with (t ++ (sep ∷ [])) l ≡ true
unfolding split
split-starts sep [] t x xs h = cc
split-starts sep (c ∷ l) [] x xs h = ground (arith, push_code-eq c (split sep l) [] x xs)
split-starts sep (c ∷ l) (d ∷ t) x xs h =
    ground (arith, push_code-eq c (split sep l) (d ∷ t) x xs, split-starts sep l t x xs)
