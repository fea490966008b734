-- ===== src/Builder/Order.antt =====
-- src/component/builder.rs: the order of the components, for any lists of distro-spec.
use leviso.Base.{
  List, [], ◌∷◌, ◌≡◌, ◌≢◌, refl, ◌==◌, string_eq, All, Bool, true, all, leb, ◌&&◌, not, arith, ◌++◌,
}
use leviso.Component.Types.{Component, ◌≤ᵖ◌, discriminant}
use leviso.Component.Spec.{Spec}
use leviso.Builder.{all_installables}
use leviso.Component.Service.{service_installable}

-- Every phase is at most every later one.
pub Ascending : List Component → Type 0
Ascending [] = Unit
Ascending (c ∷ cs) = All (λ d. c.phase ≤ᵖ d.phase) cs × Ascending cs

pub Distinct : List Component → Type 0
Distinct [] = Unit
Distinct (c ∷ cs) = All (λ d. c.name ≢ d.name) cs × Distinct cs

-- The tests of this file, as functions.
abbrev is_ascending : List Component → Bool
is_ascending [] = true
is_ascending (c ∷ cs) =
    all (λ d. leb (discriminant c.phase) (discriminant d.phase)) cs && is_ascending cs

abbrev are_distinct : List Component → Bool
are_distinct [] = true
are_distinct (c ∷ cs) = all (λ d. not (c.name == d.name)) cs && are_distinct cs

all-phases :
    (c : Component) (cs : List Component)
    → all (λ d. leb (discriminant c.phase) (discriminant d.phase)) cs ≡ true
    → All (λ d. c.phase ≤ᵖ d.phase) cs
all-phases c [] h = tt
all-phases c (d ∷ cs) h = (ground arith, all-phases c cs (ground arith))

all-names :
    (c : Component) (cs : List Component)
    → all (λ d. not (c.name == d.name)) cs ≡ true
    → All (λ d. c.name ≢ d.name) cs
all-names c [] h = tt
all-names c (d ∷ cs) h =
    (ground (arith, string_eq.same_iff c.name d.name), all-names c cs (ground arith))

is_ascending-Ascending : (cs : List Component) → is_ascending cs ≡ true → Ascending cs
unfolding Ascending
is_ascending-Ascending [] h = tt
is_ascending-Ascending (c ∷ cs) h =
    (all-phases c cs (ground arith), is_ascending-Ascending cs (ground arith))

are_distinct-Distinct : (cs : List Component) → are_distinct cs ≡ true → Distinct cs
unfolding Distinct
are_distinct-Distinct [] h = tt
are_distinct-Distinct (c ∷ cs) h =
    (all-names c cs (ground arith), are_distinct-Distinct cs (ground arith))

All-last :
    (P : Component → Type 0) (before : List Component) (c : Component) (after : List Component)
    → All P (before ++ (c ∷ after))
    → P c
All-last P [] c after (h, _) = h
All-last P (x ∷ before) c after (_, h) = All-last P before c after h

-- Around an element of an ascending list
pub Ascending-split :
    (before : List Component) (c : Component) (after : List Component)
    → Ascending (before ++ (c ∷ after))
    → All (λ d. d.phase ≤ᵖ c.phase) before × All (λ d. c.phase ≤ᵖ d.phase) after
unfolding Ascending
Ascending-split [] c after h = (tt, h.0)
Ascending-split (x ∷ before) c after h =
    let (b, a) = Ascending-split before c after h.1 in
    ((All-last (λ d. x.phase ≤ᵖ d.phase) before c after h.0, b), a)

-- Whatever the lists of distro-spec hold, the components that a build installs are in the order
-- of their phases, and no two of them have the same name.
pub all_installables-Ascending :
    (spec : Spec) → Ascending (all_installables spec) × Distinct (all_installables spec)
unfolding all_installables
all_installables-Ascending spec = (
  is_ascending-Ascending (all_installables spec) refl,
  are_distinct-Distinct (all_installables spec) refl,
)
