-- ===== src/Exec.antt =====
-- Functions with `?` that change the world: what was done before an error stays done, so the
-- state is returned beside the error too.
pub mod Loops
pub mod Missing
use leviso.Base.{List, [], ◌∷◌}
use leviso.Error.{Error, Result, ok, err}

-- The steps of the world `W` that return a `T` or an error.
abbrev pub Exec {ℓ} : Type ℓ → Type ℓ → Type ℓ
Exec W T = W → Result T × W

module _ {ℓ} {W T : Type ℓ} where
  -- `Ok(x)` and `bail!`
  abbrev pub pure : T → Exec W T
  pure x w = (ok x, w)

  abbrev pub fail : Error → Exec W T
  fail e w = (err e, w)

  -- A read that may fail.
  abbrev pub asks : (W → Result T) → Exec W T
  asks look w = (look w, w)

  -- `map_err`, `context`
  abbrev pub wrap : (Error → Error) → Result T × W → Result T × W
  wrap more (ok x, w) = (ok x, w)
  wrap more (err e, w) = (err (more e), w)

  abbrev pub with_context : (Error → Error) → Exec W T → Exec W T
  with_context more m w = wrap more (m w)

  -- `if let Err(_) = m`, `let _ = m`: what failed is dropped, what was done stays.
  abbrev pub forget : Result T × W → Result (Unit {ℓ}) × W
  forget (r, w) = (ok tt, w)

module _ {ℓ} {W T U : Type ℓ} where
  -- `?`
  abbrev pub continue : Result T × W → (T → Exec W U) → Result U × W
  continue (err e, w) k = (err e, w)
  continue (ok x, w) k = k x w

  infixl 5 ◌>>=◌ ◌>>◌
  abbrev pub ◌>>=◌ : Exec W T → (T → Exec W U) → Exec W U
  (m >>= k) w = continue (m w) k

  abbrev pub ◌>>◌ : Exec W T → Exec W U → Exec W U
  (m >> n) w = continue (m w) (λ _. n)

module _ {W T : Type 0} where
  -- `for x in xs { body(x)?; }`
  abbrev pub for_each : (T → Exec W (Unit {0})) → List T → Exec W (Unit {0})
  for_each body [] w = (ok tt, w)
  for_each body (x ∷ xs) w = continue (body x w) (λ _. for_each body xs)
