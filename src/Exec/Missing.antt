-- ===== src/Exec/Missing.antt =====
-- Loops that go on where something is not found, and report at their end what was missing.
use leviso.Base.{List, [], ◌∷◌, ◌≡◌, refl, true, false, Bool, if◌then◌else◌, not, is_empty}
use leviso.Error.{Error, Result, ok, err}
use leviso.Exec.{Exec, continue, ◌>>=◌, pure, fail}

module _ {W T : Type 0} (body : T → Exec W Bool) where
  -- `for x in xs { if !body(x)? { missing.push(x); } }`
  unfoldable pub each_missing : List T → Exec W (List T)
  each_missing [] = pure []
  each_missing (x ∷ xs) = do
    found ← body x
    missing ← each_missing xs
    pure (if not found then x ∷ missing else missing)

  -- The rounds end in a world, one after the other; these elements are not found.
  pub data Tried : W → List T → List T → W → Type 0 where
    done : (w : W) → Tried w [] [] w
    found :
        (w v t : W) (x : T) (xs missing : List T)
        → body x w ≡ (ok true, v)
        → Tried v xs missing t
        → Tried w (x ∷ xs) missing t
    absent :
        (w v t : W) (x : T) (xs missing : List T)
        → body x w ≡ (ok false, v)
        → Tried v xs missing t
        → Tried w (x ∷ xs) (x ∷ missing) t

  -- A round fails with an error of its own, and no other round follows.
  pub data Broken : W → List T → Error → W → Type 0 where
    here :
        (w t : W) (x : T) (xs : List T) (e : Error) → body x w ≡ (err e, t) → Broken w (x ∷ xs) e t
    later :
        (w v t : W) (x : T) (xs : List T) (is_found : Bool) (e : Error)
        → body x w ≡ (ok is_found, v)
        → Broken v xs e t
        → Broken w (x ∷ xs) e t

  -- What the loop returns.
  pub data Loop (w : W) (xs : List T) : Result (List T) × W → Type 0 where
    ended : (t : W) (missing : List T) → Tried w xs missing t → Loop w xs (ok missing, t)
    stopped : (t : W) (e : Error) → Broken w xs e t → Loop w xs (err e, t)

  push_found :
      (w v : W) (x : T) (xs : List T) (r : Result (List T) × W)
      → body x w ≡ (ok true, v)
      → Loop v xs r
      → Loop w (x ∷ xs) (continue r (λ missing t. (ok missing, t)))
  push_found w v x xs r h (ended t missing c) = ended t missing (found w v t x xs missing h c)
  push_found w v x xs r h (stopped t e b) = stopped t e (later w v t x xs true e h b)

  push_absent :
      (w v : W) (x : T) (xs : List T) (r : Result (List T) × W)
      → body x w ≡ (ok false, v)
      → Loop v xs r
      → Loop w (x ∷ xs) (continue r (λ missing t. (ok (x ∷ missing), t)))
  push_absent w v x xs r h (ended t missing c) =
      ended t (x ∷ missing) (absent w v t x xs missing h c)
  push_absent w v x xs r h (stopped t e b) = stopped t e (later w v t x xs false e h b)

  pub push :
      (rest : Exec W (List T)) (w : W) (x : T) (xs : List T) (r : Result Bool × W)
      → body x w ≡ r
      → ((v : W) → Loop v xs (rest v))
      → Loop w (x ∷ xs) (
          continue r
            (λ is_found. rest >>= λ missing. pure (if not is_found then x ∷ missing else missing)))
  push rest w x xs (err e, v) h ih = stopped v e (here w v x xs e h)
  push rest w x xs (ok true, v) h ih = push_found w v x xs (rest v) h (ih v)
  push rest w x xs (ok false, v) h ih = push_absent w v x xs (rest v) h (ih v)

  pub each_missing-Loop : (xs : List T) (w : W) → Loop w xs (each_missing xs w)
  unfolding each_missing
  each_missing-Loop [] w = ended w [] (done w)
  each_missing-Loop (x ∷ xs) w =
      push (each_missing xs) w x xs (body x w) refl (each_missing-Loop xs)

  module _ (report : List T → Error) where
    -- A loop that ends with a report of all that is missing, in its order, if anything is.
    pub data Reported (w : W) (xs : List T) : Result (Unit {0}) × W → Type 0 where
      all_found : (t : W) → Tried w xs [] t → Reported w xs (ok tt, t)
      some_missing :
          (t : W) (x : T) (missing : List T)
          → Tried w xs (x ∷ missing) t
          → Reported w xs (err (report (x ∷ missing)), t)
      broken : (t : W) (e : Error) → Broken w xs e t → Reported w xs (err e, t)

    pub finish :
        (w : W) (xs : List T) (r : Result (List T) × W)
        → Loop w xs r
        → Reported w xs (
            continue r
              (λ missing. if not (is_empty missing) then fail (report missing) else pure tt))
    finish w xs r (ended t [] c) = all_found t c
    finish w xs r (ended t (x ∷ missing) c) = some_missing t x missing c
    finish w xs r (stopped t e b) = broken t e b
