-- ===== src/Exec/Loops.antt =====
-- Chains and loops of steps: the first error ends them.
use leviso.Base.{◌≡◌, refl, List, [], ◌∷◌, ◌++◌, ◌∙◌, ap, sym}
use leviso.Error.{Error, Result, ok, err}
use leviso.Exec.{Exec, continue, for_each, ◌>>◌, ◌>>=◌, wrap}

module _ {W T U V : Type 0} where
  continue-continue :
      (r : Result T × W) (k : T → Exec W U) (l : U → Exec W V)
      → continue (continue r k) l ≡ continue r (λ x w. continue (k x w) l)
  continue-continue (err e, w) k l = refl
  continue-continue (ok x, w) k l = refl

module _ {W : Type 0} where
  continue-done : (r : Result (Unit {0}) × W) → r ≡ continue r (λ _ w. (ok tt, w))
  continue-done (err e, w) = refl
  continue-done (ok tt, w) = refl

module _ {W T : Type 0} (body : T → Exec W (Unit {0})) where
  -- `m; body(x0)?; body(x1)?; …`
  abbrev pub sequence : Exec W (Unit {0}) → List T → Exec W (Unit {0})
  sequence m [] = m
  sequence m (x ∷ xs) = sequence (m >> body x) xs

  pub sequence-for_each :
      (m : Exec W (Unit {0})) (xs : List T) (w : W) → sequence m xs w ≡ (m >> for_each body xs) w
  sequence-for_each m [] w = continue-done (m w)
  sequence-for_each m (x ∷ xs) w =
      sequence-for_each (m >> body x) xs w
      ∙ continue-continue (m w) (λ _. body x) (λ _. for_each body xs)

  -- Where a loop ends with an error: what is before has run, what is after has not.
  pub record Stopped (xs : List T) (w : W) (e : Error) (t : W) : Type 0 where
    pub before : List T
    pub culprit : T
    pub after : List T
    pub split : xs ≡ before ++ (culprit ∷ after)
    pub mid : W
    pub ran : for_each body before w ≡ (ok tt, mid)
    pub failed : body culprit mid ≡ (err e, t)

  here :
      (x : T) (xs : List T) (w t : W) (e : Error) → body x w ≡ (err e, t) → Stopped (x ∷ xs) w e t
  here x xs w t e h = record {
    before = [];
    culprit = x;
    after = xs;
    split = refl;
    mid = w;
    ran = refl;
    failed = h;
  }

  later :
      (x : T) (xs : List T) (w v t : W) (e : Error)
      → body x w ≡ (ok tt, v)
      → Stopped xs v e t
      → Stopped (x ∷ xs) w e t
  later x xs w v t e h s = record {
    before = x ∷ s.before;
    culprit = s.culprit;
    after = s.after;
    split = ap (λ l. x ∷ l) s.split;
    mid = s.mid;
    ran = rw h s.ran;
    failed = s.failed;
  }

  step-Stopped :
      (x : T) (xs : List T) (w t : W) (e : Error) (r : Result (Unit {0}) × W)
      → body x w ≡ r
      → ((v : W) → for_each body xs v ≡ (err e, t) → Stopped xs v e t)
      → continue r (λ _. for_each body xs) ≡ (err e, t)
      → Stopped (x ∷ xs) w e t
  step-Stopped x xs w t e (err f, v) b ih h = here x xs w t e (b ∙ h)
  step-Stopped x xs w t e (ok tt, v) b ih h = later x xs w v t e b (ih v h)

  pub for_each-Stopped :
      (xs : List T) (w t : W) (e : Error) → for_each body xs w ≡ (err e, t) → Stopped xs w e t
  for_each-Stopped [] w t e h = cc
  for_each-Stopped (x ∷ xs) w t e h =
      step-Stopped x xs w t e (body x w) refl (λ v. for_each-Stopped xs v t e) h

module _ {W T : Type 0} where
  -- An error with a context is an error below it.
  pub wrap-err :
      (more : Error → Error) (r : Result T × W) (e : Error) (t : W)
      → wrap more r ≡ (err e, t)
      → (cause : Error) × (r ≡ (err cause, t)) × (e ≡ more cause)
  wrap-err more (ok x, v) e t h = cc
  wrap-err more (err c, v) e t h = (c, cc, cc)

  pub wrap-ok :
      (more : Error → Error) (r : Result T × W) (x : T) (t : W)
      → wrap more r ≡ (ok x, t)
      → r ≡ (ok x, t)
  wrap-ok more (ok y, v) x t h = h
  wrap-ok more (err c, v) x t h = cc

-- A chain that ends well has passed both of its parts.
module _ {W T U : Type 0} where
  through_bind :
      (r : Result T × W) (k : T → Exec W U) {y : U} {t : W}
      → continue r k ≡ (ok y, t)
      → (x : T) × (v : W) × (r ≡ (ok x, v)) × (k x v ≡ (ok y, t))
  through_bind (err e, v) k h = cc
  through_bind (ok x, v) k h = (x, v, refl, h)

  pub through :
      (m : Exec W T) (k : T → Exec W U) {w : W} {y : U} {t : W}
      → (m >>= k) w ≡ (ok y, t)
      → (x : T) × (v : W) × (m w ≡ (ok x, v)) × (k x v ≡ (ok y, t))
  through m k {w} h = through_bind (m w) k h

  pub both :
      (m : Exec W T) (n : Exec W U) {w : W} {y : U} {t : W}
      → (m >> n) w ≡ (ok y, t)
      → (x : T) × (v : W) × (m w ≡ (ok x, v)) × (n v ≡ (ok y, t))
  both m n {w} h = through_bind (m w) (λ _. n) h

-- A step that only reads leaves the state as it is.
module _ {W T : Type 0} where
  pub reads-ok :
      {r : Result T} {v : W} {x : T} {t : W}
      → Path (Result T × W) (r, v) (ok x, t)
      → (r ≡ ok x) × (v ≡ t)
  reads-ok h = (ap (λ p. p.0) h, ap (λ p. p.1) h)

-- Steps that leave the state as it is where they end well
module _ {W : Type 0} where
  abbrev pub Reading : Exec W (Unit {0}) → Type 0
  Reading m = (a b : W) → m a ≡ (ok tt, b) → a ≡ b

  settled :
      (m : Exec W (Unit {0})) {a b t : W} → m a ≡ (ok tt, b) → a ≡ b → b ≡ t → m t ≡ (ok tt, t)
  settled m h p q = ap m (sym (p ∙ q)) ∙ h ∙ ap (λ v. (ok tt, v)) q

  pub both-Reading : (m n : Exec W (Unit {0})) → Reading m → Reading n → Reading (m >> n)
  both-Reading m n x y a b h = let (_, c, i, j) = both m n h in x a c i ∙ y c b j

  -- Checks that pass one after the other pass at the end.
  pub both-settled :
      (m n : Exec W (Unit {0})) (w : W) {t : W}
      → Reading m
      → Reading n
      → (m >> n) w ≡ (ok tt, t)
      → (m t ≡ (ok tt, t)) × (n t ≡ (ok tt, t))
  both-settled m n w {t} x y h =
      let (_, c, i, j) = both m n h in (settled m i (x w c i) (y c t j), settled n j (y c t j) refl)
