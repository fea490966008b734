-- ===== src/Build/Steady.antt =====
-- Steps that lose no registration of the license tracker.
use leviso.Base.{
  List, Bool, ◌≡◌, ◌++◌, if◌then◌else◌, [], ◌∙◌, ◌∷◌, refl, true, ap, false, sym, append_assoc,
}
use leviso.Error.{err, ok}
use leviso.Build.{World, get_fs, Registration, on_fs, register_if}
use leviso.Exec.{Exec, for_each, with_context, fail, ◌>>=◌, ◌>>◌, forget, continue, wrap}
use leviso.Error.{ok, Error, Result}
use leviso.Fs.State.{Fs}

-- Nothing that was registered is lost.
unfoldable pub Grows : World → World → Type 0
Grows w v = (more : List Registration) × (v.registered ≡ more ++ w.registered)

pub Grows-refl : (w v : World) → v.registered ≡ w.registered → Grows w v
unfolding Grows
Grows-refl w v h = ([], h)

pub Grows-trans : (w v u : World) → Grows w v → Grows v u → Grows w u
unfolding Grows
Grows-trans w v u (l, h) (k, g) =
    (k ++ l, g ∙ ap (λ x. k ++ x) h ∙ sym (append_assoc k l w.registered))

module _ {T U : Type 0} where
  continue-Grows :
      (w : World) (r : Result T × World) (k : T → Exec World U)
      → Grows w r.1
      → ((x : T) (v : World) → Grows v (k x v).1)
      → Grows w (continue r k).1
  continue-Grows w (err e, v) k h g = h
  continue-Grows w (ok x, v) k h g = Grows-trans w v (k x v).1 h (g x v)

module _ {T : Type 0} where
  for_each-Grows :
      (body : T → Exec World (Unit {0}))
      → ((x : T) (v : World) → Grows v (body x v).1)
      → (xs : List T) (w : World) → Grows w (for_each body xs w).1
  for_each-Grows body h [] w = Grows-refl w w refl
  for_each-Grows body h (x ∷ xs) w =
      continue-Grows w (body x w) (λ _. for_each body xs) (h x w)
        (λ _ v. for_each-Grows body h xs v)

  wrap-Grows :
      (w : World) (more : Error → Error) (r : Result T × World)
      → Grows w r.1
      → Grows w (wrap more r).1
  wrap-Grows w more (err e, v) h = h
  wrap-Grows w more (ok x, v) h = h

on_fs-Grows : {T : Type 0} (m : Exec Fs T) (w : World) → Grows w (on_fs m w).1
on_fs-Grows m w = Grows-refl w (on_fs m w).1 refl

register_if-Grows :
    (tracker : Bool) (r : Registration) (w : World) → Grows w (register_if tracker r w).1
unfolding Grows
register_if-Grows true r w = (r ∷ [], refl)
register_if-Grows false r w = ([], refl)

-- A step that loses no registration.
unfoldable pub Steady : {T : Type 0} → Exec World T → Type 0
Steady m = (w : World) → Grows w (m w).1

module _ {T : Type 0} where
  pub pure-Steady : (x : T) → Steady (λ w. (ok x, w))
  unfolding Steady
  pure-Steady x w = Grows-refl w w refl

  pub on_fs-Steady : (m : Exec Fs T) → Steady (on_fs m)
  unfolding Steady
  on_fs-Steady m = on_fs-Grows m

  pub for_each-Steady :
      (body : T → Exec World (Unit {0})) (xs : List T)
      → ((x : T) → Steady (body x))
      → Steady (for_each body xs)
  unfolding Steady
  for_each-Steady body xs h = for_each-Grows body h xs

  pub with_context-Steady :
      (more : Error → Error) (m : Exec World T) → Steady m → Steady (with_context more m)
  unfolding Steady
  with_context-Steady more m h w = wrap-Grows w more (m w) (h w)

pub fail-Steady : (T : Type 0) (e : Error) → Steady {T = T} (fail e)
unfolding Steady
fail-Steady T e w = Grows-refl w w refl

module _ {T U : Type 0} where
  pub bind-Steady :
      (m : Exec World T) (k : T → Exec World U)
      → Steady m
      → ((x : T) → Steady (k x))
      → Steady (m >>= k)
  unfolding Steady
  bind-Steady m k h g w = continue-Grows w (m w) k (h w) g

  pub then-Steady : (m : Exec World T) (n : Exec World U) → Steady m → Steady n → Steady (m >> n)
  unfolding Steady
  then-Steady m n h g w = continue-Grows w (m w) (λ _. n) (h w) (λ _. g)

pub if-Steady :
    {T : Type 0} (b : World → Bool) (m n : Exec World T)
    → Steady m
    → Steady n
    → Steady (λ w. if b w then m w else n w)
unfolding Steady
if-Steady b m n h g w = elim (b w) as (λ c. Grows w (if c then m w else n w).1) [
  | true ↦ h w
  | false ↦ g w
]

pub get_fs-Steady : Steady get_fs
unfolding Steady
get_fs-Steady w = Grows-refl w w refl

pub choose-Steady :
    {T : Type 0} (b : Bool) (m n : Exec World T) → Steady m → Steady n → Steady (if b then m else n)
choose-Steady true m n h g = h
choose-Steady false m n h g = g

pub forget-Steady :
    {T : Type 0} (x : T) (m : Exec World T) → Steady m → Steady (λ w. (ok x, (forget (m w)).1))
unfolding Steady
forget-Steady x m h = h

pub register_if-Steady : (tracker : Bool) (r : Registration) → Steady (register_if tracker r)
unfolding Steady
register_if-Steady tracker r = register_if-Grows tracker r
