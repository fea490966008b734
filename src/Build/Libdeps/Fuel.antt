-- ===== src/Build/Libdeps/Fuel.antt =====
-- src/build/libdeps.rs: the recursion along links ends, so the fuel does not matter.
use leviso.Base.{
  String, List, [], ◌∷◌, ℕ, ◌≡◌, ◌≤◌, ◌<◌, refl, sym, ap, true, false, Bool, not, length, filterb,
  contains, string_eq, arith, Option, none, some, Bool-cases, inl, inr, clash, suc, zero,
}
use leviso.Error.{Result, ok, err}
use leviso.Exec.{Exec, continue, forget, ◌>>◌}
use leviso.Fs.Path.{FilePath, join, last_of, components, drop_last}
use leviso.Fs.State.{Fs}
use leviso.Fs.Ops.{lexists, is_some, symlink, read_link_of, lstat, is_symlink, create_dir_all}
use leviso.Fs.Extends.{
  Extends, symlink-Extends, symlink-lexists, Extends-trans, create_dir_all-Extends,
}
use leviso.Build.{
  World, Externals, BuildContext, beside, on_fs, register_if, Registration, of_binary,
}
use leviso.Build.Libdeps.{
  Find, follow, copy_link, copy_there, copy_body, find_or_extract, copy_executable, copy_if_found,
  extract_binary_from_rpm,
}
use mathlib.Core.Path.{subst}

-- How many names of a list have no entry.
abbrev lacking : (String → Bool) → List String → ℕ
lacking there ns = length (filterb (λ n. not (there n)) ns)

module _ (f g : String → Bool) (h : (n : String) → f n ≡ true → g n ≡ true) where
  lacking_antitone : (ns : List String) → lacking g ns ≤ lacking f ns
  lacking_antitone [] = omega arith
  lacking_antitone (n ∷ ns) = ground (arith, h n, lacking_antitone ns)

  lacking_less :
      (ns : List String) (m : String)
      → contains ns m ≡ true
      → f m ≡ false
      → g m ≡ true
      → lacking g ns < lacking f ns
  lacking_less [] m c a b = clash (sym c)
  lacking_less (n ∷ ns) m c a b =
      ground (arith, h n, string_eq.same_iff n m, lacking_antitone ns, lacking_less ns m)

lacking_all : (f : String → Bool) (ns : List String) → lacking f ns ≤ length ns
lacking_all f [] = omega arith
lacking_all f (n ∷ ns) = ground (arith, lacking_all f ns)

module _ (ext : Externals) (ctx : BuildContext) (find : Find ext ctx) (dest_dir : String)
    (tracker : Bool) where
  abbrev pub dest_of : String → FilePath
  dest_of binary = join (join ctx.staging dest_dir) binary

  -- States of the disk in which the search finds only these names, and which a copy of one of them
  -- does not leave: it makes directories and links at its destination, and extracts its package.
  pub record Bounded (Inv : Fs → Type 0) (names : List String) : Type 0 where
    pub found_names :
        (s : Fs) (n : String)
        → Inv s
        → is_some (find s ctx.source n) ≡ true
        → contains names n ≡ true
    pub dirs_kept :
        (n : String) (s : Fs)
        → contains names n ≡ true
        → Inv s
        → Inv (create_dir_all (drop_last (dest_of n)) s).1
    pub links_kept :
        (target n : String) (s : Fs)
        → contains names n ≡ true
        → Inv s
        → Inv (symlink target (dest_of n) s).1
    pub extraction_kept :
        (n : String) (s : Fs)
        → contains names n ≡ true
        → Inv s
        → Inv (find_or_extract ext ctx find n s).1

  module _ (Inv : Fs → Type 0) (names : List String) (bound : Bounded Inv names)
      (a b : String → Exec World Bool) where
    follow_same :
        (target : Option String) (w : World)
        → ((name : String) → is_some (find w.fs ctx.source name) ≡ true → a name w ≡ b name w)
        → follow ext ctx find a target w ≡ follow ext ctx find b target w
    follow_same none w h = refl
    follow_same (some name) w h = elim (Bool-cases (is_some (find w.fs ctx.source name))) [
      | inl y ↦ rw y (ap (λ r. (ok true, (forget r).1)) (h name y))
      | inr y ↦ rw y refl
    ]

    -- The recursive calls agree in the worlds in which they are made: those that have what `s` has,
    -- and something at `p`.
    Agree : Fs → FilePath → Type 0
    Agree s p =
        (u : World) (name : String)
        → Extends s u.fs
        → Inv u.fs
        → lexists u.fs p ≡ true
        → is_some (find u.fs ctx.source name) ≡ true
        → a name u ≡ b name u

    linked_same :
        (target : String) (p : FilePath) (w : World) (r : Result (Unit {0}) × Fs)
        → Extends w.fs r.1
        → Inv r.1
        → ((t : Fs) → r ≡ (ok tt, t) → lexists t p ≡ true)
        → Agree w.fs p
        → continue
            (beside w.registered r)
            (λ _. follow ext ctx find a (last_of (components target)))
          ≡ continue
              (beside w.registered r)
              (λ _. follow ext ctx find b (last_of (components target)))
    unfolding Agree
    linked_same target p w (err e, t) x i l h = refl
    linked_same target p w (ok tt, t) x i l h =
        follow_same (last_of (components target)) (record { fs = t; registered = w.registered })
          (λ name found. h (record { fs = t; registered = w.registered }) name x i (l t refl) found)

    copy_link_same :
        (bin_path : FilePath) (binary : String) (w : World)
        → contains names binary ≡ true
        → Inv w.fs
        → Agree w.fs (dest_of binary)
        → copy_link ext ctx find a bin_path (dest_of binary) w
          ≡ copy_link ext ctx find b bin_path (dest_of binary) w
    copy_link_same bin_path binary w c i h = read_same (read_link_of (lstat w.fs bin_path))
      where
        read_same :
            (r : Result String)
            → continue (beside w.registered (r, w.fs)) (λ target.
              on_fs (symlink target (dest_of binary))
              >> follow ext ctx find a (last_of (components target)))
              ≡ continue (beside w.registered (r, w.fs)) (λ target.
                on_fs (symlink target (dest_of binary))
                >> follow ext ctx find b (last_of (components target)))
        read_same (err e) = refl
        read_same (ok target) =
            linked_same target (dest_of binary) w (symlink target (dest_of binary) w.fs)
              (symlink-Extends target (dest_of binary) w.fs)
              (bound.links_kept target binary w.fs c i)
              (λ t. symlink-lexists target (dest_of binary) w.fs t) h

    copied_same :
        (binary : String) (bin_path : FilePath) (w : World) (r : Result (Unit {0}) × Fs)
        → contains names binary ≡ true
        → Extends w.fs r.1
        → Inv r.1
        → Agree w.fs (dest_of binary)
        → continue
            (beside w.registered r)
            (λ _. copy_there ext ctx find dest_dir a binary tracker bin_path)
          ≡ continue
              (beside w.registered r)
              (λ _. copy_there ext ctx find dest_dir b binary tracker bin_path)
    unfolding Agree
    copied_same binary bin_path w (err e, t) c x i h = refl
    copied_same binary bin_path w (ok tt, t) c x i h = elim (Bool-cases (is_symlink t bin_path)) [
      | inl y ↦ rw y (
          copy_link_same bin_path binary (record { fs = t; registered = w.registered }) c i
            λ u name k. h u name (Extends-trans w.fs t u.fs x k))
      | inr y ↦ rw y refl
    ]

    copy_body_same :
        (binary : String) (bin_path : FilePath) (w : World)
        → contains names binary ≡ true
        → Inv w.fs
        → (lexists w.fs (dest_of binary) ≡ false → Agree w.fs (dest_of binary))
        → copy_body ext ctx find dest_dir a binary tracker bin_path w
          ≡ copy_body ext ctx find dest_dir b binary tracker bin_path w
    copy_body_same binary bin_path w c i h = elim (Bool-cases (lexists w.fs (dest_of binary))) [
      | inl y ↦ rw y refl
      | inr y ↦ rw y (
          copied_same binary bin_path w (create_dir_all (drop_last (dest_of binary)) w.fs) c
            (create_dir_all-Extends (drop_last (dest_of binary)) w.fs)
            (bound.dirs_kept binary w.fs c i) (h y))
    ]

    registered_same :
        (binary : String) (bin_path : FilePath) (w : World) (t : Bool)
        → contains names binary ≡ true
        → Inv w.fs
        → (lexists w.fs (dest_of binary) ≡ false → Agree w.fs (dest_of binary))
        → continue
            (register_if t (of_binary binary) w)
            (λ _. copy_body ext ctx find dest_dir a binary tracker bin_path)
          ≡ continue
              (register_if t (of_binary binary) w)
              (λ _. copy_body ext ctx find dest_dir b binary tracker bin_path)
    registered_same binary bin_path w true c i h =
        copy_body_same binary bin_path (record w { registered = of_binary binary ∷ w.registered }) c
          i h
    registered_same binary bin_path w false c i h = copy_body_same binary bin_path w c i h

    found_same :
        (binary : String) (l : List Registration) (r : Result (Option FilePath) × Fs)
        → contains names binary ≡ true
        → Inv r.1
        → (lexists r.1 (dest_of binary) ≡ false → Agree r.1 (dest_of binary))
        → continue (beside l r) (copy_if_found ext ctx find dest_dir a binary tracker)
          ≡ continue (beside l r) (copy_if_found ext ctx find dest_dir b binary tracker)
    found_same binary l (err e, s) c i h = refl
    found_same binary l (ok none, s) c i h = refl
    found_same binary l (ok (some bin_path), s) c i h =
        registered_same binary bin_path (record { fs = s; registered = l }) tracker c i h

  module _ (Inv : Fs → Type 0) (names : List String) (bound : Bounded Inv names) where
    abbrev again : ℕ → String → Exec World Bool
    again fuel name = copy_executable ext ctx find dest_dir fuel name tracker

    abbrev there : Fs → String → Bool
    there s n = lexists s (dest_of n)

    find_or_extract-kept :
        (binary : String) (s : Fs)
        → is_some (find s ctx.source binary) ≡ true
        → (find_or_extract ext ctx find binary s).1 ≡ s
    find_or_extract-kept binary s = extract_kept (find s ctx.source binary)
      where
        extract_kept :
            (o : Option FilePath)
            → is_some o ≡ true
            → (elim o as (λ _. Result (Option FilePath) × Fs) [
              | some p ↦ (ok (some p), s)
              | none ↦ extract_binary_from_rpm ext ctx binary s
            ]).1
              ≡ s
        extract_kept none h = clash (sym h)
        extract_kept (some p) h = refl

    fewer :
        (s t u : Fs) (binary : String)
        → t ≡ s
        → contains names binary ≡ true
        → Extends t u
        → lexists t (dest_of binary) ≡ false
        → lexists u (dest_of binary) ≡ true
        → lacking (there u) names < lacking (there s) names
    unfolding Extends
    fewer s t u binary kept c x was now =
        lacking_less (there s) (there u)
          (λ n e. x (dest_of n) (subst (λ v. lexists v (dest_of n) ≡ true) (sym kept) e)) names
          binary c (subst (λ v. lexists v (dest_of binary) ≡ false) kept was) now

    -- A call for a name that is found needs no more rounds than there are names without an entry.
    enough :
        (k a b : ℕ) (binary : String) (w : World)
        → Inv w.fs
        → is_some (find w.fs ctx.source binary) ≡ true
        → lacking (there w.fs) names ≤ k
        → k < a
        → k < b
        → copy_executable ext ctx find dest_dir a binary tracker w
          ≡ copy_executable ext ctx find dest_dir b binary tracker w
    unfolding copy_executable Agree
    enough k zero b binary w i f m p q = absurd (omega arith)
    enough k (suc a) zero binary w i f m p q = absurd (omega arith)
    enough zero (suc a) (suc b) binary w i f m p q =
        found_same Inv names bound (again a) (again b) binary w.registered
          (find_or_extract ext ctx find binary w.fs) (bound.found_names w.fs binary i f)
          (bound.extraction_kept binary w.fs (bound.found_names w.fs binary i f) i)
          λ was u name x ui now g.
            let kept = find_or_extract-kept binary w.fs f in
            let less =
              fewer w.fs _ u.fs binary kept (bound.found_names w.fs binary i f) x was now in
            absurd (omega (arith, less, m))
    enough (suc k) (suc a) (suc b) binary w i f m p q =
        found_same Inv names bound (again a) (again b) binary w.registered
          (find_or_extract ext ctx find binary w.fs) (bound.found_names w.fs binary i f)
          (bound.extraction_kept binary w.fs (bound.found_names w.fs binary i f) i)
          λ was u name x ui now g.
            let kept = find_or_extract-kept binary w.fs f in
            let less =
              fewer w.fs _ u.fs binary kept (bound.found_names w.fs binary i f) x was now in
            enough k a b name u ui g (omega (arith, less, m)) (omega arith) (omega arith)

    pub copy_executable_enough :
        (a b : ℕ) (binary : String) (w : World)
        → contains names binary ≡ true
        → Inv w.fs
        → suc (length names) < a
        → suc (length names) < b
        → copy_executable ext ctx find dest_dir a binary tracker w
          ≡ copy_executable ext ctx find dest_dir b binary tracker w
    unfolding copy_executable Agree
    copy_executable_enough zero b binary w c i p q = absurd (omega arith)
    copy_executable_enough (suc a) zero binary w c i p q = absurd (omega arith)
    copy_executable_enough (suc a) (suc b) binary w c i p q =
        found_same Inv names bound (again a) (again b) binary w.registered
          (find_or_extract ext ctx find binary w.fs) c (bound.extraction_kept binary w.fs c i)
          λ was u name x ui now g.
            enough (length names) a b name u ui g (lacking_all (there u.fs) names) (omega arith)
              (omega arith)
