-- ===== src/Build/Filesystem/Linked.antt =====
-- src/build/filesystem.rs: the links of /var, and what is left alone where they are made.
use leviso.Base.{◌≡◌, String, true, false, not, ◌&&◌, Bool-cases, inl, inr, ap, some, sym}
use leviso.Error.{ok, context}
use leviso.Exec.{◌>>◌, Exec}
use leviso.Exec.Loops.{both, wrap-ok}
use leviso.Fs.Path.{FilePath, join}
use leviso.Fs.State.{Fs, link}
use leviso.Fs.Ops.{exists, lexists, is_symlink, symlink, create_dir_all, lstat}
use leviso.Fs.Kept.{Keeps, Keeps-refl, Keeps-trans}
use leviso.Fs.Kept.Steps.{
  Keeping, branch-Keeps, context-Keeping, create_dir_all-Keeping, symlink-Keeping, symlink-made,
}
use leviso.Fs.Links.{taken-lexists, both_free}
use leviso.Build.Filesystem.{create_var_symlinks, link_if_free, ensure_dir}
use mathlib.Core.Path.{subst}

-- What became of a link that is to be made: it is there with its target, where nothing was; or
-- something was there, and nothing is changed.
pub data Linked (target : String) (p : FilePath) (s t : Fs) : Type 0 where
  made :
      exists s p ≡ false
      → is_symlink s p ≡ false
      → lstat t p ≡ some (link target)
      → Linked target p s t
  taken : lexists s p ≡ true → t ≡ s → Linked target p s t

-- What became of a directory that is to be there.
pub data Ensured (p : FilePath) (s t : Fs) : Type 0 where
  created : exists s p ≡ false → create_dir_all p s ≡ (ok tt, t) → Ensured p s t
  there : exists s p ≡ true → t ≡ s → Ensured p s t

module _ (root : FilePath) (what : String) where
  link_if_free-Linked :
      (target : String) (p : FilePath) (s t : Fs)
      → link_if_free root what target p s ≡ (ok tt, t)
      → Linked target p s t
  link_if_free-Linked target p s t h =
      elim (Bool-cases (not (exists s p) && not (is_symlink s p))) [
        | inl f ↦
            let k = rw f at h in
            let (e, l) = both_free (exists s p) (is_symlink s p) f in
            made e l
              (symlink-made target p s t (wrap-ok (context what) (symlink target p s) tt t k))
        | inr f ↦ let k = rw f at h in taken (taken-lexists s p f) (sym (ap (λ r. r.1) k))
      ]

  link_if_free-Keeping :
      (target : String) (p : FilePath) → Keeping (link_if_free root what target p)
  link_if_free-Keeping target p s =
      branch-Keeps (not (exists s p) && not (is_symlink s p)) s _ _
        (λ _. context-Keeping (context what) (symlink target p) (symlink-Keeping target p) s)
        (λ _. Keeps-refl s)

  ensure_dir-Ensured :
      (dir : String) (s t : Fs)
      → ensure_dir root what dir s ≡ (ok tt, t)
      → Ensured (join root dir) s t
  ensure_dir-Ensured dir s t h = elim (Bool-cases (exists s (join root dir))) [
    | inl e ↦ let k = rw e at h in there e (sym (ap (λ r. r.1) k))
    | inr e ↦
        let k = rw e at h in
        created e (wrap-ok (context what) (create_dir_all (join root dir) s) tt t k)
  ]

  ensure_dir-Keeping : (dir : String) → Keeping (ensure_dir root what dir)
  ensure_dir-Keeping dir s =
      branch-Keeps (not (exists s (join root dir))) s _ _
        (λ _.
          context-Keeping (context what) (create_dir_all (join root dir))
            (create_dir_all-Keeping (join root dir)) s)
        (λ _. Keeps-refl s)

kept_by : (m : Exec Fs (Unit {0})) (s t : Fs) → Keeping m → m s ≡ (ok tt, t) → Keeps s t
kept_by m s t k h = subst (Keeps s) (ap (λ r. r.1) h) (k s)

module _ (root : FilePath) where
  abbrev ensure_var : Exec Fs (Unit {0})
  ensure_var = ensure_dir root "Failed to create /var" "var"

  abbrev run_link : Exec Fs (Unit {0})
  run_link = link_if_free root "Failed to create /var/run symlink" "/run" (join root "var/run")

  abbrev lock_link : Exec Fs (Unit {0})
  lock_link =
      link_if_free root "Failed to create /var/lock symlink" "/run/lock" (join root "var/lock")

  -- The disk goes from `s` over `a`, with /var, and `b`, with the first link, to `t`.
  pub record VarLinked (s t : Fs) : Type 0 where
    pub a : Fs
    pub b : Fs
    pub var : Ensured (join root "var") s a
    pub run : Linked "/run" (join root "var/run") a b
    pub lock : Linked "/run/lock" (join root "var/lock") b t
    pub kept : Keeps s t
    pub after_run : Keeps b t

  -- Where the links of /var are made, /var is made first where it is missing; then `/var/run` is
  -- a link to `/run` and `/var/lock` one to `/run/lock`, each unless something was at its place, which
  -- stays; and every node that was there is there still, as it was.
  pub create_var_symlinks-VarLinked :
      (s t : Fs) → create_var_symlinks root s ≡ (ok tt, t) → VarLinked s t
  unfolding create_var_symlinks
  create_var_symlinks-VarLinked s t h =
      let (_, b, h', l) = both (ensure_var >> run_link) lock_link h in
      let (_, a, v, r) = both ensure_var run_link h' in
      let last =
        kept_by lock_link b t (link_if_free-Keeping root _ "/run/lock" (join root "var/lock")) l in
      let first = kept_by ensure_var s a (ensure_dir-Keeping root _ "var") v in
      let next =
        kept_by run_link a b (link_if_free-Keeping root _ "/run" (join root "var/run")) r in
      record {
        a = a;
        b = b;
        var = ensure_dir-Ensured root _ "var" s a v;
        run = link_if_free-Linked root _ "/run" (join root "var/run") a b r;
        lock = link_if_free-Linked root _ "/run/lock" (join root "var/lock") b t l;
        kept = Keeps-trans s b t (Keeps-trans s a b first next) last;
        after_run = last;
      }
