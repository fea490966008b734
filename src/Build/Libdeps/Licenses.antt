-- ===== src/Build/Libdeps/Licenses.antt =====
-- src/build/libdeps.rs: what is registered with the license tracker.
use leviso.Base.{
  String, List, ◌∷◌, ◌++◌, ◌≡◌, refl, sym, ap, ◌∙◌, ℕ, zero, suc, Bool, true, false, Option, none,
  some,
}
use leviso.Error.{Result, ok, err}
use leviso.Exec.{Exec, continue}
use leviso.Fs.Ops.{symlink, create_dir_all, lexists, is_symlink}
use leviso.Build.{
  World, Registration, of_binary, of_library, on_fs, Externals, BuildContext, get_fs,
}
use leviso.Build.Libdeps.{
  copy_executable, copy_library, copy_libraries, Find, copy_dependencies, follow, copy_link,
  copy_body, copy_if_found, out_of_fuel, find_or_extract,
}
use leviso.Fs.Path.{FilePath, last_of, components, join, drop_last}
use leviso.Fs.Ops.{read_link, is_some}
use leviso.Fs.Copy.{copy}
use leviso.Build.Steady.{
  Grows, Steady, then-Steady, for_each-Steady, bind-Steady, pure-Steady, fail-Steady,
  register_if-Steady, with_context-Steady, on_fs-Steady, if-Steady, get_fs-Steady, forget-Steady,
  choose-Steady,
}

-- The binary is registered, and what was registered stays.
unfoldable pub Registers : String → World → World → Type 0
Registers name w v =
    (more : List Registration) × (v.registered ≡ more ++ (of_binary name ∷ w.registered))

module _ (ext : Externals) (ctx : BuildContext) where
  copy_library-Steady : (lib : String) (tracker : Bool) → Steady (copy_library ext ctx lib tracker)
  unfolding copy_library
  copy_library-Steady lib tracker =
      then-Steady _ _ (register_if-Steady tracker (of_library lib)) (on_fs-Steady _)

  copy_libraries-Steady :
      (binary : String) (libs : List String) (tracker : Bool)
      → Steady (copy_libraries ext ctx binary libs tracker)
  copy_libraries-Steady binary libs tracker =
      for_each-Steady _ libs λ lib. with_context-Steady _ _ (copy_library-Steady lib tracker)

  copy_dependencies-Steady :
      (binary : String) (bin_path : FilePath) (tracker : Bool)
      → Steady (copy_dependencies ext ctx binary bin_path tracker)
  copy_dependencies-Steady binary bin_path tracker =
      bind-Steady _ _ (on_fs-Steady _)
        λ libs. then-Steady _ _ (copy_libraries-Steady binary libs tracker) (pure-Steady true)

  module _ (find : Find ext ctx) (dest_dir : String) (again : String → Exec World Bool)
      (h : (name : String) → Steady (again name)) where
    follow-Steady : (target : Option String) → Steady (follow ext ctx find again target)
    follow-Steady none = pure-Steady true
    follow-Steady (some name) =
        if-Steady (λ w. is_some (find w.fs ctx.source name)) _ _
          (forget-Steady true (again name) (h name)) (pure-Steady true)

    copy_link-Steady :
        (bin_path dest : FilePath) → Steady (copy_link ext ctx find again bin_path dest)
    copy_link-Steady bin_path dest =
        bind-Steady (on_fs (read_link bin_path)) _ (on_fs-Steady (read_link bin_path)) λ target.
          then-Steady (on_fs (symlink target dest)) _ (on_fs-Steady (symlink target dest))
            (follow-Steady (last_of (components target)))

    pub copy_body-Steady :
        (binary : String) (tracker : Bool) (bin_path : FilePath)
        → Steady (copy_body ext ctx find dest_dir again binary tracker bin_path)
    copy_body-Steady binary tracker bin_path =
        let dest = join (join ctx.staging dest_dir) binary in
        let rest = copy_dependencies-Steady binary bin_path tracker in
        let made = create_dir_all (drop_last dest) in
        bind-Steady get_fs _ get_fs-Steady λ s. choose-Steady (lexists s dest) _ _ rest (
          then-Steady (on_fs made) _ (on_fs-Steady made) (
            bind-Steady get_fs _ get_fs-Steady λ t.
              choose-Steady (is_symlink t bin_path) _ _ (copy_link-Steady bin_path dest) (
                then-Steady (on_fs (copy bin_path dest)) _ (on_fs-Steady (copy bin_path dest)) (
                  then-Steady (on_fs (ext.make_executable dest)) _
                    (on_fs-Steady (ext.make_executable dest)) rest))))

    copy_if_found-Steady :
        (binary : String) (tracker : Bool) (found : Option FilePath)
        → Steady (copy_if_found ext ctx find dest_dir again binary tracker found)
    copy_if_found-Steady binary tracker none = pure-Steady false
    copy_if_found-Steady binary tracker (some bin_path) =
        then-Steady _ _ (register_if-Steady tracker (of_binary binary))
          (copy_body-Steady binary tracker bin_path)

  pub copy_executable-Steady :
      (find : Find ext ctx) (dest_dir : String) (fuel : ℕ) (binary : String) (tracker : Bool)
      → Steady (copy_executable ext ctx find dest_dir fuel binary tracker)
  unfolding copy_executable
  copy_executable-Steady find dest_dir zero binary tracker = fail-Steady Bool out_of_fuel
  copy_executable-Steady find dest_dir (suc fuel) binary tracker =
      bind-Steady _ _ (on_fs-Steady _) (
        copy_if_found-Steady find dest_dir _
          (λ name. copy_executable-Steady find dest_dir fuel name tracker) binary tracker)

  module _ (find : Find ext ctx) (dest_dir : String) (binary : String) where
    copy_if_found-Registers :
        (again : String → Exec World Bool) (bin_path : FilePath) (w u v : World)
        → ((name : String) → Steady (again name))
        → u.registered ≡ w.registered
        → copy_if_found ext ctx find dest_dir again binary true (some bin_path) u ≡ (ok true, v)
        → Registers binary w v
    unfolding Registers Steady Grows
    copy_if_found-Registers again bin_path w u v h same e =
        let start : World = record u { registered = of_binary binary ∷ u.registered } in
        let (more, grown) = copy_body-Steady find dest_dir again h binary true bin_path start in
        (
          more,
          sym (ap (λ r. r.1.registered) e) ∙ grown ∙ ap (λ l. more ++ (of_binary binary ∷ l)) same,
        )

    found-Registers :
        (again : String → Exec World Bool) (r : Result (Option FilePath) × World) (w v : World)
        → ((name : String) → Steady (again name))
        → r.1.registered ≡ w.registered
        → continue r (copy_if_found ext ctx find dest_dir again binary true) ≡ (ok true, v)
        → Registers binary w v
    found-Registers again (err x, u) w v h same e = absurd cc
    found-Registers again (ok none, u) w v h same e = absurd (cc)
    found-Registers again (ok (some p), u) w v h same e =
        copy_if_found-Registers again p w u v h same e

    -- If a tracked copy reports that the binary was found, the binary is registered with the license
    -- tracker, and no registration made before is lost.
    pub copy_executable-Registers :
        (fuel : ℕ) (w v : World)
        → copy_executable ext ctx find dest_dir fuel binary true w ≡ (ok true, v)
        → Registers binary w v
    unfolding copy_executable
    copy_executable-Registers zero w v e = absurd cc
    copy_executable-Registers (suc fuel) w v e =
        found-Registers _ (on_fs (find_or_extract ext ctx find binary) w) w v
          (λ name. copy_executable-Steady find dest_dir fuel name true) refl e
