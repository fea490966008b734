-- ===== src/Executor/Custom/Packages.antt =====
-- src/component/custom/packages/mod.rs: systemd-boot, keymaps and the package manager.
use leviso.Base.{String, ◌<>◌, List, [], ◌∷◌, Option, none, some, if◌then◌else◌}
use leviso.Error.{ok, err, message, context}
use leviso.Exec.{Exec, ◌>>=◌, ◌>>◌, pure, fail, for_each, with_context, forget}
use leviso.Text.{codes, contains_text}
use leviso.Fs.Path.{FilePath, join, drop_last, display, components}
use leviso.Fs.State.{Fs}
use leviso.Fs.Ops.{exists, create_dir_all, remove_dir_all}
use leviso.Fs.Copy.{copy, read_dir}
use leviso.Build.{BuildContext, Externals}
use leviso.Common.{remove_dir_if_exists, read_manifest_file}
use leviso.Executor.Custom.Outside.{Host}
use leviso.Executor.Custom.Live.{write_manifest}

-- The first name of the listing that contains the pattern
abbrev pub find_rpm : String → List String → Option String
find_rpm pattern [] = none
find_rpm pattern (name ∷ names) =
    let rest = find_rpm pattern names in
    if contains_text (codes pattern) (codes name) then some name else rest

abbrev rpm_or_fail : FilePath → Option String → Exec Fs FilePath
rpm_or_fail rpm_dir none =
    fail (message "systemd-boot-unsigned RPM not found" (display rpm_dir ∷ []))
rpm_or_fail rpm_dir (some name) = pure (join rpm_dir name)

module _ (ext : Externals) (host : Host) (ctx : BuildContext) where
  abbrev copy_extracted : FilePath → FilePath → Exec Fs (Unit {0})
  copy_extracted temp_dir efi_dst fs =
      let efi_src = join temp_dir "usr/lib/systemd/boot/efi" in
      if exists fs efi_src
      then (create_dir_all (drop_last efi_dst)
            >> host.copy_dir_recursive efi_src efi_dst
            >> pure tt)
          fs
      else (err (message "EFI files not found in extracted RPM" (display temp_dir ∷ [])), fs)

  unfoldable pub copy_systemd_boot_efi : Exec Fs (Unit {0})
  unfolding read_dir create_dir_all remove_dir_all contains_text
  copy_systemd_boot_efi = do
    let efi_dst = join ctx.staging "usr/lib/systemd/boot/efi"
    let rpm_dir = join ctx.base_dir "downloads/iso-contents/AppStream/Packages/s"
    names ← read_dir rpm_dir
    rpm_path ← rpm_or_fail rpm_dir (find_rpm "systemd-boot-unsigned" names)
    let temp_dir = join ctx.output ".systemd-boot-extract"
    remove_dir_if_exists temp_dir
    create_dir_all temp_dir
    with_context (context "Failed to extract RPM")
        (ext.shell_in ("rpm2cpio '" <> display rpm_path <> "' | cpio -idm") temp_dir)
    copy_extracted temp_dir efi_dst
    λ fs. forget (remove_dir_all temp_dir fs)

  unfoldable pub copy_keymaps : Exec Fs (Unit {0})
  unfolding create_dir_all
  copy_keymaps fs =
      let keymaps_src = join ctx.source "usr/lib/kbd/keymaps" in
      let keymaps_dst = join ctx.staging "usr/lib/kbd/keymaps" in
      if exists fs keymaps_src
      then (create_dir_all (drop_last keymaps_dst)
            >> host.copy_dir_recursive keymaps_src keymaps_dst
            >> pure tt)
          fs
      else (err (message "Keymaps not found" (display keymaps_src ∷ [])), fs)

  abbrev pub crate_monorepo_dir : FilePath
  crate_monorepo_dir = drop_last host.manifest_dir

  abbrev built_recipe : Exec Fs FilePath
  built_recipe fs =
      let recipe_path = join crate_monorepo_dir "target/release/recipe" in
      let local_path = join crate_monorepo_dir "tools/recipe/target/release/recipe" in
      if exists fs recipe_path
      then (ok recipe_path, fs)
      else if exists fs local_path
      then (ok local_path, fs)
      else (err (message "recipe binary not found after rebuild." []), fs)

  abbrev recipe_at : String → Exec Fs FilePath
  recipe_at env_path fs =
      if exists fs (components env_path)
      then (ok (components env_path), fs)
      else (err (message "RECIPE_BINARY points to non-existent path" (env_path ∷ [])), fs)

  abbrev recipe_of : Option String → Exec Fs FilePath
  recipe_of (some env_path) = recipe_at env_path
  recipe_of none = do
    success ← with_context (context "Failed to run cargo build for recipe") (
        host.status "cargo" ("build" ∷ "--release" ∷ "-p" ∷ "levitate-recipe" ∷ [])
          (some crate_monorepo_dir))
    if success then built_recipe else fail (message "Failed to build recipe." [])

  unfoldable pub copy_recipe : Exec Fs (Unit {0})
  unfolding copy
  copy_recipe = do
    recipe_path ← recipe_of (host.env_var "RECIPE_BINARY")
    let dest = join ctx.staging "usr/bin/recipe"
    with_context (context "Failed to copy recipe") (copy recipe_path dest)
    ext.make_executable dest

  unfoldable pub setup_recipe_config : Exec Fs (Unit {0})
  unfolding create_dir_all read_manifest_file
  setup_recipe_config = do
    for_each (λ dir. create_dir_all (join ctx.staging dir))
        ("etc/recipe" ∷ "etc/recipe/repos" ∷ "etc/recipe/repos/rocky10" ∷ "var/lib/recipe"
          ∷ "var/cache/recipe" ∷ [])
    write_manifest host (join ctx.staging "etc/recipe/recipe.conf") "packages/files" "recipe.conf"
    write_manifest host (join ctx.staging "etc/profile.d/recipe.sh") "packages/files" "recipe.sh"
