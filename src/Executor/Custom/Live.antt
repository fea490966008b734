-- ===== src/Executor/Custom/Live.antt =====
-- src/component/custom/live/mod.rs: the overlay of the live system, and its tools.
use leviso.Base.{String, ◌<>◌, List, [], ◌∷◌, if◌then◌else◌, some}
use leviso.Error.{Error, err, message, context}
use leviso.Exec.{Exec, ◌>>=◌, ◌>>◌, fail, for_each, with_context}
use leviso.Text.{Text, codes}
use leviso.Fs.Path.{FilePath, join, drop_last}
use leviso.Fs.State.{Fs}
use leviso.Fs.Ops.{exists, write, create_dir_all, remove_dir_all}
use leviso.Fs.Copy.{copy, set_permissions}
use leviso.Build.{BuildContext, Externals}
use leviso.Common.{read_manifest_file, remove_dir_if_exists}
use leviso.Executor.Custom.Outside.{Host}

abbrev package_args : List String → List String
package_args [] = []
package_args (tool ∷ tools) = "-p" ∷ tool ∷ package_args tools

abbrev tools_failed : Error
tools_failed = message "Failed to build installation tools" []

module _ (host : Host) where
  -- `fs::write(dst, read_manifest_file(subdir, path)?)?`
  abbrev pub write_manifest : FilePath → String → String → Exec Fs (Unit {0})
  write_manifest dst subdir path = read_manifest_file host.manifest_dir subdir path >>= write dst

  unfoldable pub read_test_instrumentation : Exec Fs Text
  unfolding read_manifest_file
  read_test_instrumentation =
      read_manifest_file host.manifest_dir "live/overlay" "etc/profile.d/00-levitate-test.sh"

  unfoldable pub create_live_overlay_at : FilePath → Exec Fs (Unit {0})
  unfolding create_dir_all remove_dir_all write set_permissions read_manifest_file
  create_live_overlay_at output_dir = do
    let overlay_dir = join output_dir "live-overlay"
    remove_dir_if_exists overlay_dir
    create_dir_all (join overlay_dir "etc")
    let tty1_dropin = join overlay_dir "etc/systemd/system/getty@tty1.service.d"
    create_dir_all tty1_dropin
    write_manifest (join tty1_dropin "autologin.conf") "live/overlay"
        "etc/systemd/system/getty@tty1.service.d/autologin.conf"
    let serial_dropin = join overlay_dir "etc/systemd/system/serial-getty@.service.d"
    create_dir_all serial_dropin
    write_manifest (join serial_dropin "zz-autologin.conf") "live/overlay"
        "etc/systemd/system/serial-getty@.service.d/zz-autologin.conf"
    write_manifest (join overlay_dir "etc/shadow") "live/overlay" "etc/shadow"
    set_permissions (join overlay_dir "etc/shadow") 384
    let profile_d = join overlay_dir "etc/profile.d"
    create_dir_all profile_d
    write_manifest (join profile_d "00-levitate-test.sh") "live/overlay"
        "etc/profile.d/00-levitate-test.sh"
    write_manifest (join profile_d "live-docs.sh") "live/overlay" "etc/profile.d/live-docs.sh"

module _ (host : Host) (ctx : BuildContext) where
  unfoldable pub create_live_overlay : Exec Fs (Unit {0})
  unfolding create_live_overlay_at
  create_live_overlay = create_live_overlay_at host ctx.output

  unfoldable pub create_welcome_message : Exec Fs (Unit {0})
  unfolding write read_manifest_file
  create_welcome_message = do
    write_manifest host (join ctx.staging "etc/motd") "live/overlay" "etc/motd"
    write (join ctx.staging "etc/issue") (codes host.live_issue_message)

module _ (ctx : BuildContext) where
  -- A newline of the texts is `\n`.
  unfoldable pub setup_live_systemd_configs : Exec Fs (Unit {0})
  unfolding write create_dir_all
  setup_live_systemd_configs = do
    let journald_dir = join ctx.staging "etc/systemd/journald.conf.d"
    create_dir_all journald_dir
    write (join journald_dir "volatile.conf")
        (codes "[Journal]\nStorage=volatile\nRuntimeMaxUse=64M\n")
    let logind_dir = join ctx.staging "etc/systemd/logind.conf.d"
    create_dir_all logind_dir
    write (join logind_dir "do-not-suspend.conf") (
        codes
          "[Login]\nHandleSuspendKey=ignore\nHandleHibernateKey=ignore\nHandleLidSwitch=ignore\nHandleLidSwitchExternalPower=ignore\nIdleAction=ignore\n")

module _ (ext : Externals) (host : Host) (ctx : BuildContext) where
  -- `base_dir.parent()`, or `base_dir` where it has none
  abbrev pub monorepo_dir : FilePath
  monorepo_dir = drop_last ctx.base_dir

  abbrev pub install_binary : String → FilePath → FilePath → Exec Fs (Unit {0})
  install_binary failed from dest =
      with_context (context failed) (copy from dest) >> ext.make_executable dest

  unfoldable pub install_tool : FilePath → String → Exec Fs (Unit {0})
  unfolding copy
  install_tool bin_dir tool fs =
      let workspace_binary = join (join monorepo_dir "target/release") tool in
      let local_binary = join monorepo_dir ("tools/" <> tool <> "/target/release/" <> tool) in
      let failed = "Failed to copy " <> tool <> " to staging" in
      if exists fs workspace_binary
      then install_binary failed workspace_binary (join bin_dir tool) fs
      else if exists fs local_binary
      then install_binary failed local_binary (join bin_dir tool) fs
      else (err (message "binary not found after rebuild" (tool ∷ [])), fs)

  unfoldable pub install_tools : Exec Fs (Unit {0})
  unfolding create_dir_all install_tool
  install_tools = do
    let bin_dir = join ctx.staging "usr/bin"
    create_dir_all bin_dir
    success ← with_context (context "Failed to run cargo build for installation tools") (
        host.status "cargo" ("build" ∷ "--release" ∷ package_args host.levitate_cargo_tools)
          (some monorepo_dir))
    if success then for_each (install_tool bin_dir) host.levitate_cargo_tools else fail tools_failed
