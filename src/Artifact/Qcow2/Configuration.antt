-- ===== src/Artifact/Qcow2/Configuration.antt =====
-- src/artifact/qcow2/config.rs: what is changed in the tree of a virtual machine.
use leviso.Base.{
  ℕ, zero, suc, String, ◌<>◌, List, [], ◌∷◌, ◌++◌, Bool, not, ◌&&◌, ◌||◌, Option, none, some, map,
  ◌==◌, if◌then◌else◌, nat_eq,
}
use leviso.Error.{ok}
use leviso.Exec.{Exec, ◌>>=◌, ◌>>◌, for_each}
use leviso.Text.{Text, codes, colon, newline, lines, starts_with, ends_with}
use leviso.Fs.Path.{FilePath, join, display, trim_start}
use leviso.Fs.State.{Fs}
use leviso.Fs.Ops.{exists, lexists, write, read, create_dir_all, remove_file, symlink}
use leviso.Fs.Copy.{copy, read_dir}
use leviso.Executor.Custom.Outside.{Host}
use leviso.Executor.Custom.Live.{read_test_instrumentation}
use leviso.Artifact.Qcow2.Disk.{DiskKit, DiskUuids}

-- `{:<n}`
abbrev pad_right : ℕ → String → String
pad_right zero s = s
pad_right (suc n) String.[] = " " <> pad_right n ""
pad_right (suc n) (String.◌∷◌ c s) = String.◌∷◌ c (pad_right n s)

-- What follows the first separator
abbrev pub rest_after : ℕ → Text → Option Text
rest_after sep [] = none
rest_after sep (c ∷ t) = let rest = rest_after sep t in if c == sep then some t else rest

-- The third of the parts of `splitn(3, ':')`, if there are three
abbrev third_of : Option Text → Option Text
third_of none = none
third_of (some t) = rest_after colon t

abbrev pub third_part : Text → Option Text
third_part line = third_of (rest_after colon line)

abbrev without_password : Text → Option Text → Text
without_password line none = line
without_password line (some more) = codes "root::" ++ more

unfoldable pub empty_password : Text → Text
empty_password line =
    if starts_with (codes "root:") line then without_password line (third_part line) else line

-- `new_lines.join("\n") + "\n"`
abbrev pub join_lines : List Text → Text
join_lines [] = newline ∷ []
join_lines (l ∷ []) = l ++ (newline ∷ [])
join_lines (l ∷ m ∷ ls) = l ++ (newline ∷ join_lines (m ∷ ls))

unfoldable pub shadow_without_password : Text → Text
unfolding empty_password lines
shadow_without_password content = join_lines (map empty_password (lines content))

module _ (disk : DiskKit) (root_dir : FilePath) where
  abbrev pub fstab_content : String → String → String
  fstab_content efi_uuid root_uuid =
      "# /etc/fstab - static file system information\n# <device>                                <mount>  <type>  <options>  <dump> <pass>\nUUID="
      <> pad_right 36 root_uuid
      <> "  /        "
      <> disk.root_filesystem
      <> "    defaults   0      1\nUUID="
      <> pad_right 36 efi_uuid
      <> "  /boot    "
      <> disk.efi_filesystem
      <> "     defaults   0      0\n"

  unfoldable pub generate_fstab : String → String → Exec Fs (Unit {0})
  unfolding create_dir_all write
  generate_fstab efi_uuid root_uuid =
      create_dir_all (join root_dir "etc")
      >> write (join root_dir "etc/fstab") (codes (fstab_content efi_uuid root_uuid))

  unfoldable pub set_empty_root_password : Exec Fs (Unit {0})
  unfolding write shadow_without_password
  set_empty_root_password = do
    let shadow_path = join root_dir "etc/shadow"
    disk.ensure_exists shadow_path "/etc/shadow"
    content ← read shadow_path
    write shadow_path (shadow_without_password content)

  unfoldable pub set_hostname : Exec Fs (Unit {0})
  unfolding write
  set_hostname = write (join root_dir "etc/hostname") (codes (disk.default_hostname <> "\n"))

module _ (root_dir : FilePath) where
  unfoldable pub configure_machine_id : Exec Fs (Unit {0})
  unfolding write
  configure_machine_id = write (join root_dir "etc/machine-id") []

  abbrev remove_dangling : FilePath → Exec Fs (Unit {0})
  remove_dangling link_path fs =
      if lexists fs link_path && not (exists fs link_path)
      then remove_file link_path fs
      else (ok tt, fs)

  abbrev link_service : String → FilePath → Exec Fs (Unit {0})
  link_service target link_path fs =
      if not (exists fs link_path) && exists fs (join root_dir (trim_start b'/' target))
      then symlink target link_path fs
      else (ok tt, fs)

  abbrev pub enable_service : FilePath → String × String → Exec Fs (Unit {0})
  enable_service wants_dir (name, target) =
      remove_dangling (join wants_dir name) >> link_service target (join wants_dir name)

  abbrev pub link_serial : FilePath → Exec Fs (Unit {0})
  link_serial serial_link fs =
      if not (exists fs serial_link)
      then symlink "/usr/lib/systemd/system/serial-getty@.service" serial_link fs
      else (ok tt, fs)

  abbrev pub services : List (String × String)
  services =
      ("NetworkManager.service", "/usr/lib/systemd/system/NetworkManager.service")
      ∷ ("sshd.service", "/usr/lib/systemd/system/sshd.service")
      ∷ ("chronyd.service", "/usr/lib/systemd/system/chronyd.service")
      ∷ []

  unfoldable pub enable_services : Exec Fs (Unit {0})
  unfolding create_dir_all remove_file symlink write
  enable_services = do
    let wants_dir = join root_dir "etc/systemd/system/multi-user.target.wants"
    create_dir_all wants_dir
    for_each (enable_service wants_dir) services
    let getty_wants_dir = join root_dir "etc/systemd/system/getty.target.wants"
    create_dir_all getty_wants_dir
    link_serial (join getty_wants_dir "serial-getty@ttyS0.service")
    let dropin_dir = join root_dir "etc/systemd/system/serial-getty@ttyS0.service.d"
    create_dir_all dropin_dir
    write (join dropin_dir "zz-autologin.conf") (
        codes
          "[Service]\nExecStart=\nExecStart=-/sbin/agetty --autologin root --keep-baud 115200,57600,38400,9600 - $TERM\n")

  -- The names of the files with host keys
  abbrev pub is_host_key : String → Bool
  is_host_key name =
      starts_with (codes "ssh_host_") (codes name)
      && (ends_with (codes "_key") (codes name) || ends_with (codes "_key.pub") (codes name))

  abbrev pub remove_key : FilePath → String → Exec Fs (Unit {0})
  remove_key ssh_dir name fs =
      if is_host_key name then remove_file (join ssh_dir name) fs else (ok tt, fs)

  unfoldable pub regenerate_ssh_keys : Exec Fs (Unit {0})
  unfolding read_dir remove_file
  regenerate_ssh_keys fs =
      let ssh_dir = join root_dir "etc/ssh" in
      if exists fs ssh_dir
      then (read_dir ssh_dir >>= for_each (remove_key ssh_dir)) fs
      else (ok tt, fs)

module _ (host : Host) (root_dir : FilePath) where
  unfoldable pub install_test_instrumentation : Exec Fs (Unit {0})
  unfolding create_dir_all write read_test_instrumentation
  install_test_instrumentation = do
    let profile_d = join root_dir "etc/profile.d"
    create_dir_all profile_d
    instrumentation ← read_test_instrumentation host
    write (join profile_d "00-levitate-test.sh") instrumentation

module _ (host : Host) (disk : DiskKit) (base_dir : FilePath) where
  abbrev copy_kernel : FilePath → Exec Fs (Unit {0})
  copy_kernel target fs =
      let kernel_src = join (disk.output_dir base_dir) "staging/boot/vmlinuz" in
      if exists fs kernel_src
      then (create_dir_all (join target "boot")
            >> copy kernel_src (join (join target "boot") "vmlinuz"))
          fs
      else (ok tt, fs)

  unfoldable pub prepare_qcow2_rootfs : FilePath → FilePath → DiskUuids → Exec Fs (Unit {0})
  unfolding generate_fstab set_empty_root_password configure_machine_id set_hostname enable_services
      install_test_instrumentation regenerate_ssh_keys create_dir_all copy
  prepare_qcow2_rootfs source target uuids = do
    host.run "cp" ("-a" ∷ display source ∷ display target ∷ []) "Failed to copy rootfs-staging"
    generate_fstab disk target uuids.efi_fs_uuid uuids.root_fs_uuid
    set_empty_root_password disk target
    configure_machine_id target
    set_hostname disk target
    enable_services target
    install_test_instrumentation host target
    regenerate_ssh_keys target
    copy_kernel target
