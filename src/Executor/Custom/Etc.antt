-- ===== src/Executor/Custom/Etc.antt =====
-- src/component/custom/etc/mod.rs: the files of /etc, host keys, time zones and locales.
use leviso.Base.{ℕ, String, ◌<>◌, List, [], ◌∷◌, Bool, not, ◌&&◌, Option, none, some, if◌then◌else◌}
use leviso.Error.{Error, ok, err, message}
use leviso.Exec.{Exec, ◌>>=◌, ◌>>◌, pure, fail, for_each, forget}
use leviso.Text.{codes}
use leviso.Fs.Path.{FilePath, join, drop_last, display}
use leviso.Fs.State.{Fs}
use leviso.Fs.Ops.{exists, is_symlink, write, create_dir_all, remove_file, symlink, metadata}
use leviso.Fs.Copy.{copy, set_permissions}
use leviso.Build.{BuildContext}
use leviso.Executor.Custom.Outside.{Host}
use leviso.Executor.Custom.Live.{write_manifest}

-- `metadata(p)?.permissions()`, `set_mode`, `set_permissions`
abbrev pub change_mode : FilePath → ℕ → Exec Fs (Unit {0})
change_mode p mode = metadata p >> set_permissions p mode

-- `if !p.exists() && !p.is_symlink() { symlink(target, &p)?; }`
unfoldable pub symlink_if_free : String → FilePath → Exec Fs (Unit {0})
unfolding symlink
symlink_if_free target p fs =
    if not (exists fs p) && not (is_symlink fs p) then symlink target p fs else (ok tt, fs)

-- A type of key and its number of bits, as it is given to ssh-keygen.
abbrev pub key_types : List (String × Option String)
key_types = ("rsa", some "3072") ∷ ("ecdsa", some "256") ∷ ("ed25519", none) ∷ []

abbrev bits_args : Option String → List String
bits_args none = []
bits_args (some bits) = "-b" ∷ bits ∷ []

abbrev or_else : Option String → String → String
or_else none d = d
or_else (some v) d = v

module _ (ssh_dir : FilePath) where
  abbrev pub key_path : String → FilePath
  key_path key_type = join ssh_dir ("ssh_host_" <> key_type <> "_key")

  abbrev pub pub_key_path : String → FilePath
  pub_key_path key_type = join ssh_dir ("ssh_host_" <> key_type <> "_key.pub")

  -- Both keys of a pair are there.
  abbrev pub has_pair : Fs → String → Bool
  has_pair fs key_type = exists fs (key_path key_type) && exists fs (pub_key_path key_type)

abbrev require : FilePath → Error → Exec Fs (Unit {0})
require p missing fs = if not (exists fs p) then (err missing, fs) else (ok tt, fs)

abbrev ignore : Exec Fs (Unit {0}) → Exec Fs (Unit {0})
ignore m fs = forget (m fs)

module _ (host : Host) where
  abbrev generate_key_pair : FilePath → String × Option String → Exec Fs (Unit {0})
  generate_key_pair ssh_dir (key_type, bits) = do
    ignore (remove_file (key_path ssh_dir key_type))
    ignore (remove_file (pub_key_path ssh_dir key_type))
    success ←
        host.status "ssh-keygen"
          ("-t"
            ∷ key_type
            ∷ "-f"
            ∷ display (key_path ssh_dir key_type)
            ∷ "-N"
            ∷ ""
            ∷ "-q"
            ∷ bits_args bits)
          none
    if success then pure tt else fail (message "Failed to generate SSH host key" (key_type ∷ []))
    require (key_path ssh_dir key_type) (message "SSH private key was not created" (key_type ∷ []))
    require (pub_key_path ssh_dir key_type)
        (message "SSH public key was not created" (key_type ∷ []))
    set_permissions (key_path ssh_dir key_type) 384
    set_permissions (pub_key_path ssh_dir key_type) 420

  -- The body of the loop over the types of keys.
  unfoldable pub ensure_key_pair : FilePath → String × Option String → Exec Fs (Unit {0})
  unfolding remove_file set_permissions
  ensure_key_pair ssh_dir key fs =
      if has_pair ssh_dir fs key.0 then (ok tt, fs) else generate_key_pair ssh_dir key fs

module _ (host : Host) (ctx : BuildContext) where
  abbrev pub etc : FilePath
  etc = join ctx.staging "etc"

  abbrev pub etc_file : String → Exec Fs (Unit {0})
  etc_file name = write_manifest host (join etc name) "etc/files" name

  unfoldable pub create_ssh_host_keys : Exec Fs (Unit {0})
  unfolding create_dir_all set_permissions ensure_key_pair
  create_ssh_host_keys =
      let ssh_dir = join ctx.staging "etc/ssh" in
      create_dir_all ssh_dir
      >> set_permissions ssh_dir 493
      >> for_each (ensure_key_pair host ssh_dir) key_types

  unfoldable pub create_passwd_files : Exec Fs (Unit {0})
  unfolding write set_permissions
  create_passwd_files = do
    etc_file "passwd"
    etc_file "shadow"
    change_mode (join etc "shadow") 384
    etc_file "group"
    etc_file "gshadow"
    change_mode (join etc "gshadow") 384

  abbrev env_or : String → String → String
  env_or name d = or_else (host.env_var name) d

  abbrev pub os_release : String
  os_release =
      "NAME=\""
      <> env_or "OS_NAME" "LevitateOS"
      <> "\"\nID="
      <> env_or "OS_ID" "levitateos"
      <> "\nID_LIKE="
      <> env_or "OS_ID_LIKE" "fedora"
      <> "\nVERSION=\""
      <> env_or "OS_VERSION" "1.0"
      <> "\"\nVERSION_ID="
      <> env_or "OS_VERSION_ID" "1"
      <> "\nPRETTY_NAME=\""
      <> env_or "OS_NAME" "LevitateOS"
      <> " "
      <> env_or "OS_VERSION" "1.0"
      <> "\"\nHOME_URL=\""
      <> env_or "OS_HOME_URL" "https://levitateos.org"
      <> "\"\nBUG_REPORT_URL=\""
      <> env_or "OS_BUG_REPORT_URL" "https://github.com/levitateos/levitateos/issues"
      <> "\"\n"

  unfoldable pub create_system_identity : Exec Fs (Unit {0})
  unfolding write
  create_system_identity = do
    let hostname = env_or "OS_HOSTNAME" (env_or "OS_ID" "levitateos")
    write (join etc "hostname") (codes (hostname <> "\n"))
    write (join etc "machine-id") []
    write (join etc "os-release") (codes os_release)

  unfoldable pub create_filesystem_config : Exec Fs (Unit {0})
  unfolding symlink_if_free
  create_filesystem_config =
      etc_file "fstab" >> symlink_if_free "/proc/self/mounts" (join etc "mtab")

  unfoldable pub create_auth_config : Exec Fs (Unit {0})
  unfolding create_dir_all set_permissions
  create_auth_config = do
    etc_file "shells"
    etc_file "login.defs"
    etc_file "sudoers"
    change_mode (join etc "sudoers") 288
    create_dir_all (join etc "sudoers.d")
    etc_file "sudo.conf"

  unfoldable pub create_locale_config : Exec Fs (Unit {0})
  unfolding symlink_if_free
  create_locale_config = do
    symlink_if_free "/usr/share/zoneinfo/UTC" (join etc "localtime")
    etc_file "adjtime"
    etc_file "locale.conf"
    etc_file "vconsole.conf"

  unfoldable pub create_network_config : Exec Fs (Unit {0})
  unfolding symlink_if_free
  create_network_config =
      etc_file "hosts"
      >> symlink_if_free "/run/systemd/resolve/stub-resolv.conf" (join etc "resolv.conf")

  abbrev create_skel_dir : String → Exec Fs (Unit {0})
  create_skel_dir xdg_dir =
      let dir = join (join etc "skel") xdg_dir in create_dir_all dir >> write (join dir ".keep") []

  unfoldable pub create_shell_config : Exec Fs (Unit {0})
  unfolding create_dir_all write
  create_shell_config = do
    etc_file "profile"
    create_dir_all (join etc "profile.d")
    etc_file "profile.d/xdg.sh"
    etc_file "bashrc"
    let root_home = join ctx.staging "root"
    write_manifest host (join root_home ".bashrc") "etc/files" "root/.bashrc"
    write_manifest host (join root_home ".bash_profile") "etc/files" "root/.bash_profile"
    create_dir_all (join etc "skel")
    etc_file "skel/.bashrc"
    etc_file "skel/.bash_profile"
    for_each create_skel_dir (".config" ∷ ".local/share" ∷ ".local/state" ∷ ".cache" ∷ [])

  unfoldable pub create_nsswitch : Exec Fs (Unit {0})
  create_nsswitch =
      write_manifest host (join ctx.staging "etc/nsswitch.conf") "etc/files" "nsswitch.conf"

  unfoldable pub create_tmpfiles_configs : Exec Fs (Unit {0})
  unfolding write
  create_tmpfiles_configs = write (join (join ctx.staging "usr/lib/tmpfiles.d") "sshd.conf") (
      codes
        "# /run/sshd is needed by sshd for privilege separation\nd /run/sshd 0755 root root -\n")

  -- Nothing is done where the source has no such directory.
  abbrev copy_dir_if_there : FilePath → FilePath → Exec Fs (Unit {0})
  copy_dir_if_there src dst fs =
      if exists fs src then (host.copy_dir_recursive src dst >> pure tt) fs else (ok tt, fs)

  abbrev copy_ld_so_conf_file : Exec Fs (Unit {0})
  copy_ld_so_conf_file fs =
      let src = join ctx.source "etc/ld.so.conf" in
      let dst = join ctx.staging "etc/ld.so.conf" in
      if exists fs src && not (exists fs dst) then copy src dst fs else (ok tt, fs)

  abbrev copy_ld_so_conf_dir : Exec Fs (Unit {0})
  copy_ld_so_conf_dir fs =
      let src_dir = join ctx.source "etc/ld.so.conf.d" in
      let dst_dir = join ctx.staging "etc/ld.so.conf.d" in
      if exists fs src_dir
      then (create_dir_all dst_dir >> host.copy_dir_recursive src_dir dst_dir >> pure tt) fs
      else (ok tt, fs)

  unfoldable pub copy_ld_so_conf : Exec Fs (Unit {0})
  unfolding copy create_dir_all
  copy_ld_so_conf = copy_ld_so_conf_file >> copy_ld_so_conf_dir

  unfoldable pub create_etc_files : Exec Fs (Unit {0})
  unfolding create_passwd_files create_system_identity create_filesystem_config create_auth_config
      create_locale_config create_network_config create_shell_config create_nsswitch
      create_tmpfiles_configs copy_ld_so_conf
  create_etc_files = do
    create_passwd_files
    create_system_identity
    create_filesystem_config
    create_auth_config
    create_locale_config
    create_network_config
    create_shell_config
    create_nsswitch
    create_tmpfiles_configs
    copy_ld_so_conf

  unfoldable pub copy_timezone_data : Exec Fs (Unit {0})
  unfolding create_dir_all
  copy_timezone_data =
      let dst = join ctx.staging "usr/share/zoneinfo" in
      create_dir_all dst >> copy_dir_if_there (join ctx.source "usr/share/zoneinfo") dst

  unfoldable pub copy_locales : Exec Fs (Unit {0})
  unfolding create_dir_all copy
  copy_locales fs =
      let archive_src = join ctx.source "usr/lib/locale/locale-archive" in
      let archive_dst = join ctx.staging "usr/lib/locale/locale-archive" in
      if exists fs archive_src
      then (create_dir_all (drop_last archive_dst) >> copy archive_src archive_dst) fs
      else (ok tt, fs)
