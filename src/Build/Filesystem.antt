-- ===== src/Build/Filesystem.antt =====
-- src/build/filesystem.rs: the layout of a root directory.
pub mod Linked
use leviso.Base.{String, List, [], ◌∷◌, not, ◌&&◌, if◌then◌else◌}
use leviso.Error.{ok, context}
use leviso.Exec.{Exec, ◌>>◌, for_each, with_context}
use leviso.Text.{codes}
use leviso.Fs.Path.{FilePath, join}
use leviso.Fs.State.{Fs}
use leviso.Fs.Ops.{exists, is_symlink, create_dir_all, remove_dir_all, symlink, write}

abbrev pub fhs_directories : List String
fhs_directories =
    "usr/bin" ∷ "usr/sbin" ∷ "usr/lib" ∷ "usr/lib64" ∷ "usr/lib/systemd/system"
    ∷ "usr/lib64/systemd" ∷ "var/log" ∷ "var/tmp" ∷ "var/cache" ∷ "var/spool" ∷ "etc"
    ∷ "etc/systemd/system" ∷ "tmp" ∷ "root" ∷ "home" ∷ "mnt" ∷ "run" ∷ "run/lock" ∷ "proc" ∷ "sys"
    ∷ "dev" ∷ "dev/pts" ∷ []

-- A link and its target
abbrev pub merged_links : List (String × String)
merged_links =
    ("bin", "usr/bin") ∷ ("sbin", "usr/sbin") ∷ ("lib", "usr/lib") ∷ ("lib64", "usr/lib64") ∷ []

module _ (root : FilePath) where
  abbrev pub ensure_dir : String → String → Exec Fs (Unit {0})
  ensure_dir what dir fs =
      if not (exists fs (join root dir))
      then with_context (context what) (create_dir_all (join root dir)) fs
      else (ok tt, fs)

  abbrev pub remove_directory : FilePath → Exec Fs (Unit {0})
  remove_directory link_path fs =
      if exists fs link_path && not (is_symlink fs link_path)
      then remove_dir_all link_path fs
      else (ok tt, fs)

  abbrev pub link_if_missing : String → String → FilePath → Exec Fs (Unit {0})
  link_if_missing what target link_path fs =
      if not (exists fs link_path)
      then with_context (context what) (symlink target link_path) fs
      else (ok tt, fs)

  -- A directory in the place of the link goes.
  abbrev pub merge_link : String × String → Exec Fs (Unit {0})
  merge_link (name, target) =
      remove_directory (join root name)
      >> link_if_missing "Failed to create symlink" target (join root name)

  unfoldable pub create_fhs_structure : Exec Fs (Unit {0})
  unfolding create_dir_all remove_dir_all symlink
  create_fhs_structure =
      for_each (ensure_dir "Failed to create") fhs_directories >> for_each merge_link merged_links

  -- A link that is not there, not even as one that leads nowhere
  abbrev pub link_if_free : String → String → FilePath → Exec Fs (Unit {0})
  link_if_free what target link_path fs =
      if not (exists fs link_path) && not (is_symlink fs link_path)
      then with_context (context what) (symlink target link_path) fs
      else (ok tt, fs)

  unfoldable pub create_var_symlinks : Exec Fs (Unit {0})
  unfolding create_dir_all symlink
  create_var_symlinks =
      ensure_dir "Failed to create /var" "var"
      >> link_if_free "Failed to create /var/run symlink" "/run" (join root "var/run")
      >> link_if_free "Failed to create /var/lock symlink" "/run/lock" (join root "var/lock")

  unfoldable pub create_sh_symlink : Exec Fs (Unit {0})
  unfolding create_dir_all remove_dir_all symlink
  create_sh_symlink =
      ensure_dir "Failed to create /usr/bin" "usr/bin"
      >> remove_directory (join root "bin")
      >> link_if_missing "Failed to create /bin symlink" "usr/bin" (join root "bin")
      >> link_if_free "Failed to create /usr/bin/sh symlink" "bash" (join root "usr/bin/sh")

  abbrev pub write_if_missing : String → FilePath → String → Exec Fs (Unit {0})
  write_if_missing what p content fs =
      if not (exists fs p)
      then with_context (context what) (write p (codes content)) fs
      else (ok tt, fs)

  abbrev pub profile_text : String
  profile_text =
      "# /etc/profile - System-wide shell profile\n\nexport PATH=\"/usr/local/bin:/usr/bin:/bin:/usr/local/sbin:/usr/sbin:/sbin\"\nexport EDITOR=\"${EDITOR:-vi}\"\nexport PAGER=\"${PAGER:-less}\"\n\n# Load profile.d scripts\nif [ -d /etc/profile.d ]; then\n    for script in /etc/profile.d/*.sh; do\n        [ -r \"$script\" ] && . \"$script\"\n    done\nfi\n"

  abbrev pub etc_bashrc_text : String
  etc_bashrc_text =
      "# /etc/bashrc - System-wide bash configuration\n\n# If not running interactively, don't do anything\n[[ $- != *i* ]] && return\n\n# Prompt\nPS1='[\\u@\\h \\W]\\$ '\n\n# History\nHISTSIZE=1000\nHISTFILESIZE=2000\nHISTCONTROL=ignoreboth\n\n# Aliases\nalias ls='ls --color=auto'\nalias ll='ls -la'\nalias grep='grep --color=auto'\n"

  abbrev pub root_bashrc_text : String
  root_bashrc_text =
      "# ~/.bashrc - Root user bash configuration\n\n# Source global bashrc\nif [ -f /etc/bashrc ]; then\n    . /etc/bashrc\nfi\n\n# Root-specific settings\nPS1='[\\u@\\h \\W]# '\n"

  unfoldable pub create_shell_config : Exec Fs (Unit {0})
  unfolding create_dir_all write
  create_shell_config =
      ensure_dir "Failed to create /etc" "etc"
      >> write_if_missing "Failed to write /etc/profile" (join root "etc/profile") profile_text
      >> write_if_missing "Failed to write /etc/bashrc" (join root "etc/bashrc") etc_bashrc_text
      >> ensure_dir "Failed to create /root" "root"
      >> write_if_missing "Failed to write /root/.bashrc" (join root "root/.bashrc")
          root_bashrc_text
