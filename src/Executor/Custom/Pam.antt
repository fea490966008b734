-- ===== src/Executor/Custom/Pam.antt =====
-- src/component/custom/pam.rs: PAM and security configuration. Its texts are those of
-- `distro_spec::shared::auth`.
use leviso.Base.{String, List, ◌∷◌, []}
use leviso.Exec.{◌>>◌, Exec, for_each}
use leviso.Fs.Path.{FilePath, join}
use leviso.Build.{BuildContext}
use leviso.Fs.Ops.{create_dir_all, write}
use leviso.Fs.State.{Fs}
use leviso.Text.{codes}

pub record Auth : Type 0 where
  pub pam_system_auth : String
  pub pam_postlogin : String
  pub pam_login : String
  pub pam_remote : String
  pub pam_sshd : String
  pub pam_runuser : String
  pub pam_runuser_l : String
  pub pam_su : String
  pub pam_su_l : String
  pub pam_sudo : String
  pub pam_crond : String
  pub pam_systemd_user : String
  pub pam_passwd : String
  pub pam_chpasswd : String
  pub pam_chfn : String
  pub pam_chsh : String
  pub pam_other : String
  pub limits_conf : String
  pub access_conf : String
  pub namespace_conf : String
  pub pam_env_conf : String
  pub pwquality_conf : String

-- One `fs::write` for each name and content.
abbrev pub write_files : FilePath → List (String × String) → Exec Fs (Unit {0})
write_files dir = for_each λ f. write (join dir f.0) (codes f.1)

abbrev pub pam_files : Auth → List (String × String)
pam_files auth =
    ("system-auth", auth.pam_system_auth)
    ∷ ("password-auth", auth.pam_system_auth)
    ∷ ("postlogin", auth.pam_postlogin)
    ∷ ("login", auth.pam_login)
    ∷ ("remote", auth.pam_remote)
    ∷ ("sshd", auth.pam_sshd)
    ∷ ("runuser", auth.pam_runuser)
    ∷ ("runuser-l", auth.pam_runuser_l)
    ∷ ("su", auth.pam_su)
    ∷ ("su-l", auth.pam_su_l)
    ∷ ("sudo", auth.pam_sudo)
    ∷ ("crond", auth.pam_crond)
    ∷ ("systemd-user", auth.pam_systemd_user)
    ∷ ("passwd", auth.pam_passwd)
    ∷ ("chpasswd", auth.pam_chpasswd)
    ∷ ("chfn", auth.pam_chfn)
    ∷ ("chsh", auth.pam_chsh)
    ∷ ("other", auth.pam_other)
    ∷ []

abbrev pub security_files : Auth → List (String × String)
security_files auth =
    ("limits.conf", auth.limits_conf)
    ∷ ("access.conf", auth.access_conf)
    ∷ ("namespace.conf", auth.namespace_conf)
    ∷ ("pam_env.conf", auth.pam_env_conf)
    ∷ ("pwquality.conf", auth.pwquality_conf)
    ∷ []

module _ (auth : Auth) (ctx : BuildContext) where
  unfoldable pub create_pam_files : Exec Fs (Unit {0})
  unfolding create_dir_all write
  create_pam_files =
      let pam_dir = join ctx.staging "etc/pam.d" in
      create_dir_all pam_dir >> write_files pam_dir (pam_files auth)

  unfoldable pub create_security_config : Exec Fs (Unit {0})
  unfolding create_dir_all write
  create_security_config =
      let security_dir = join ctx.staging "etc/security" in
      create_dir_all security_dir >> write_files security_dir (security_files auth)

module _ (ctx : BuildContext) where
  unfoldable pub disable_selinux : Exec Fs (Unit {0})
  unfolding create_dir_all write
  disable_selinux =
      let selinux_dir = join ctx.staging "etc/selinux" in
      create_dir_all selinux_dir
      >> write (join selinux_dir "config") (
          codes
            "# SELinux disabled - LevitateOS doesn't ship SELinux policies\nSELINUX=disabled\nSELINUXTYPE=targeted\n")
