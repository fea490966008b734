-- ===== src/Tests/Accounts.antt =====
-- Adding users.
use leviso.Fs.State.{dir, file}
use leviso.Base.{◌∷◌, ◌≡◌, [], some, arith, refl, inr, ◌++◌, none, ap, length}
use leviso.Text.{parse_u32, Text, show_u32, codes, contains_text, lines, split, parse_digits}
use leviso.Fs.State.{Fs, node_at}
use leviso.Users.{ensure_user, read_uid_from_rootfs, find_uid, find_gid, passwd_entry, group_entry}
use leviso.Fs.Ops.{stat, resolve, write}
use leviso.Tests.Data.{disk}
use leviso.Error.{ok}
use leviso.Text.Decimal.{parse_u32-show_u32}
use leviso.Fs.Walk.{walk}
use leviso.Users.Once.{ensure_user_twice, ensure_user-found, ensure_user_hidden}
use leviso.Fs.Table.{insert, lookup}
use leviso.Users.Kept.{find_uid-append_ne}
use leviso.Users.Found.{find_gid-append}

largest_u32 : parse_u32 (show_u32 4294967295) ≡ some 4294967295
largest_u32 = parse_u32-show_u32 4294967295 (omega arith)

abbrev sshd : Text
sshd = codes "sshd"

abbrev after_sshd : Fs
after_sshd =
    (ensure_user ("src" ∷ []) ("staging" ∷ []) sshd 1 1 (codes "/") (codes "/bin/sh") disk).1

sshd_added :
    ensure_user ("src" ∷ []) ("staging" ∷ []) sshd 1 1 (codes "/") (codes "/bin/sh") disk
    ≡ (ok tt, after_sshd)
unfolding ensure_user read_uid_from_rootfs stat resolve walk node_at write insert contains_text
    find_uid lines split parse_u32 parse_digits show_u32
sshd_added = refl

ensure_user_twice_example :
    ensure_user ("src" ∷ []) ("staging" ∷ []) sshd 5 5 [] [] after_sshd ≡ (ok tt, after_sshd)
ensure_user_twice_example =
    ensure_user_twice ("src" ∷ []) ("staging" ∷ []) sshd 1 1 5 5 (codes "/") (codes "/bin/sh") [] []
      disk after_sshd sshd_added

ensure_user-found_example :
    read_uid_from_rootfs ("staging" ∷ []) sshd after_sshd ≡ (ok (some (74, 75)), after_sshd)
unfolding ensure_user read_uid_from_rootfs stat resolve walk node_at write insert contains_text
    find_uid lines split parse_u32 parse_digits show_u32
ensure_user-found_example =
    ensure_user-found ("src" ∷ []) ("staging" ∷ []) sshd 1 1 (codes "/") (codes "/bin/sh") disk
      after_sshd (codes "root:x:0:0:root:/root:/bin/bash\n") (some (74, 75)) refl refl refl
      (inr (codes "root:x:0:0:root:/root:/bin/bash", refl)) (ground arith) (ground arith)
      (ground arith) (ground arith) (omega arith) (omega arith) sshd_added

abbrev dbus_file : Text
dbus_file = codes "root:x:0:0:root:/root:/bin/bash\n"

abbrev with_dbus : Fs
with_dbus = record disk {
  nodes =
      ("staging" ∷ [], dir)
      ∷ ("staging" ∷ "etc" ∷ [], dir)
      ∷ (
        "staging" ∷ "etc" ∷ "passwd" ∷ [],
        file (dbus_file ++ passwd_entry (codes "dbus") 81 81 (codes "/") (codes "/sbin/nologin"))
            420 0,
      )
      ∷ [];
}

-- `bus` is hidden by `dbus`.
ensure_user_hidden_example :
    (ensure_user
        ("src" ∷ [])
        ("staging" ∷ [])
        (codes "bus")
        90
        90
        (codes "/")
        (codes "/bin/sh")
        with_dbus
      ≡ (ok tt, with_dbus))
    × (read_uid_from_rootfs ("staging" ∷ []) (codes "bus") with_dbus ≡ (ok none, with_dbus))
unfolding stat resolve walk node_at lookup find_uid lines split
ensure_user_hidden_example =
    ensure_user_hidden ("src" ∷ []) ("staging" ∷ []) (codes "d") (codes "bus") with_dbus dbus_file
      81 81 90 90 (codes "/") (codes "/sbin/nologin") (codes "/") (codes "/bin/sh") (λ e. cc)
      (inr (codes "root:x:0:0:root:/root:/bin/bash", refl)) (ground arith) (ground arith)
      (ground arith) (ground arith) refl (record { mode = 420; time = 0; at = refl })

bin_is_found_as_before :
    find_uid (codes "bin") (dbus_file ++ passwd_entry sshd 74 74 (codes "/") (codes "/bin/sh"))
    ≡ find_uid (codes "bin") dbus_file
bin_is_found_as_before =
    find_uid-append_ne dbus_file (inr (codes "root:x:0:0:root:/root:/bin/bash", refl)) sshd
      (codes "bin") 74 74 (codes "/") (codes "/bin/sh") (λ e. omega (arith, ap length e))
      (ground arith) (ground arith) (ground arith) (ground arith)

group_is_found : find_gid sshd (codes "root:x:0:\n" ++ group_entry sshd 74) ≡ ok (some 74)
unfolding contains_text
group_is_found =
    find_gid-append (codes "root:x:0:\n") (inr (codes "root:x:0:", refl)) sshd 74 refl
      (ground arith) (ground arith) (omega arith)
