-- ===== src/Users/Once.antt =====
-- src/build/users.rs: a user is added once, is found then, and may be hidden by another.
use leviso.Base.{
  ℕ, Option, ◌≡◌, ◌++◌, false, true, ◌∷◌, [], append_assoc, ◌≢◌, ◌<◌, none, some, ◌∙◌, ap, arith,
  length, length-append, refl,
}
use leviso.Fs.Path.{FilePath, join}
use leviso.Text.{Text, contains_text, colon, u32_size}
use leviso.Fs.State.{Fs}
use leviso.Users.{
  needle, ensure_user, unwrap_or, passwd_entry, ok, read_or_empty, read_uid_from_rootfs, find_uid,
}
use leviso.Users.Ensure.{
  Outcome, Present, there, ensure_user-Present, added, ensure_user-Outcome, Holds-read_or_empty,
  Holds-read_uid,
}
use leviso.Error.{ok}
use leviso.Fs.ReadBack.{Holds}
use leviso.Text.Lines.{contains_text-middle, EndsLine, IsOneLine}
use mathlib.Core.Path.{subst, subst₂}
use leviso.Text.Fields.{Lacks}
use leviso.Users.Found.{find_uid-append}
use leviso.Users.Kept.{find_uid-append_ne}

contains_entry :
    (u : Text) (uid gid : ℕ) (home shell before : Text)
    → contains_text (needle u) (before ++ passwd_entry u uid gid home shell) ≡ true
contains_entry u uid gid home shell before =
    subst (λ x. contains_text (needle u) (before ++ x) ≡ true) (append_cons u _)
      (contains_text-middle (needle u) before _)
  where
    append_cons : (n r : Text) → (n ++ (colon ∷ [])) ++ r ≡ n ++ (colon ∷ r)
    append_cons n r = simp append_assoc

append-ne : (w u : Text) → w ≢ [] → w ++ u ≢ u
append-ne [] u ne e = ne refl
append-ne (c ∷ w) u ne e = omega (arith, ap length e, length-append (c ∷ w) u)

contains_longer :
    (w u : Text) (uid gid : ℕ) (home shell before : Text)
    → contains_text (needle u) (before ++ passwd_entry (w ++ u) uid gid home shell) ≡ true
contains_longer w u uid gid home shell before =
    subst (λ x. contains_text (needle u) x ≡ true) (regroup _)
      (contains_text-middle (needle u) (before ++ w) _)
  where
    regroup : (r : Text) → (before ++ w) ++ (needle u ++ r) ≡ before ++ ((w ++ u) ++ (colon ∷ r))
    regroup r = simp append_assoc

module _ (source staging : FilePath) (u : Text) where
  Outcome-Present :
      (uid gid : ℕ) (home shell : Text) (s t : Fs)
      → Outcome source staging u uid gid home shell s t
      → Present t (join staging "etc/passwd") (needle u)
  Outcome-Present uid gid home shell s t (there passwd p c e) =
      rw e (record { content = passwd; readable = p; contained = c })
  Outcome-Present uid gid home shell s t (added passwd found p c q h) = record {
    content = _;
    readable = Holds-read_or_empty t _ _ h;
    contained = contains_entry u _ _ home shell passwd;
  }

  -- After a call of `ensure_user` that succeeds, a call for the same user succeeds and changes
  -- nothing, whatever its other arguments.
  pub ensure_user_twice :
      (uid gid uid' gid' : ℕ) (home shell home' shell' : Text) (s t : Fs)
      → ensure_user source staging u uid gid home shell s ≡ (ok tt, t)
      → ensure_user source staging u uid' gid' home' shell' t ≡ (ok tt, t)
  ensure_user_twice uid gid uid' gid' home shell home' shell' s t h =
      ensure_user-Present source staging u uid' gid' home' shell' t (
        Outcome-Present uid gid home shell s t
          (ensure_user-Outcome source staging u uid gid home shell s t h))

  module _ (uid gid : ℕ) (home shell : Text) (s t : Fs) (passwd : Text)
      (found : Option (ℕ × ℕ)) where
    abbrev ids : ℕ × ℕ
    ids = unwrap_or found (uid, gid)

    Outcome-added :
        contains_text (needle u) passwd ≡ false
        → read_or_empty (join staging "etc/passwd") s ≡ (ok passwd, s)
        → read_uid_from_rootfs source u s ≡ (ok found, s)
        → Outcome source staging u uid gid home shell s t
        → Holds t (join staging "etc/passwd") (passwd ++ passwd_entry u ids.0 ids.1 home shell)
    Outcome-added n p q (there other r c e) = absurd (cc)
    Outcome-added n p q (added other found' r c f h) =
        let e : other ≡ passwd = cc in
        let e' : found' ≡ found = cc in
        subst₂
          (λ (x : Text) (y : Option (ℕ × ℕ)).
            Holds t (join staging "etc/passwd") (
              x ++ passwd_entry u (unwrap_or y (uid, gid)).0 (unwrap_or y (uid, gid)).1 home shell))
          e e' h

    -- A user that is not in the passwd file is read back from it after `ensure_user` has succeeded,
    -- with the numbers of the source tree, or with the defaults if the source has none. The file
    -- is missing, empty or ends in a newline, and the name and a colon are nowhere in it; name,
    -- home and shell have no line ends, the name no colon, and the numbers are of type `u32`.
    pub ensure_user-found :
        contains_text (needle u) passwd ≡ false
        → read_or_empty (join staging "etc/passwd") s ≡ (ok passwd, s)
        → read_uid_from_rootfs source u s ≡ (ok found, s)
        → EndsLine passwd
        → Lacks colon u
        → IsOneLine u
        → IsOneLine home
        → IsOneLine shell
        → ids.0 < u32_size
        → ids.1 < u32_size
        → ensure_user source staging u uid gid home shell s ≡ (ok tt, t)
        → read_uid_from_rootfs staging u t ≡ (ok (some ids), t)
    ensure_user-found n p q ends hu ou oh os h k e =
        let holds =
          Outcome-added n p q (ensure_user-Outcome source staging u uid gid home shell s t e) in
        Holds-read_uid t staging u _ holds
        ∙ ap (λ r. (r, t)) (find_uid-append passwd ends u ids.0 ids.1 home shell n hu ou oh os h k)

-- The defect of the test by `contains`: where a user was added whose name ends in `u`, a call
-- for `u` itself succeeds and writes nothing, and `u` is still not in the file.
pub ensure_user_hidden :
    (source staging : FilePath) (w u : Text) (s : Fs) (passwd : Text) (uid gid uid' gid' : ℕ)
    (home shell home' shell' : Text)
    → w ≢ []
    → EndsLine passwd
    → Lacks colon (w ++ u)
    → IsOneLine (w ++ u)
    → IsOneLine home
    → IsOneLine shell
    → find_uid u passwd ≡ ok none
    → Holds s (join staging "etc/passwd") (passwd ++ passwd_entry (w ++ u) uid gid home shell)
    → (ensure_user source staging u uid' gid' home' shell' s ≡ (ok tt, s))
      × (read_uid_from_rootfs staging u s ≡ (ok none, s))
ensure_user_hidden source staging w u s passwd uid gid uid' gid' home shell home' shell' ne ends hl
      ol oh os missing holds =
    (
      ensure_user-Present source staging u uid' gid' home' shell' s (record {
        content = _;
        readable = Holds-read_or_empty s _ _ holds;
        contained = contains_longer w u uid gid home shell passwd;
      }),
      Holds-read_uid s staging u _ holds
          ∙ ap (λ r. (r, s))
              (find_uid-append_ne passwd ends (w ++ u) u uid gid home shell (append-ne w u ne) hl ol
                  oh os
                ∙ missing),
    )
