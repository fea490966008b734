-- ===== src/Users/Ensure.antt =====
-- src/build/users.rs: `ensure_user` and `ensure_group` on the file system.
use leviso.Base.{
  ℕ, ◌≡◌, true, arith, Option, false, if◌then◌else◌, ◌++◌, sym, ap, ◌∙◌, Bool-cases, inl, inr, refl,
}
use leviso.Error.{ok, Result, err}
use leviso.Fs.Path.{FilePath, join}
use leviso.Fs.State.{Fs}
use leviso.Fs.ReadBack.{Holds, write-Holds}
use leviso.Text.{Text, contains_text}
use leviso.Users.{
  ensure_user, read_or_empty, read_uid_from_rootfs, read_gid_from_rootfs, needle, find_uid, Exec,
  passwd_entry, unwrap_or,
}
use leviso.Exec.Loops.{wrap-ok}
use leviso.Error.{context}
use leviso.Users.{write_text}
use leviso.Exec.{continue, ◌>>=◌}

read_or_empty-keeps : (p : FilePath) (s : Fs) → read_or_empty p s ≡ ((read_or_empty p s).0, s)
read_or_empty-keeps p s = ground arith

read_uid-keeps : (root : FilePath) (u : Text) (s : Fs) → (read_uid_from_rootfs root u s).1 ≡ s
unfolding read_uid_from_rootfs
read_uid-keeps root u s = ground arith

read_gid-keeps : (root : FilePath) (g : Text) (s : Fs) → (read_gid_from_rootfs root g s).1 ≡ s
unfolding read_gid_from_rootfs
read_gid-keeps root g s = ground arith

pub Holds-read_or_empty :
    (s : Fs) (p : FilePath) (c : Text) → Holds s p c → read_or_empty p s ≡ (ok c, s)
Holds-read_or_empty s p c h = rw h.at

pub Holds-read_uid :
    (s : Fs) (root : FilePath) (u c : Text)
    → Holds s (join root "etc/passwd") c
    → read_uid_from_rootfs root u s ≡ (find_uid u c, s)
unfolding read_uid_from_rootfs
Holds-read_uid s root u c h = rw h.at

-- The file at `p` can be read, or is missing, and its text contains `n`.
pub record Present (s : Fs) (p : FilePath) (n : Text) : Type 0 where
  pub content : Text
  pub readable : read_or_empty p s ≡ (ok content, s)
  pub contained : contains_text n content ≡ true

module _ (source staging : FilePath) (u : Text) (uid gid : ℕ) (home shell : Text) where
  abbrev pub passwd_path : FilePath
  passwd_path = join staging "etc/passwd"

  pub ensure_user-Present :
      (s : Fs)
      → Present s passwd_path (needle u)
      → ensure_user source staging u uid gid home shell s ≡ (ok tt, s)
  unfolding ensure_user
  ensure_user-Present s h = rw h.readable (rw h.contained)

  -- The rest of `ensure_user`, after the passwd file is read.
  abbrev rest : Text → Exec Fs (Unit {0})
  rest passwd =
      if contains_text (needle u) passwd
      then (λ s. (ok tt, s))
      else (read_uid_from_rootfs source u >>= λ found. write_text passwd_path (
          passwd
          ++ passwd_entry u (unwrap_or found (uid, gid)).0 (unwrap_or found (uid, gid)).1 home
              shell))

  -- What a call that succeeds has done: nothing, for the name is there, or one write of the text
  -- with the entry behind it.
  pub data Outcome (s t : Fs) : Type 0 where
    there :
        (passwd : Text)
        → read_or_empty passwd_path s ≡ (ok passwd, s)
        → contains_text (needle u) passwd ≡ true
        → t ≡ s
        → Outcome s t
    added :
        (passwd : Text) (found : Option (ℕ × ℕ))
        → read_or_empty passwd_path s ≡ (ok passwd, s)
        → contains_text (needle u) passwd ≡ false
        → read_uid_from_rootfs source u s ≡ (ok found, s)
        → Holds t passwd_path (
            passwd
            ++ passwd_entry u
                (unwrap_or found (uid, gid)).0
                (unwrap_or found (uid, gid)).1
                home
                shell)
        → Outcome s t

  module _ (s t : Fs) where
    found-Outcome :
        (passwd : Text) (r : Result (Option (ℕ × ℕ))) (s' : Fs)
        → read_or_empty passwd_path s ≡ (ok passwd, s)
        → contains_text (needle u) passwd ≡ false
        → read_uid_from_rootfs source u s ≡ (r, s')
        → continue
            (r, s')
            (λ found. write_text passwd_path (
              passwd
              ++ passwd_entry u
                  (unwrap_or found (uid, gid)).0
                  (unwrap_or found (uid, gid)).1
                  home
                  shell))
          ≡ (ok tt, t)
        → Outcome s t
    found-Outcome passwd (err e) s' p n q h = absurd (cc)
    found-Outcome passwd (ok found) s' p n q h =
        let same : s' ≡ s = sym (ap (λ x. x.1) q) ∙ read_uid-keeps source u s in
        added passwd found p n (q ∙ ap (λ x. (ok found, x)) same)
          (write-Holds s' t passwd_path _ (wrap-ok (context "Failed to write") _ tt t h))

    read-Outcome :
        (r : Result Text) (s' : Fs)
        → read_or_empty passwd_path s ≡ (r, s')
        → continue (r, s') rest ≡ (ok tt, t)
        → Outcome s t
    read-Outcome (err e) s' p h = absurd (cc)
    read-Outcome (ok passwd) s' p h =
        let same : s' ≡ s =
          sym (ap (λ x. x.1) p) ∙ ap (λ x. x.1) (read_or_empty-keeps passwd_path s) in
        let p' = p ∙ ap (λ x. (ok passwd, x)) same in
        elim (Bool-cases (contains_text (needle u) passwd)) [
          | inl yes' ↦ there passwd p' yes' (sym (ap (λ x. x.1) (rw yes' at h)) ∙ same)
          | inr no' ↦ found-Outcome passwd _ _ p' no' refl (rw (same, no') at h)
        ]

    pub ensure_user-Outcome :
        ensure_user source staging u uid gid home shell s ≡ (ok tt, t) → Outcome s t
    unfolding ensure_user
    ensure_user-Outcome h = read-Outcome _ _ refl h
