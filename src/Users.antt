-- ===== src/Users.antt =====
-- src/build/users.rs: the passwd and group files of the staging tree.
mod Entry
pub mod Found
pub mod Kept
pub mod Ensure
pub mod Once
use leviso.Base.{
  ℕ, String, List, [], ◌∷◌, ◌++◌, Bool, true, false, not, Option, none, some, ◌==◌, nat_eq, list_eq,
  if◌then◌else◌,
}
use leviso.Error.{Error, context, message, Result, ok, err}
use leviso.Exec.{Exec, with_context, pure, asks, ◌>>=◌, ◌>>◌}
use leviso.Fs.Path.{FilePath, join}
use leviso.Fs.State.{Fs}
use leviso.Fs.Ops.{exists, read, write}
use leviso.Text.{Text, codes, newline, colon, contains_text, split, lines, parse_u32, show_u32}

abbrev pub corrupt_uid : Error
corrupt_uid = message "Corrupted passwd file: invalid UID" []

abbrev pub corrupt_gid : Error
corrupt_gid = message "Corrupted passwd file: invalid GID" []

abbrev pub corrupt_group : Error
corrupt_group = message "Corrupted group file: invalid GID" []

abbrev pub or_error {ℓ} : {A : Type ℓ} → Option A → Error → Result A
or_error none e = err e
or_error (some a) e = ok a

-- The two numbers of an entry, the first error first.
abbrev pub both_ids : Result ℕ → Result ℕ → Result (Option (ℕ × ℕ))
both_ids (err e) g = err e
both_ids (ok uid) (err e) = err e
both_ids (ok uid) (ok gid) = ok (some (uid, gid))

-- The body of the loop of `read_uid_from_rootfs` over the pieces of one line; `none` goes on.
unfoldable pub match_uid : Text → List Text → Option (Result (Option (ℕ × ℕ)))
match_uid username (name ∷ password ∷ uid ∷ gid ∷ more) =
    if name == username
    then some
        (both_ids (or_error (parse_u32 uid) corrupt_uid) (or_error (parse_u32 gid) corrupt_gid))
    else none
match_uid username _ = none

abbrev some_gid : Result ℕ → Result (Option ℕ)
some_gid (err e) = err e
some_gid (ok gid) = ok (some gid)

unfoldable pub match_gid : Text → List Text → Option (Result (Option ℕ))
match_gid groupname (name ∷ password ∷ gid ∷ more) =
    if name == groupname then some (some_gid (or_error (parse_u32 gid) corrupt_group)) else none
match_gid groupname _ = none

-- `for line in lines { …; if matches { return … } }; Ok(None)`
unfoldable pub find_line {ℓ} :
    {A : Type ℓ} → (List Text → Option (Result (Option A))) → List Text → Result (Option A)
find_line test [] = ok none
find_line test (l ∷ ls) =
    let rest = find_line test ls in elim (test (split colon l)) [ none ↦ rest | some r ↦ r ]

unfoldable pub find_uid : Text → Text → Result (Option (ℕ × ℕ))
unfolding find_line match_uid
find_uid username content = find_line (match_uid username) (lines content)

unfoldable pub find_gid : Text → Text → Result (Option ℕ)
unfolding find_line match_gid
find_gid groupname content = find_line (match_gid groupname) (lines content)

-- `fs::read_to_string(…).with_context(…)` and `fs::write(…).with_context(…)`; the path that the
-- context names is left out.
abbrev pub read_text : FilePath → Exec Fs Text
read_text p = with_context (context "Failed to read") (read p)

abbrev pub write_text : FilePath → Text → Exec Fs (Unit {0})
write_text p content = with_context (context "Failed to write") (write p content)

unfoldable pub read_uid_from_rootfs : FilePath → Text → Exec Fs (Option (ℕ × ℕ))
read_uid_from_rootfs rootfs username fs =
    let p = join rootfs "etc/passwd" in
    if not (exists fs p)
    then (ok none, fs)
    else (read_text p >>= λ content. asks (λ s. find_uid username content)) fs

unfoldable pub read_gid_from_rootfs : FilePath → Text → Exec Fs (Option ℕ)
read_gid_from_rootfs rootfs groupname fs =
    let p = join rootfs "etc/group" in
    if not (exists fs p)
    then (ok none, fs)
    else (read_text p >>= λ content. asks (λ s. find_gid groupname content)) fs

-- `format!("{}:", name)`
abbrev pub needle : Text → Text
needle name = name ++ (colon ∷ [])

-- `format!("{}:x:{}:{}:{}:{}:{}\n", …)`
abbrev pub passwd_entry : Text → ℕ → ℕ → Text → Text → Text
passwd_entry username uid gid home shell =
    username
    ++ (colon ∷ b'x' ∷ colon ∷ show_u32 uid
        ++ (colon ∷ show_u32 gid
            ++ (colon ∷ username ++ (colon ∷ home ++ (colon ∷ shell ++ (newline ∷ []))))))

-- `format!("{}:x:{}:\n", …)`
abbrev pub group_entry : Text → ℕ → Text
group_entry groupname gid =
    groupname ++ (colon ∷ b'x' ∷ colon ∷ show_u32 gid ++ (colon ∷ newline ∷ []))

abbrev pub unwrap_or {ℓ} : {A : Type ℓ} → Option A → A → A
unwrap_or none d = d
unwrap_or (some a) d = a

-- The content of a file, or the empty text if it is not there.
abbrev pub read_or_empty : FilePath → Exec Fs Text
read_or_empty p fs = if exists fs p then read_text p fs else (ok [], fs)

unfoldable pub ensure_user : FilePath → FilePath → Text → ℕ → ℕ → Text → Text → Exec Fs (Unit {0})
ensure_user source staging username default_uid default_gid home shell = do
  let p = join staging "etc/passwd"
  passwd ← read_or_empty p
  if contains_text (needle username) passwd then pure tt else do
    found ← read_uid_from_rootfs source username
    let ids = unwrap_or found (default_uid, default_gid)
    write_text p (passwd ++ passwd_entry username ids.0 ids.1 home shell)

unfoldable pub ensure_group : FilePath → FilePath → Text → ℕ → Exec Fs (Unit {0})
ensure_group source staging groupname default_gid = do
  let p = join staging "etc/group"
  group ← read_or_empty p
  if contains_text (needle groupname) group then pure tt else do
    found ← read_gid_from_rootfs source groupname
    let gid = unwrap_or found default_gid
    write_text p (group ++ group_entry groupname gid)

-- `ROOT_SHELL` of distro-spec is an argument.
unfoldable pub create_root_user : Text → FilePath → Exec Fs (Unit {0})
create_root_user root_shell staging = do
  write (join staging "etc/passwd")
      (codes "root:x:0:0:root:/root:" ++ (root_shell ++ (newline ∷ [])))
  write (join staging "etc/group") (codes "root:x:0:\n")
