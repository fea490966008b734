-- ===== src/Users/Kept.antt =====
-- src/build/users.rs: what an entry that was added leaves as it was, and what hides a name.
use leviso.Base.{
  ℕ, ◌≡◌, ◌≢◌, refl, List, [], ◌∷◌, ◌++◌, false, Option, none, arith, ◌==◌, list_eq, list_same_iff,
  nat_eq,
}
use leviso.Error.{Result}
use leviso.Text.{Text, colon, split, lines, show_u32}
use leviso.Text.Lines.{IsOneLine, EndsLine, lines-EndsLine}
use leviso.Text.Fields.{Lacks, split-field}
use leviso.Users.{match_uid, find_line, find_uid, passwd_entry}
use leviso.Users.Entry.{
  passwd_line, passwd_entry_lem, passwd_line-IsOneLine, lines_of_line, append_cons-ne-nil,
  show_u32-Lacks,
}

find_line-append_none :
    {A : Type 0} (test : List Text → Option (Result (Option A))) (ls : List Text) (l : Text)
    → test (split colon l) ≡ none
    → find_line test (ls ++ (l ∷ [])) ≡ find_line test ls
unfolding find_line
find_line-append_none test [] l h = rw (h, find_line)
find_line-append_none test (k ∷ ls) l h = ground (arith, find_line-append_none test ls l h)

list_same_ne : (u v : Text) → u ≢ v → (u == v) ≡ false
list_same_ne u v ne = ground (arith, list_same_iff u v)

match_uid-other :
    (u v : Text) (uid gid : ℕ) (home shell : Text)
    → Lacks colon u
    → u ≢ v
    → match_uid v (split colon (passwd_line u uid gid home shell)) ≡ none
unfolding match_uid
match_uid-other u v uid gid home shell hu ne =
    rw (split-field colon u _ hu, split-field colon (b'x' ∷ []) _ (refl, tt))
      (rw
        (
          split-field colon (show_u32 uid) _ (show_u32-Lacks uid),
          split-field colon (show_u32 gid) _ (show_u32-Lacks gid),
        )
        (rw (list_same_ne u v ne)))

-- An entry that is added for one user changes nothing that is read for another: the same numbers,
-- the same error, or still nothing. The file is empty or ends in a newline; name, home and shell
-- have no line ends, and the name no colon.
pub find_uid-append_ne :
    (content : Text) (ends : EndsLine content) (u v : Text) (uid gid : ℕ) (home shell : Text)
    → u ≢ v
    → Lacks colon u
    → IsOneLine u
    → IsOneLine home
    → IsOneLine shell
    → find_uid v (content ++ passwd_entry u uid gid home shell) ≡ find_uid v content
unfolding find_uid
find_uid-append_ne content ends u v uid gid home shell ne hu ou oh os =
    let line = passwd_line u uid gid home shell in
    rw (passwd_entry_lem, lines-EndsLine content _ ends)
      (rw
        (lines_of_line line (append_cons-ne-nil u _ colon)
          (passwd_line-IsOneLine u uid gid home shell ou oh os))
        (find_line-append_none (match_uid v) (lines content) line
          (match_uid-other u v uid gid home shell hu ne)))
