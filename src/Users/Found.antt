-- ===== src/Users/Found.antt =====
-- src/build/users.rs: an entry that was added is the one that is read.
use leviso.Base.{ℕ, ◌<◌, ◌≡◌, refl, ◌∙◌, [], ◌∷◌, ◌++◌, false, some, All-imp, nat_eq, list_eq}
use leviso.Error.{ok}
use leviso.Text.{Text, colon, u32_size, contains_text, lines}
use leviso.Text.Lines.{IsOneLine, EndsLine, lines-EndsLine}
use leviso.Text.Fields.{Lacks}
use leviso.Users.{match_uid, match_gid, find_uid, find_gid, needle, passwd_entry, group_entry}
use leviso.Users.Entry.{
  passwd_line, group_line, passwd_entry_lem, group_entry_lem, passwd_line-IsOneLine,
  group_line-IsOneLine, lines_of_line, append_cons-ne-nil, find_line-skip, find_line-hit,
  match_uid-none, match_gid-none, match_uid-line, match_gid-line, needle-Avoids,
}

module _ (content : Text) (ends : EndsLine content) where
  -- A user that is added to a passwd file is read back with its numbers: the file is empty or
  -- ends in a newline and does not contain the name and a colon; name, home and shell have no
  -- line ends, the name no colon, and the numbers are of type `u32`.
  pub find_uid-append :
      (u : Text) (uid gid : ℕ) (home shell : Text)
      → contains_text (needle u) content ≡ false
      → Lacks colon u
      → IsOneLine u
      → IsOneLine home
      → IsOneLine shell
      → uid < u32_size
      → gid < u32_size
      → find_uid u (content ++ passwd_entry u uid gid home shell) ≡ ok (some (uid, gid))
  unfolding find_uid
  find_uid-append u uid gid home shell new hu ou oh os h k =
      let line = passwd_line u uid gid home shell in
      rw (passwd_entry_lem, lines-EndsLine content _ ends)
        (rw
          (lines_of_line line (append_cons-ne-nil u _ colon)
            (passwd_line-IsOneLine u uid gid home shell ou oh os))
          (find_line-skip (match_uid u) (lines content) (line ∷ [])
              (All-imp _ _ _ (λ l. match_uid-none u l _ refl) (needle-Avoids u content new))
            ∙ find_line-hit (match_uid u) line _ (match_uid-line u uid gid home shell hu h k)))

  -- A group that is added at the end of a group file, in which its name and a colon do not occur,
  -- is read back with its number. The file is empty or ends in a newline, the name has no line end
  -- and no colon, and the number is of type `u32`.
  pub find_gid-append :
      (g : Text) (gid : ℕ)
      → contains_text (needle g) content ≡ false
      → Lacks colon g
      → IsOneLine g
      → gid < u32_size
      → find_gid g (content ++ group_entry g gid) ≡ ok (some gid)
  unfolding find_gid
  find_gid-append g gid new hg og h =
      let line = group_line g gid in
      rw (group_entry_lem, lines-EndsLine content _ ends)
        (rw (lines_of_line line (append_cons-ne-nil g _ colon) (group_line-IsOneLine g gid og)) (
          find_line-skip (match_gid g) (lines content) (line ∷ [])
            (All-imp _ _ _ (λ l. match_gid-none g l _ refl) (needle-Avoids g content new))
          ∙ find_line-hit (match_gid g) line _ (match_gid-line g gid hg h)))
