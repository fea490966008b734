-- ===== src/Artifact/Qcow2/Shadow.antt =====
-- src/artifact/qcow2/config.rs: the passwords in the image's /etc/shadow.
use leviso.Base.{
  ◌≡◌, refl, List, [], ◌∷◌, ◌++◌, map, All, arith, ◌==◌, nat_eq, list_eq, if◌then◌else◌, ap, ◌∙◌,
  some, Bool-cases, inl, list_same_iff, inr,
}
use leviso.Text.{Text, newline, colon, codes, starts_with, lines}
use leviso.Text.Lines.{IsOneLine, lines-append, lines-one_line}
use leviso.Text.Fields.{Lacks}
use leviso.Artifact.Qcow2.Configuration.{
  shadow_without_password, empty_password, join_lines, rest_after, third_part,
}

-- A line of the file: the name, the password and the fields after them.
pub record Entry : Type 0 where
  pub name : Text
  pub password : Text
  pub fields : Text

abbrev pub line_of : Entry → Text
line_of e = e.name ++ (colon ∷ (e.password ++ (colon ∷ e.fields)))

abbrev pub file_of : List Entry → Text
file_of [] = []
file_of (e ∷ es) = line_of e ++ (newline ∷ file_of es)

-- Names and passwords have no colon, and a line no line end.
abbrev pub IsEntry : Entry → Type 0
IsEntry e = Lacks colon e.name × Lacks colon e.password × IsOneLine (line_of e)

-- The entry of root without its password; the others are as they are.
abbrev pub opened : Entry → Entry
opened e = if e.name == codes "root" then record e { password = [] } else e

starts_with-field :
    (n t r : Text)
    → Lacks colon n
    → Lacks colon t
    → starts_with (n ++ (colon ∷ [])) (t ++ (colon ∷ r)) ≡ (t == n)
starts_with-field [] [] r h k = refl
starts_with-field [] (d ∷ t) r h k = ground arith
starts_with-field (c ∷ n) [] r h k = ground arith
starts_with-field (c ∷ n) (d ∷ t) r h k = ground (arith, starts_with-field n t r h.1 k.1)

rest_after-field : (t r : Text) → Lacks colon t → rest_after colon (t ++ (colon ∷ r)) ≡ some r
rest_after-field [] r h = refl
rest_after-field (c ∷ t) r h = ground (arith, rest_after-field t r h.1)

third_part-line : (e : Entry) → IsEntry e → third_part (line_of e) ≡ some e.fields
third_part-line e h =
    rw (rest_after-field e.name (e.password ++ (colon ∷ e.fields)) h.0)
      (rest_after-field e.password e.fields h.1)

root_line :
    (e : Entry)
    → e.name ≡ codes "root"
    → codes "root::" ++ e.fields ≡ line_of (record e { password = [] })
root_line e n = rw n refl

is_root :
    (e : Entry) → IsEntry e → starts_with (codes "root:") (line_of e) ≡ (e.name == codes "root")
is_root e h = starts_with-field (codes "root") e.name _ (refl, (refl, (refl, (refl, tt)))) h.0

empty_password-line : (e : Entry) → IsEntry e → empty_password (line_of e) ≡ line_of (opened e)
unfolding empty_password
empty_password-line e h = elim (Bool-cases (e.name == codes "root")) [
  | inl r ↦
      rw (is_root e h, r, third_part-line e h)
        (root_line e ((list_same_iff e.name (codes "root")).0 r))
  | inr r ↦ rw (is_root e h, r) refl
]

lines-whole : (l : Text) → IsOneLine l → lines (l ++ (newline ∷ [])) ≡ l ∷ []
unfolding lines
lines-whole [] h = refl
lines-whole (c ∷ t) h = lines-one_line c t h

lines-file : (es : List Entry) → All IsEntry es → lines (file_of es) ≡ map line_of es
unfolding lines
lines-file [] h = refl
lines-file (e ∷ es) h =
    rw (lines-append (line_of e) (file_of es), lines-whole (line_of e) h.0.2, lines-file es h.1)
      refl

empty_passwords :
    (es : List Entry)
    → All IsEntry es
    → map empty_password (map line_of es) ≡ map line_of (map opened es)
empty_passwords [] h = refl
empty_passwords (e ∷ es) h = rw (empty_password-line e h.0, empty_passwords es h.1) refl

join_lines-file :
    (e : Entry) (es : List Entry) → join_lines (map line_of (e ∷ es)) ≡ file_of (e ∷ es)
join_lines-file e [] = refl
join_lines-file e (f ∷ es) = rw (join_lines-file f es) refl

-- In a shadow file with at least one entry, in which no name or password has a colon and no entry
-- a line end, the password of every entry of root is emptied, and every other entry and every
-- other field stays as it is.
pub shadow_without_password-opened :
    (e : Entry) (es : List Entry)
    → All IsEntry (e ∷ es)
    → shadow_without_password (file_of (e ∷ es)) ≡ file_of (map opened (e ∷ es))
unfolding shadow_without_password
shadow_without_password-opened e es h =
    ap (λ ls. join_lines (map empty_password ls)) (lines-file (e ∷ es) h)
    ∙ ap join_lines (empty_passwords (e ∷ es) h)
    ∙ join_lines-file (opened e) (map opened es)
