-- ===== src/Users/Entry.antt =====
-- src/build/users.rs: one line of the files, as it is written and as it is matched.
use leviso.Base.{
  ℕ, ◌<◌, ◌≡◌, ◌≢◌, refl, List, [], ◌∷◌, ◌++◌, false, Option, none, some, All, All-append, All-imp,
  arith, nat_eq, list_eq, list_same_iff, append_assoc,
}
use leviso.Error.{Result, ok}
use leviso.Text.{Text, newline, colon, u32_size, starts_with, contains_text, split, lines, show_u32}
use leviso.Text.Decimal.{IsDigits, show_digits-IsDigits, parse_u32-show_u32}
use leviso.Text.Lines.{IsOneLine, Avoids, lines-one_line, lines-Avoids}
use leviso.Text.Fields.{Lacks, split-field, split-starts}
use leviso.Users.{match_uid, match_gid, find_line, needle, passwd_entry, group_entry}

module _ {ℓ} {A : Type ℓ} (test : List Text → Option (Result (Option A))) where
  -- Lines that do not match are passed over.
  pub find_line-skip :
      (ls ms : List Text)
      → All (λ l. test (split colon l) ≡ none) ls
      → find_line test (ls ++ ms) ≡ find_line test ms
  unfolding find_line
  find_line-skip [] ms h = refl
  find_line-skip (l ∷ ls) ms h = rw h.0 (find_line-skip ls ms h.1)

pub match_uid-none :
    (u l : Text) (ps : List Text)
    → split colon l ≡ ps
    → starts_with (needle u) l ≡ false
    → match_uid u ps ≡ none
unfolding match_uid
match_uid-none u l [] e h = refl
match_uid-none u l (name ∷ []) e h = refl
match_uid-none u l (name ∷ password ∷ []) e h = refl
match_uid-none u l (name ∷ password ∷ uid ∷ []) e h = refl
match_uid-none u l (name ∷ password ∷ uid ∷ gid ∷ more) e h =
    ground (arith, list_same_iff name u, split-starts colon l name password (uid ∷ gid ∷ more) e)

pub match_gid-none :
    (g l : Text) (ps : List Text)
    → split colon l ≡ ps
    → starts_with (needle g) l ≡ false
    → match_gid g ps ≡ none
unfolding match_gid
match_gid-none g l [] e h = refl
match_gid-none g l (name ∷ []) e h = refl
match_gid-none g l (name ∷ password ∷ []) e h = refl
match_gid-none g l (name ∷ password ∷ gid ∷ more) e h =
    ground (arith, list_same_iff name g, split-starts colon l name password (gid ∷ more) e)

-- The needle is not empty, so a text that lacks it has no line that begins with it.
pub needle-Avoids : (u t : Text) → contains_text (needle u) t ≡ false → Avoids (needle u) (lines t)
needle-Avoids [] t h = lines-Avoids colon [] t h
needle-Avoids (c ∷ u) t h = lines-Avoids c (needle u) t h

-- The entries without their newline.
abbrev pub passwd_line : Text → ℕ → ℕ → Text → Text → Text
passwd_line u uid gid home shell =
    u
    ++ (colon ∷ b'x' ∷ colon ∷ show_u32 uid
        ++ (colon ∷ show_u32 gid ++ (colon ∷ u ++ (colon ∷ home ++ (colon ∷ shell)))))

abbrev pub group_line : Text → ℕ → Text
group_line g gid = g ++ (colon ∷ b'x' ∷ colon ∷ show_u32 gid ++ (colon ∷ []))

pub passwd_entry_lem :
    (u : Text) (uid gid : ℕ) (home shell : Text)
    → passwd_entry u uid gid home shell ≡ passwd_line u uid gid home shell ++ (newline ∷ [])
passwd_entry_lem u uid gid home shell = simp append_assoc

pub group_entry_lem : (g : Text) (gid : ℕ) → group_entry g gid ≡ group_line g gid ++ (newline ∷ [])
group_entry_lem g gid = simp append_assoc

show_u32-IsDigits : (n : ℕ) → IsDigits (show_u32 n)
unfolding show_u32
show_u32-IsDigits n = show_digits-IsDigits 10 n

show_u32-IsOneLine : (n : ℕ) → IsOneLine (show_u32 n)
show_u32-IsOneLine n = All-imp _ _ _ (λ c h. (ground arith, ground arith)) (show_u32-IsDigits n)

pub show_u32-Lacks : (n : ℕ) → Lacks colon (show_u32 n)
show_u32-Lacks n = All-imp _ _ _ (λ c h. ground arith) (show_u32-IsDigits n)

IsOneLine-colon : (s t : Text) → IsOneLine s → IsOneLine t → IsOneLine (s ++ (colon ∷ t))
IsOneLine-colon s t h k = All-append _ s (colon ∷ t) h ((refl, refl), k)

pub passwd_line-IsOneLine :
    (u : Text) (uid gid : ℕ) (home shell : Text)
    → IsOneLine u
    → IsOneLine home
    → IsOneLine shell
    → IsOneLine (passwd_line u uid gid home shell)
passwd_line-IsOneLine u uid gid home shell hu hh hs = IsOneLine-colon u _ hu (
  (refl, refl),
  (
    (refl, refl),
    IsOneLine-colon _ _ (show_u32-IsOneLine uid) (
        IsOneLine-colon _ _ (show_u32-IsOneLine gid)
          (IsOneLine-colon u _ hu (IsOneLine-colon home shell hh hs))),
  ),
)

pub lines_of_line : (t : Text) → t ≢ [] → IsOneLine t → lines (t ++ (newline ∷ [])) ≡ t ∷ []
lines_of_line [] h k = absurd (h refl)
lines_of_line (c ∷ t) h k = lines-one_line c t k

pub append_cons-ne-nil : (s t : Text) (c : ℕ) → s ++ (c ∷ t) ≢ []
append_cons-ne-nil [] t c h = cc
append_cons-ne-nil (d ∷ s) t c h = cc

pub match_uid-line :
    (u : Text) (uid gid : ℕ) (home shell : Text)
    → Lacks colon u
    → uid < u32_size
    → gid < u32_size
    → match_uid u (split colon (passwd_line u uid gid home shell)) ≡ some (ok (some (uid, gid)))
unfolding match_uid
match_uid-line u uid gid home shell hu h k =
    rw (split-field colon u _ hu, split-field colon (b'x' ∷ []) _ (refl, tt))
      (rw
        (
          split-field colon (show_u32 uid) _ (show_u32-Lacks uid),
          split-field colon (show_u32 gid) _ (show_u32-Lacks gid),
        )
        (rw ((list_same_iff u u).1 refl, parse_u32-show_u32 uid h, parse_u32-show_u32 gid k)))

pub match_gid-line :
    (g : Text) (gid : ℕ)
    → Lacks colon g
    → gid < u32_size
    → match_gid g (split colon (group_line g gid)) ≡ some (ok (some gid))
unfolding match_gid
match_gid-line g gid hg h =
    rw (split-field colon g _ hg, split-field colon (b'x' ∷ []) _ (refl, tt))
      (rw (split-field colon (show_u32 gid) _ (show_u32-Lacks gid))
        (rw ((list_same_iff g g).1 refl, parse_u32-show_u32 gid h)))

pub group_line-IsOneLine : (g : Text) (gid : ℕ) → IsOneLine g → IsOneLine (group_line g gid)
group_line-IsOneLine g gid hg =
    IsOneLine-colon g _ hg
      ((refl, refl), ((refl, refl), IsOneLine-colon _ [] (show_u32-IsOneLine gid) tt))

pub find_line-hit :
    {A : Type 0} (test : List Text → Option (Result (Option A))) (l : Text) (r : Result (Option A))
    → test (split colon l) ≡ some r
    → find_line test (l ∷ []) ≡ r
unfolding find_line
find_line-hit test l r h = rw (h, find_line)
