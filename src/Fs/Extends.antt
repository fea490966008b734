-- ===== src/Fs/Extends.antt =====
-- What is there stays there when something is made where nothing was.
use leviso.Base.{String, ◌≡◌, true, ap}
use leviso.Error.{ok}
use leviso.Fs.Ops.{symlink, lexists, create_dir_all, is_some}
use leviso.Fs.Path.{FilePath}
use leviso.Fs.State.{Fs}
use leviso.Fs.Kept.{Keeps, lexists-Keeps}
use leviso.Fs.Kept.Steps.{create_dir_all-Keeping, symlink-Keeping, symlink-made}

-- What is there stays there, itself or as a link.
unfoldable pub Extends : Fs → Fs → Type 0
Extends s t = (p : FilePath) → lexists s p ≡ true → lexists t p ≡ true

pub Extends-refl : (s : Fs) → Extends s s
unfolding Extends
Extends-refl s p h = h

pub Extends-trans : (s t u : Fs) → Extends s t → Extends t u → Extends s u
unfolding Extends
Extends-trans s t u h g p e = g p (h p e)

Keeps-Extends : (s t : Fs) → Keeps s t → Extends s t
unfolding Extends
Keeps-Extends s t k p h = lexists-Keeps s t k p h

-- `fs::create_dir_all` leaves in its place what is there, whether it succeeds or not.
pub create_dir_all-Extends : (p : FilePath) (s : Fs) → Extends s (create_dir_all p s).1
create_dir_all-Extends p s = Keeps-Extends s _ (create_dir_all-Keeping p s)

pub symlink-Extends : (target : String) (p : FilePath) (s : Fs) → Extends s (symlink target p s).1
symlink-Extends target p s = Keeps-Extends s _ (symlink-Keeping target p s)

-- After `symlink` has succeeded, there is something at its path.
pub symlink-lexists :
    (target : String) (p : FilePath) (s t : Fs)
    → symlink target p s ≡ (ok tt, t)
    → lexists t p ≡ true
symlink-lexists target p s t h = ap is_some (symlink-made target p s t h)
