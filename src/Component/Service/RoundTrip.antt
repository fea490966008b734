-- ===== src/Component/Service/RoundTrip.antt =====
-- src/component/service.rs: the operations of a service say all that the service says.
use leviso.Base.{String, ◌≡◌, refl, ap, List, [], ◌∷◌, ◌++◌, map, append-nil, append_assoc}
use leviso.Base.{is_empty, if◌then◌else◌}
use leviso.Component.Types.{Phase, Op, Dest, Target, CustomOp}
use leviso.Component.Service.{Service, User, Group, Symlink, push_unless_empty, ops}

module _ {ℓ κ} {A : Type ℓ} {B : Type κ} where
  -- What `f` reads off each item, in order.
  abbrev gather : (B → List A) → List B → List A
  gather f [] = []
  gather f (x ∷ l) = f x ++ gather f l

  gather-append :
      (f : B → List A) (xs ys : List B) → gather f (xs ++ ys) ≡ gather f xs ++ gather f ys
  gather-append f [] ys = refl
  gather-append f (x ∷ xs) ys = simp (gather-append f xs ys, append_assoc)

  gather-none : (xs : List B) → gather (λ x. []) xs ≡ []
  gather-none [] = refl
  gather-none (x ∷ xs) = gather-none xs

gather-one {ℓ} : {A : Type ℓ} (xs : List A) → gather (λ x. x ∷ []) xs ≡ xs
gather-one [] = refl
gather-one (x ∷ xs) = ap (λ l. x ∷ l) (gather-one xs)

gather-map {ℓ κ μ} :
    {A : Type ℓ} {B : Type κ} {C : Type μ} (f : B → List A) (g : C → B) (xs : List C)
    → gather f (map g xs) ≡ gather (λ x. f (g x)) xs
gather-map f g [] = refl
gather-map f g (x ∷ xs) = ap (λ l. f (g x) ++ l) (gather-map f g xs)

module _ {ℓ} {A : Type ℓ} where
  gather-push :
      (f : Op → List A) (names : List String) (op : Op) (later : List Op)
      → gather f (push_unless_empty names op later)
        ≡ (if is_empty names then [] else f op) ++ gather f later
  gather-push f [] op later = refl
  gather-push f (n ∷ names) op later = refl

  if_nil : (names : List String) → ◌≡◌ {A = List A} (if is_empty names then [] else []) []
  if_nil [] = refl
  if_nil (n ∷ names) = refl

if_names : (names : List String) → (if is_empty names then [] else names) ≡ names
if_names [] = refl
if_names (n ∷ names) = refl

abbrev dir_of : Op → List String
dir_of (Op.dir path) = path ∷ []
dir_of _ = []

abbrev bins_of : Op → List String
bins_of (Op.bins names Dest.bin) = names
bins_of _ = []

abbrev sbins_of : Op → List String
sbins_of (Op.bins names Dest.sbin) = names
sbins_of _ = []

abbrev tree_of : Op → List String
tree_of (Op.copy_tree path) = path ∷ []
tree_of _ = []

abbrev file_of : Op → List String
file_of (Op.copy_file path) = path ∷ []
file_of _ = []

abbrev symlink_of : Op → List Symlink
symlink_of (Op.symlink link target) = record { link = link; target = target } ∷ []
symlink_of _ = []

abbrev units_of : Op → List String
units_of (Op.units names) = names
units_of _ = []

abbrev user_units_of : Op → List String
user_units_of (Op.user_units names) = names
user_units_of _ = []

abbrev enable_of : Op → List (Target × String)
enable_of (Op.enable unit target) = (target, unit) ∷ []
enable_of _ = []

abbrev custom_of : Op → List CustomOp
custom_of (Op.custom op) = op ∷ []
custom_of _ = []

abbrev group_of : Op → List Group
group_of (Op.group name gid) = record { name = name; gid = gid } ∷ []
group_of _ = []

abbrev user_of : Op → List User
user_of (Op.user name uid gid home shell) =
    record { name = name; uid = uid; gid = gid; home = home; shell = shell } ∷ []
user_of _ = []

ruleset gather_laws =
    (gather-append, gather-push, gather-map, gather-none, gather-one, if_nil, if_names, append-nil)

gather-dir_of : (s : Service) → gather dir_of (ops s) ≡ s.dirs
unfolding ops
gather-dir_of s = simp gather_laws

gather-bins_of : (s : Service) → gather bins_of (ops s) ≡ s.bins
unfolding ops
gather-bins_of s = simp gather_laws

gather-sbins_of : (s : Service) → gather sbins_of (ops s) ≡ s.sbins
unfolding ops
gather-sbins_of s = simp gather_laws

gather-units_of : (s : Service) → gather units_of (ops s) ≡ s.units
unfolding ops
gather-units_of s = simp gather_laws

gather-user_units_of : (s : Service) → gather user_units_of (ops s) ≡ s.user_units
unfolding ops
gather-user_units_of s = simp gather_laws

gather-enable_of : (s : Service) → gather enable_of (ops s) ≡ s.enable
unfolding ops
gather-enable_of s = simp gather_laws

gather-tree_of : (s : Service) → gather tree_of (ops s) ≡ s.config_trees
unfolding ops
gather-tree_of s = simp gather_laws

gather-file_of : (s : Service) → gather file_of (ops s) ≡ s.config_files
unfolding ops
gather-file_of s = simp gather_laws

gather-symlink_of : (s : Service) → gather symlink_of (ops s) ≡ s.symlinks
unfolding ops
gather-symlink_of s = simp gather_laws

gather-user_of : (s : Service) → gather user_of (ops s) ≡ s.users
unfolding ops
gather-user_of s = simp gather_laws

gather-group_of : (s : Service) → gather group_of (ops s) ≡ s.groups
unfolding ops
gather-group_of s = simp gather_laws

gather-custom_of : (s : Service) → gather custom_of (ops s) ≡ s.custom
unfolding ops
gather-custom_of s = simp gather_laws

-- Reads a service back from its operations; the name and the phase are not among them.
pub service_of : String → Phase → List Op → Service
service_of name phase l = record {
  name = name;
  phase = phase;
  bins = gather bins_of l;
  sbins = gather sbins_of l;
  units = gather units_of l;
  user_units = gather user_units_of l;
  enable = gather enable_of l;
  config_trees = gather tree_of l;
  config_files = gather file_of l;
  dirs = gather dir_of l;
  symlinks = gather symlink_of l;
  users = gather user_of l;
  groups = gather group_of l;
  custom = gather custom_of l;
}

-- A service is determined by its name, its phase and the operations that it generates: every
-- directory, binary, file, link, unit, user, group and custom step is in them, in its own order.
pub service_of-ops : (s : Service) → service_of s.name s.phase (ops s) ≡ s
unfolding service_of
service_of-ops s = λ i. record {
  name = s.name;
  phase = s.phase;
  bins = gather-bins_of s i;
  sbins = gather-sbins_of s i;
  units = gather-units_of s i;
  user_units = gather-user_units_of s i;
  enable = gather-enable_of s i;
  config_trees = gather-tree_of s i;
  config_files = gather-file_of s i;
  dirs = gather-dir_of s i;
  symlinks = gather-symlink_of s i;
  users = gather-user_of s i;
  groups = gather-group_of s i;
  custom = gather-custom_of s i;
}
