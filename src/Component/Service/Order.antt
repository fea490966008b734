-- ===== src/Component/Service/Order.antt =====
-- src/component/service.rs: the order in which `Service::ops` pushes.
use leviso.Base.{ℕ, ◌≤◌, String, ◌≡◌, refl, List, [], ◌∷◌, ◌++◌, map, All, append-nil, arith}
use leviso.Component.Types.{Op, Dest, Target}
use leviso.Component.Service.{
  Service, push_unless_empty, op_of_enable, op_of_symlink, op_of_group, op_of_user, ops,
}

-- The place of an operation in the order that the comments of `Service::ops` promise:
-- directories, binaries, files, links, units, enabled units, custom steps, groups, users.
abbrev pub stage : Op → ℕ
stage (Op.dir path) = 0
stage (Op.dir_mode path mode) = 0
stage (Op.dirs paths) = 0
stage (Op.bin name dest) = 1
stage (Op.bins names dest) = 1
stage Op.bash = 1
stage (Op.systemd_binaries names) = 1
stage (Op.sudo_libs libs) = 1
stage (Op.copy_tree path) = 2
stage (Op.copy_file path) = 2
stage (Op.write_file path content) = 2
stage (Op.write_file_mode path content mode) = 2
stage (Op.symlink link target) = 3
stage (Op.units names) = 4
stage (Op.user_units names) = 4
stage (Op.dbus_symlinks names) = 4
stage (Op.udev_helpers names) = 4
stage (Op.enable unit target) = 5
stage (Op.custom op) = 6
stage (Op.group name gid) = 7
stage (Op.user name uid gid home shell) = 8

-- No operation stands before one of an earlier stage.
abbrev pub IsOrdered : List Op → Type 0
IsOrdered [] = Unit
IsOrdered (op ∷ later) = All (λ o. stage op ≤ stage o) later × IsOrdered later

-- An ordered list of which no operation is of a stage before `c`.
abbrev From : ℕ → List Op → Type 0
From c l = All (λ o. c ≤ stage o) l × IsOrdered l

All-le : (c d : ℕ) (l : List Op) → c ≤ d → All (λ o. d ≤ stage o) l → All (λ o. c ≤ stage o) l
All-le c d [] le h = tt
All-le c d (o ∷ l) le h = (omega arith, All-le c d l le h.1)

From-le : (c d : ℕ) (l : List Op) → c ≤ d → From d l → From c l
From-le c d l le h = (All-le c d l le h.0, h.1)

From-map {ℓ} :
    {A : Type ℓ} (f : A → Op) (c : ℕ) (xs : List A) (later : List Op)
    → ((x : A) → stage (f x) ≡ c)
    → From c later
    → From c (map f xs ++ later)
From-map f c [] later same h = h
From-map f c (x ∷ xs) later same h =
    let rest = From-map f c xs later same h in
    (
      (omega (arith, same x), rest.0),
      (All-le (stage (f x)) c _ (omega (arith, same x)) rest.0, rest.1),
    )

From-last {ℓ} :
    {A : Type ℓ} (f : A → Op) (c : ℕ) (xs : List A)
    → ((x : A) → stage (f x) ≡ c)
    → From c (map f xs)
From-last f c xs same = rw append-nil at (From-map f c xs [] same (tt, tt))

stage-enable : (e : Target × String) → stage (op_of_enable e) ≡ 5
stage-enable (target, unit) = refl

From-push :
    (names : List String) (op : Op) (later : List Op)
    → From (stage op) later
    → From (stage op) (push_unless_empty names op later)
From-push [] op later h = h
From-push (n ∷ names) op later h = ((omega arith, h.0), h)

-- In the operations of a service no directory is made after a file is copied, no unit is enabled
-- before the units are copied, and no user is added before a group: of two operations, the later
-- one is never of an earlier stage.
pub ops-IsOrdered : (s : Service) → IsOrdered (ops s)
unfolding ops
ops-IsOrdered s =
    let users : From 8 (map op_of_user s.users) = From-last op_of_user 8 s.users (λ u. refl) in
    let groups =
      From-map op_of_group 7 s.groups _ (λ g. refl) (From-le 7 8 _ (omega arith) users) in
    let customs =
      From-map Op.custom 6 s.custom _ (λ c. refl) (From-le 6 7 _ (omega arith) groups) in
    let enabled =
      From-map op_of_enable 5 s.enable _ stage-enable (From-le 5 6 _ (omega arith) customs) in
    let user_units =
      From-push s.user_units (Op.user_units s.user_units) _ (From-le 4 5 _ (omega arith) enabled) in
    let units = From-push s.units (Op.units s.units) _ user_units in
    let links =
      From-map op_of_symlink 3 s.symlinks _ (λ l. refl) (From-le 3 4 _ (omega arith) units) in
    let files =
      From-map Op.copy_file 2 s.config_files _ (λ f. refl) (From-le 2 3 _ (omega arith) links) in
    let trees = From-map Op.copy_tree 2 s.config_trees _ (λ t. refl) files in
    let sbins =
      From-push s.sbins (Op.bins s.sbins Dest.sbin) _ (From-le 1 2 _ (omega arith) trees) in
    let bins = From-push s.bins (Op.bins s.bins Dest.bin) _ sbins in
    (From-map Op.dir 0 s.dirs _ (λ d. refl) (From-le 0 1 _ (omega arith) bins)).1
