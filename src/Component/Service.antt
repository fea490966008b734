-- ===== src/Component/Service.antt =====
-- src/component/service.rs: `Service`, which generates the operations of a component.
pub mod Order
pub mod RoundTrip
use leviso.Base.{ℕ, String, List, [], ◌∷◌, ◌++◌, map, not, is_empty, if◌then◌else◌}
use leviso.Component.Types.{Phase, Op, Dest, Target, CustomOp, Installable}

pub record User : Type 0 where
  pub name : String
  pub uid : ℕ
  pub gid : ℕ
  pub home : String
  pub shell : String

pub record Group : Type 0 where
  pub name : String
  pub gid : ℕ

pub record Symlink : Type 0 where
  pub link : String
  pub target : String

pub record Service : Type 0 where
  pub name : String
  pub phase : Phase
  pub bins : List String
  pub sbins : List String
  pub units : List String
  pub user_units : List String
  pub enable : List (Target × String)
  pub config_trees : List String
  pub config_files : List String
  pub dirs : List String
  pub symlinks : List Symlink
  pub users : List User
  pub groups : List Group
  pub custom : List CustomOp

abbrev pub empty : Service
empty = record {
  name = "";
  phase = Phase.services;
  bins = [];
  sbins = [];
  units = [];
  user_units = [];
  enable = [];
  config_trees = [];
  config_files = [];
  dirs = [];
  symlinks = [];
  users = [];
  groups = [];
  custom = [];
}

-- `if !names.is_empty() { ops.push(op) }`, before what is pushed later.
abbrev pub push_unless_empty : List String → Op → List Op → List Op
push_unless_empty names op later = if not (is_empty names) then op ∷ later else later

abbrev pub op_of_enable : Target × String → Op
op_of_enable (target, unit) = Op.enable unit target

abbrev pub op_of_symlink : Symlink → Op
op_of_symlink s = Op.symlink s.link s.target

abbrev pub op_of_group : Group → Op
op_of_group g = Op.group g.name g.gid

abbrev pub op_of_user : User → Op
op_of_user u = Op.user u.name u.uid u.gid u.home u.shell

-- The pushes of `Service::ops`, in its order.
unfoldable pub ops : Service → List Op
ops s =
    map Op.dir s.dirs
    ++ push_unless_empty s.bins (Op.bins s.bins Dest.bin) (
        push_unless_empty s.sbins (Op.bins s.sbins Dest.sbin) (
          map Op.copy_tree s.config_trees
          ++ (map Op.copy_file s.config_files
              ++ (map op_of_symlink s.symlinks
                  ++ push_unless_empty s.units (Op.units s.units) (
                      push_unless_empty s.user_units (Op.user_units s.user_units) (
                        map op_of_enable s.enable
                        ++ (map Op.custom s.custom
                            ++ (map op_of_group s.groups ++ map op_of_user s.users))))))))

-- `impl Installable for Service`
instance unfoldable pub service_installable : Installable Service
unfolding ops
service_installable = record { name = λ s. s.name; phase = λ s. s.phase; ops = ops }
