-- ===== src/Config/Load/Places.antt =====
-- internal/config/load.go: where the files and directories of the program are. What the system says
-- of itself is the record `Machine`: os.Getwd, UserConfigDir and UserHomeDir, which may fail, whether
-- it is darwin, os.LookupEnv, and whether os.Stat succeeds. filepath.Join of three names is two of
-- two.
use rillan.Base.{not, if◌then◌else◌, Bool, Option, none, some, is_empty, Str, lit, trim_space}
use rillan.Config.Load.{Paths}

pub record Machine : Type 0 where
  pub cwd : Option Str
  pub config_dir : Option Str
  pub home : Option Str
  pub is_darwin : Bool
  pub lookup : Str → Option Str
  pub exists : Str → Bool

module _ (paths : Paths) (machine : Machine) where
  unfoldable pub default_config_path : Str
  default_config_path = elim machine.config_dir [
    | none ↦ lit "rillan.yaml"
    | some base ↦ paths.join (paths.join base (lit "rillan")) (lit "config.yaml")
  ]

  -- A file in the directory `dir` of a project, which is the working directory for a blank root.
  unfoldable pub project_config_path : (dir root : Str) → Str
  project_config_path dir root =
      let beneath = λ (base : Str).
        paths.join (paths.join (elim (paths.abs base) [ none ↦ base | some full ↦ full ]) dir)
          (lit "project.yaml") in
      if not (is_empty (trim_space root))
      then beneath (trim_space root)
      else elim machine.cwd [ none ↦ paths.join dir (lit "project.yaml") | some cwd ↦ beneath cwd ]

  abbrev pub default_project_config_path : Str → Str
  default_project_config_path root = project_config_path (lit ".rillan") root

  abbrev pub legacy_project_config_path : Str → Str
  legacy_project_config_path root = project_config_path (lit ".sidekick") root

  -- The first of two files that exists, and else the first.
  abbrev pub first_existing : (preferred legacy : Str) → Str
  first_existing preferred legacy =
      if machine.exists preferred
      then preferred
      else if machine.exists legacy
      then legacy
      else preferred

  unfoldable pub resolve_project_config_path : Str → Str
  unfolding project_config_path
  resolve_project_config_path root =
      first_existing (default_project_config_path root) (legacy_project_config_path root)

  unfoldable pub system_config_path : Str → Str
  system_config_path dir = elim machine.home [
    | none ↦ paths.join dir (lit "system.yaml")
    | some home ↦ paths.join (paths.join home dir) (lit "system.yaml")
  ]

  unfoldable pub resolve_system_config_path : Str
  unfolding system_config_path
  resolve_system_config_path =
      first_existing (system_config_path (lit ".rillan")) (system_config_path (lit ".sidekick"))

  -- A directory of the XDG variables, if it is set and not empty.
  abbrev xdg : (key fallback : Str) → Str
  xdg key fallback = elim (machine.lookup key) [
    | none ↦ fallback
    | some base ↦ if is_empty base then fallback else paths.join base (lit "rillan")
  ]

  unfoldable pub default_data_dir : Str
  default_data_dir = elim machine.home [
    | none ↦ paths.join (lit ".") (lit ".rillan")
    | some home ↦
        if machine.is_darwin
        then paths.join
            (paths.join (paths.join (paths.join home (lit "Library")) (lit "Application Support"))
              (lit "rillan"))
            (lit "data")
        else xdg (lit "XDG_DATA_HOME")
            (paths.join (paths.join (paths.join home (lit ".local")) (lit "share")) (lit "rillan"))
  ]
