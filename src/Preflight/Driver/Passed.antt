-- ===== src/Preflight/Driver/Passed.antt =====
-- src/preflight/mod.rs: when a strict preflight lets a build go on.
use leviso.Base.{
  String, ◌<>◌, List, [], ◌∷◌, ◌++◌, ◌≡◌, ◌↔◌, refl, true, false, ◌||◌, Option, any, map, All,
  arith, sym, ◌∙◌, ap, Bool, not,
}
use leviso.Error.{Result, ok, err, Error}
use leviso.Text.{Text}
use leviso.Fs.Path.{FilePath, join}
use leviso.Fs.State.{Fs}
use leviso.Fs.Ops.{exists, is_some}
use leviso.Preflight.{CheckResult, all_passed, PreflightReport}
use leviso.Preflight.HostTools.{check_host_tools, required_tools}
use leviso.Preflight.HostTools.Required.{is_failed, any-append, check_host_tools-all_passed}
use leviso.Preflight.Environment.{check_build_environment, check_output}
use leviso.Preflight.Dependencies.{
  Dependencies, check_dependencies, check_rocky, check_cargo_tool, check_recipe, with_recipe,
  check_linux,
}
use leviso.Preflight.Driver.{run_preflight, run_preflight_or_fail, or_fail, with_environment}
use leviso.Preflight.Dependencies.Measured.{IsRocky, rocky-IsRocky, IsRocky-rocky}
use leviso.Preflight.Dependencies.RecipeProgram.{
  is_passed, IsRecipe, IsRecipe-check_recipe, check_recipe-IsRecipe,
}
use leviso.Preflight.Environment.Ready.{
  IsUsable, check_build_environment-all_passed, IsCreatable, is_good,
}
use leviso.Preflight.Validators.{validate_kconfig, validate_init_script}

module _ (deps : Dependencies) (base_dir : FilePath) (fs : Fs) where
  -- A tool is installed, or there is a recipe that builds it.
  abbrev pub IsProvided : String → Type 0
  IsProvided tool =
      (exists fs (join (join (deps.output_dir base_dir) "staging/usr/bin") tool)
        || exists fs (join base_dir ("deps/" <> tool <> ".rhai")))
      ≡ true

  check_cargo_tool-failed :
      (tool : String)
      → (is_failed (check_cargo_tool deps base_dir fs tool) ≡ false) ↔ IsProvided tool
  unfolding check_cargo_tool
  check_cargo_tool-failed tool = ground arith

  every_tool :
      (tools : List String)
      → (any is_failed (map (check_cargo_tool deps base_dir fs) tools) ≡ false)
        ↔ All IsProvided tools
  every_tool [] = ground arith
  every_tool (tool ∷ tools) = ground (arith, check_cargo_tool-failed tool, every_tool tools)

  linux_never_fails : is_failed (check_linux deps base_dir fs) ≡ false
  linux_never_fails = ground arith

  -- What the dependencies are asked for: an image of Rocky Linux that is extracted is not cut short;
  -- every tool is installed or has a recipe; and the recipe program runs or can be built.
  pub record Provided : Type 0 where
    pub rocky : IsRocky deps base_dir fs
    pub cargo_tools : All IsProvided deps.levitate_cargo_tools
    pub recipe : IsRecipe deps base_dir fs

  abbrev before_recipe : List CheckResult
  before_recipe =
      check_linux deps base_dir fs
      ∷ check_rocky deps base_dir fs
      ∷ map (check_cargo_tool deps base_dir fs) deps.levitate_cargo_tools

  results_pass :
      (recipe : CheckResult)
      → (any is_failed (before_recipe ++ (recipe ∷ [])) ≡ false) ↔ (
          (is_failed (check_rocky deps base_dir fs) ≡ false)
          × All IsProvided deps.levitate_cargo_tools
          × (is_failed recipe ≡ false))
  results_pass recipe = ground (
    arith,
    linux_never_fails,
    every_tool deps.levitate_cargo_tools,
    any-append (map (check_cargo_tool deps base_dir fs) deps.levitate_cargo_tools) (recipe ∷ []),
  )

  recipe-IsRecipe :
      (r : CheckResult)
      → check_recipe deps base_dir fs ≡ ok r
      → (is_failed r ≡ false) ↔ IsRecipe deps base_dir fs
  recipe-IsRecipe r e = (
    λ h. check_recipe-IsRecipe deps base_dir fs (ap is_passed e ∙ ap not h),
    λ p. negated (is_failed r) (sym (ap is_passed e) ∙ IsRecipe-check_recipe deps base_dir fs p),
  )
    where
      negated : (b : Bool) → not b ≡ true → b ≡ false
      negated true h = absurd cc
      negated false h = refl

  Provided-results :
      (recipe : CheckResult)
      → check_recipe deps base_dir fs ≡ ok recipe
      → (any is_failed (before_recipe ++ (recipe ∷ [])) ≡ false) ↔ Provided
  Provided-results recipe e = (
    λ h.
        let (r, t, u) = (results_pass recipe).0 h in
        record {
          rocky = rocky-IsRocky deps base_dir fs r;
          cargo_tools = t;
          recipe = (recipe-IsRecipe recipe e).0 u;
        },
    λ p. (results_pass recipe).1 (
      IsRocky-rocky deps base_dir fs p.rocky,
      p.cargo_tools,
      (recipe-IsRecipe recipe e).1 p.recipe,
    ),
  )

  -- Where the check of the recipe program panics, the program does not pass.
  no_result : (e : Error) → check_recipe deps base_dir fs ≡ err e → IsRecipe deps base_dir fs → ⊥
  no_result e p r = let k = sym (ap is_passed p) ∙ IsRecipe-check_recipe deps base_dir fs r in cc

all_passed-append :
    (xs bs cs : List CheckResult)
    → (all_passed (record { checks = xs ++ (bs ++ cs) }) ≡ true) ↔ (
        (all_passed (record { checks = xs }) ≡ true)
        × (any is_failed bs ≡ false)
        × (all_passed (record { checks = cs }) ≡ true))
unfolding all_passed
all_passed-append xs bs cs = ground (arith, any-append xs (bs ++ cs), any-append bs cs)

module _ (deps : Dependencies) (boot : String) (df : Option Text) (base_dir : FilePath)
    (fs : Fs) where
  -- The disk that the checks of the environment leave
  abbrev pub left : Fs
  left = (check_build_environment (deps.output_dir base_dir) base_dir df fs).1

  -- What a strict preflight asks for.
  pub record Ready : Type 0 where
    pub tools : All (λ t. is_some (deps.which t.0) ≡ true) required_tools
    pub boot_stub : exists fs (join [] boot) ≡ true
    pub provided : Provided deps base_dir fs
    pub output_dir : IsUsable (deps.output_dir base_dir) fs
    pub downloads :
        IsCreatable (join base_dir "downloads") (check_output (deps.output_dir base_dir) fs).1
    pub kconfig : is_good (validate_kconfig (join base_dir "kconfig") left) ≡ true
    pub init :
        is_good (validate_init_script (join base_dir "profile/init_tiny.template") left) ≡ true

  abbrev environment_checks : List CheckResult
  environment_checks = (check_build_environment (deps.output_dir base_dir) base_dir df fs).0

  passes :
      (report : PreflightReport) (t : Fs)
      → ((or_fail deps boot df base_dir (ok report, t)).0 ≡ ok tt) ↔ (all_passed report ≡ true)
  passes report t = ground arith

  from_recipe :
      (r : Result CheckResult)
      → check_recipe deps base_dir fs ≡ r
      → ((or_fail deps boot df base_dir (
            with_environment deps boot df base_dir
              (check_host_tools deps.which boot fs)
              (with_recipe deps (before_recipe deps base_dir fs) r)
              fs)).0
          ≡ ok tt)
        ↔ Ready
  from_recipe (err e) p = (λ h. cc, λ q. absurd (no_result deps base_dir fs e p q.provided.recipe))
  from_recipe (ok r) p =
      let results = before_recipe deps base_dir fs ++ (r ∷ []) in
      let host_tools = check_host_tools deps.which boot fs in
      let report : PreflightReport = record {
        checks = host_tools ++ (results ++ environment_checks);
      } in
      let t = (check_build_environment (deps.output_dir base_dir) base_dir df fs).1 in
      let parts = all_passed-append host_tools results environment_checks in
      let found = check_host_tools-all_passed deps.which boot fs in
      let provided = Provided-results deps base_dir fs r p in
      let env = check_build_environment-all_passed (deps.output_dir base_dir) base_dir df fs in
      (
        λ h.
            let (a, b, c) = parts.0 ((passes report t).0 h) in
            let (x, y) = found.0 a in
            let (o, d, k, i) = env.0 c in
            record {
              tools = x;
              boot_stub = y;
              provided = provided.0 b;
              output_dir = o;
              downloads = d;
              kconfig = k;
              init = i;
            },
        λ q. (passes report t).1 (
            parts.1 (
              found.1 (q.tools, q.boot_stub),
              provided.1 q.provided,
              env.1 (q.output_dir, q.downloads, q.kconfig, q.init),
            )),
      )

  -- A strict preflight returns `ok` exactly if: the required tools and the boot stub are on the host;
  -- an image of Rocky Linux that is extracted has seven gigabytes at least (one that is not there or
  -- not extracted is not asked for); each tool is installed or has a recipe; the recipe program is
  -- found, executable and prints a version or a help, or its source is there; the output directory
  -- is usable and the downloads directory there or creatable; and the kernel configuration and the
  -- init script are valid.
  pub run_preflight_or_fail-Ready :
      ((run_preflight_or_fail deps boot df base_dir fs).0 ≡ ok tt) ↔ Ready
  unfolding run_preflight_or_fail run_preflight check_dependencies
  run_preflight_or_fail-Ready = from_recipe (check_recipe deps base_dir fs) refl
