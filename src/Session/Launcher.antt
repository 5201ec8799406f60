-- ===== src/Session/Launcher.antt =====
-- src/core/launcher.c: start the normal system, and the recovery image if that fails. The callbacks
-- and the world that they act on are parameters; an image is its address.
pub mod Outcomes
use pbns.Common.{
  ℕ, Bool, true, false, not, ◌&&◌, ◌||◌, Option, none, some, ltb, ◌==◌, if◌then◌else◌, length,
  Status, ok, err, Error, argument, format, state,
}
use pbns.Common.Memory.{View, Pointer, null, given, null_view}

-- `PBNS_LAUNCHER_MAX_DEVICE_PATH_SIZE`
abbrev pub max_device_path_size : ℕ
max_device_path_size = 4096

-- `pbns_launcher_target`
pub data Target : Type 0 where
  normal recovery : Target

-- `pbns_launcher_stage`
pub data Stage : Type 0 where
  no_stage read_stage validate_stage : Stage
  load_normal start_normal load_recovery start_recovery : Stage

-- `pbns_launcher_outcome`
pub data LaunchOutcome : Type 0 where
  not_launched normal_transferred recovery_transferred : LaunchOutcome

-- `pbns_launcher_config`
pub record Config : Type 0 where
  pub normal_boot_option : ℕ
  pub recovery_device_path : View
  pub self_reference : Bool

-- `pbns_launcher_result`
pub record Result : Type 0 where
  pub outcome : LaunchOutcome
  pub stage : Stage
  pub original_stage : Stage
  pub original_platform_status : ℕ
  pub recovery_platform_status : ℕ

abbrev pub first_result : Result
first_result = record {
  outcome = not_launched;
  stage = read_stage;
  original_stage = no_stage;
  original_platform_status = 0;
  recovery_platform_status = 0;
}

-- What `load` returns: its status, the image and the platform's status.
pub record Loaded (W : Type 0) : Type 0 where
  pub status : Status
  pub image : ℕ
  pub platform_status : ℕ
  pub world : W

-- What `start` returns.
pub record Started (W : Type 0) : Type 0 where
  pub status : Status
  pub returned : Bool
  pub platform_status : ℕ
  pub world : W

-- `pbns_launcher_ops`
pub record LauncherOps (W : Type 0) : Type 0 where
  pub read_config : W → Status × Config × ℕ × W
  pub load : W → Target → Config → Loaded W
  pub start : W → Target → ℕ → Started W
  pub record_failure : W → Stage → ℕ → W
  pub unload : W → Target → ℕ → W

unfoldable pub config_valid : Config → Bool
config_valid config =
    let path = config.recovery_device_path in
    if config.self_reference
      || path.ptr == 0
      || length path.bytes == 0
      || ltb max_device_path_size (length path.bytes)
    then false
    else true

-- How the attempt at one target has ended. A failure has a status and the platform's.
pub data Attempt (W : Type 0) : Type 0 where
  transferred : W → Attempt W
  not_loaded : Error → ℕ → W → Attempt W
  not_started : Error → ℕ → W → Attempt W

module _ {W : Type 0} (ops : LauncherOps W) (unexpected : ℕ) where
  -- The start of an image that was loaded; one that returns has failed, with whatever status.
  unfoldable pub start_image : Target → ℕ → W → Attempt W
  start_image target image w =
      let s = ops.start w target image in
      let after = ops.unload s.world target image in
      elim s.status [
        | ok ↦ (if not s.returned then transferred s.world else not_started state unexpected after)
        | err e ↦ not_started e s.platform_status after
      ]

  -- The load of an image and its start, the same code for both targets.
  unfoldable pub attempt : Target → Config → W → Attempt W
  attempt target config w =
      let l = ops.load w target config in
      let started = start_image target l.image l.world in
      elim l.status [
        | ok ↦ (if l.image == 0 then not_loaded state unexpected l.world else started)
        | err e ↦
            (if l.image == 0
              then not_loaded e l.platform_status l.world
              else not_loaded e l.platform_status (ops.unload l.world target l.image))
      ]

  -- The recovery target, after a failure of the normal one that has been recorded.
  unfoldable pub run_recovery : Config → Error → Stage → ℕ → W → Status × Result × W
  run_recovery config original stage platform_status w =
      let recorded = ops.record_failure w stage platform_status in
      let failed = record first_result {
        original_stage = stage;
        original_platform_status = platform_status;
      } in
      elim (attempt recovery config recorded) [
        | transferred u ↦
            (ok, record failed { outcome = recovery_transferred; stage = no_stage }, u)
        | not_loaded e p u ↦
            (err original, record failed { stage = load_recovery; recovery_platform_status = p }, u)
        | not_started e p u ↦ (
          err original,
          record failed { stage = start_recovery; recovery_platform_status = p },
          u,
        )
      ]

  -- Both targets, with a configuration that is valid.
  unfoldable pub run_targets : Config → W → Status × Result × W
  run_targets config w = elim (attempt normal config w) [
    | transferred u ↦
        (ok, record first_result { outcome = normal_transferred; stage = no_stage }, u)
    | not_loaded e p u ↦ run_recovery config e load_normal p u
    | not_started e p u ↦ run_recovery config e start_normal p u
  ]

  unfoldable pub run_given : W → Status × Result × W
  run_given w =
      let (status, config, platform_status, u) = ops.read_config w in
      let launched = run_targets config u in
      elim status [
        | err e ↦ (
          err e,
          record first_result {
            original_stage = read_stage;
            original_platform_status = platform_status;
          },
          u,
        )
        | ok ↦
            (if not (config_valid config)
              then (
                err (if config.self_reference then state else format),
                record first_result { stage = validate_stage; original_stage = validate_stage },
                u,
              )
              else launched)
      ]

-- `pbns_launcher_run`; `none` is `ops` at NULL or with an operation at NULL, and the pointers are
-- `context` and `result`. `none` is `ARGUMENT`, before anything is done.
unfoldable pub run :
    {W : Type 0} → Option (LauncherOps W) → Pointer → ℕ → Pointer → W → Option (Status × Result × W)
run (some ops) given unexpected given w = some (run_given ops unexpected w)
run ops context unexpected result w = none
