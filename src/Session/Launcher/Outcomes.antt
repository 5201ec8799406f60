-- ===== src/Session/Launcher/Outcomes.antt =====
-- What the launcher has done when it returns.
use pbns.Common.{ℕ, ◌+◌, ◌-◌, ◌≡◌, ◌≢◌, false, ◌⊎◌, Status, ok}
use pbns.Session.Launcher.{
  LauncherOps, Config, Target, normal, recovery, Stage, Result, LaunchOutcome, not_launched,
  normal_transferred, recovery_transferred, Attempt, transferred, not_loaded, not_started,
}

-- What the platform promises of the images that it holds in memory: a load that gives an image adds
-- one, an unload takes one away, and nothing else counts.
pub record CountsImages {W : Type 0} (ops : LauncherOps W) (images : W → ℕ) : Type 0 where
  pub read : (w : W) → images (ops.read_config w).3 ≡ images w
  pub load_none :
      (w : W) (t : Target) (c : Config)
      → (ops.load w t c).image ≡ 0
      → images (ops.load w t c).world ≡ images w
  pub load_some :
      (w : W) (t : Target) (c : Config)
      → (ops.load w t c).image ≢ 0
      → images (ops.load w t c).world ≡ images w + 1
  pub start : (w : W) (t : Target) (i : ℕ) → images (ops.start w t i).world ≡ images w
  pub record_failure : (w : W) (s : Stage) (p : ℕ) → images (ops.record_failure w s p) ≡ images w
  pub unload : (w : W) (t : Target) (i : ℕ) → images (ops.unload w t i) ≡ images w - 1

-- The world that is left when an image of this target was started and has not come back: the start
-- was the last call.
pub record HandedOver {W : Type 0} (ops : LauncherOps W) (t : Target) (u : W) : Type 0 where
  pub image : ℕ
  pub before : W
  pub started : (ops.start before t image).status ≡ ok
  pub away : (ops.start before t image).returned ≡ false
  pub last : u ≡ (ops.start before t image).world

-- What an attempt at a target leaves: the image that was handed over to, or none.
abbrev Left : {W : Type 0} → LauncherOps W → (W → ℕ) → ℕ → Target → Attempt W → Type 0
Left ops images n t (transferred u) = HandedOver ops t u × (images u ≡ n + 1)
Left ops images n t (not_loaded e p u) = images u ≡ n
Left ops images n t (not_started e p u) = images u ≡ n

abbrev pub outcome_of : Target → LaunchOutcome
outcome_of normal = normal_transferred
outcome_of recovery = recovery_transferred

-- What a run leaves.
abbrev pub Released : {W : Type 0} → LauncherOps W → (W → ℕ) → ℕ → Status × Result × W → Type 0
Released ops images n r =
    ((r.0 ≡ ok)
      × (t : Target) × (r.1.outcome ≡ outcome_of t)
      × HandedOver ops t r.2
      × (images r.2 ≡ n + 1))
    ⊎ ((r.0 ≢ ok) × (r.1.outcome ≡ not_launched) × (images r.2 ≡ n))
