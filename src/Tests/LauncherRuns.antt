-- ===== src/Tests/LauncherRuns.antt =====
-- src/core/launcher.c on a platform whose normal system returns and whose recovery image runs.
use pbns.Common.{ℕ, ◌+◌, ◌-◌, true, false, ok, replicate}
use pbns.Session.Launcher.{LauncherOps, Config, normal, recovery}

abbrev config : Config
config = record {
  normal_boot_option = 1;
  recovery_device_path = record { ptr = 100; bytes = replicate 4 1 };
  self_reference = false;
}

-- The world is the number of images in memory.
abbrev ops : LauncherOps ℕ
ops = record {
  read_config = λ w. (ok, config, 0, w);
  load = λ w t c. record { status = ok; image = 1; platform_status = 0; world = w + 1 };
  start = λ w t i. record {
    status = ok;
    returned = elim t [ normal ↦ true | recovery ↦ false ];
    platform_status = 0;
    world = w;
  };
  record_failure = λ w s p. w;
  unload = λ w t i. w - 1;
}
