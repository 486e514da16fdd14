-- ===== src/Firecracker/Create/Outcome.antt =====
-- `CreateVM` and `StartVM` as a whole: where they fail, and what a VM that runs has been given.
use stockyard.Base.{ℕ, suc, List, [], ◌∷◌}
use stockyard.Firecracker.Host.{Call, start, zfs}

-- How many processes were started and how many `zfs` commands were run.
unfoldable pub commits : List Call → ℕ
commits [] = 0
commits (start _ _ ∷ h) = suc (commits h)
commits (zfs _ ∷ h) = suc (commits h)
commits (_ ∷ h) = commits h
