-- ===== src/Durable/Examples.antt =====
-- The loop on a new run.
use agent_fault_lab.Prelude.{ℕ, ◌≡◌, some}
use agent_fault_lab.Exceptions.{Result}
use agent_fault_lab.Float.Seconds.{seconds}
use agent_fault_lab.Durable.{Session, drive}
use agent_fault_lab.Durable.Kept.{configuration, Holds}
use agent_fault_lab.Durable.Loop.{HasResult, drive-Holds}
use agent_fault_lab.Durable.Sample.{first, opened, platform, opened-IsHeld, platform-IsReliable}

drive-Holds_example :
    (p : Result (Unit {0}) × Session ℕ ℕ) × (drive seconds platform 20 opened ≡ some p)
    × Holds seconds platform (configuration first) (HasResult seconds platform) p
drive-Holds_example =
    drive-Holds seconds platform (configuration first) opened platform-IsReliable opened-IsHeld
