-- ===== src/Journal/Examples.antt =====
-- The journal of a new run and its first event.
use agent_fault_lab.Prelude.{◌≡◌, false, none}
use agent_fault_lab.Exceptions.{ok}
use agent_fault_lab.Float.Seconds.{seconds}
use agent_fault_lab.Journal.Store.{session_started, no_identifiers, transition}
use agent_fault_lab.Journal.Store.Synced.{IsSynced, recorded, transition-recorded}
use agent_fault_lab.Durable.Sample.{journal, journal-IsSynced}

transition-recorded_example :
    (transition seconds none (session_started false) no_identifiers journal
      ≡ (ok tt, recorded seconds none (session_started false) no_identifiers journal))
    × IsSynced (recorded seconds none (session_started false) no_identifiers journal)
transition-recorded_example =
    transition-recorded seconds none (session_started false) no_identifiers journal journal-IsSynced
      tt
