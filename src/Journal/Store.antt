-- ===== src/Journal/Store.antt =====
-- journal.py: `Journal` and `JournalRecorder`. The file holds one checkpoint and the events in the
-- order of their primary key, as records: their JSON text and its parsing are not modelled. The times
-- of an event are left out, and the JSONL projection, which nothing reads back.
pub mod Synced
use agent_fault_lab.Prelude.{
  ℕ, suc, ◌+◌, String, Bool, true, false, not, ◌||◌, Option, none, some, List, [], ◌∷◌, ◌++◌, ◌==◌,
  eqb, ltb, length, any, if◌then◌else◌,
}
use agent_fault_lab.Exceptions.{
  value_error, sqlite_error, Result, ok, raised, ◌>>=◌, ◌>>◌, raise_if, Action,
}
use agent_fault_lab.Float.{Float}
use agent_fault_lab.Json.{Json}
use agent_fault_lab.Model.{ToolCall, ModelTurn, RunResult}
use agent_fault_lab.Evaluation.{TaskOutcome, ClaimSupport}
use agent_fault_lab.Contracts.{ErrorCode}
use agent_fault_lab.Exceptions.{ContractStage}
use agent_fault_lab.Agent.{ToolDelivery}
use agent_fault_lab.Execution.{WorkerFault}
use agent_fault_lab.Journal.{RunState, revalidate}

-- The kinds of events, with what the code adds to them; the identifiers and the exit codes of
-- processes are left out.
pub data EventKind (F : Type 0) : Type 0 where
  session_started : Bool → EventKind F
  execution_checkpoint : EventKind F
  model_requested : ℕ → EventKind F
  model_returned : ℕ → ModelTurn → EventKind F
  model_ready : EventKind F
  tool_requested : ToolCall → EventKind F
  tool_returned : ToolDelivery → EventKind F
  run_stopped : RunResult → EventKind F
  evaluation_completed : TaskOutcome → ClaimSupport → EventKind F
  artifacts_finalized : EventKind F
  operation_started : EventKind F
  operation_failed : ErrorCode → EventKind F
  interrupted_reservation_charged : F → EventKind F
  backoff_started : F → EventKind F
  attempt_started : F → WorkerFault → EventKind F
  response_captured : String → EventKind F
  contract_rejected : ContractStage → EventKind F
  attempt_succeeded : EventKind F
  attempt_failed : ErrorCode → EventKind F
  retry_scheduled : ErrorCode → EventKind F
  worker_dispatched : EventKind F
  deadline_expired : F → EventKind F
  observation_wait_started : EventKind F
  late_response : String → EventKind F
  worker_reply_missing : EventKind F
  cancellation_requested : EventKind F
  kill_requested : EventKind F
  worker_exit_confirmed : EventKind F
  worker_evidence : Json → EventKind F
  worker_evidence_gap : EventKind F

-- `call_id`, `operation_id` and `attempt_id`
pub record Identifiers : Type 0 where
  pub call_id : Option String
  pub operation_id : Option String
  pub attempt_id : Option String

pub record JournalEvent (F : Type 0) : Type 0 where
  pub run_id : String
  pub session_id : String
  pub sequence : ℕ
  pub kind : EventKind F
  pub identifiers : Identifiers

pub record JournalFile (F : Type 0) : Type 0 where
  pub checkpoint : RunState F
  pub stored : List (JournalEvent F)

-- `Journal` with the `JournalRecorder` over it
pub record Journal (F : Type 0) : Type 0 where
  pub state : RunState F
  pub file : JournalFile F
  pub session_id : String
  pub records : List (JournalEvent F)

abbrev pub no_identifiers : Identifiers
no_identifiers = record { call_id = none; operation_id = none; attempt_id = none }

abbrev pub has_sequence : {F : Type 0} → ℕ → List (JournalEvent F) → Bool
has_sequence n rows = any (λ e. eqb e.sequence n) rows

-- a row at the place of its key
abbrev pub insert_event :
    {F : Type 0} → JournalEvent F → List (JournalEvent F) → List (JournalEvent F)
insert_event e [] = e ∷ []
insert_event e (r ∷ rows) =
    let rest = insert_event e rows in if ltb e.sequence r.sequence then e ∷ r ∷ rows else r ∷ rest

-- the sequence numbers from `n` on
abbrev pub is_numbered : {F : Type 0} → ℕ → List (JournalEvent F) → Bool
is_numbered n [] = true
is_numbered n (e ∷ rows) =
    let rest = is_numbered (suc n) rows in if eqb e.sequence n then rest else false

unfoldable pub read_events : {F : Type 0} → List (JournalEvent F) → Result (List (JournalEvent F))
read_events rows = do
  raise_if (not (is_numbered 1 rows))
      (value_error "Journal event sequence is incomplete or inconsistent")
  ok rows

module _ {F : Type 0} (float : Float F) where
  abbrev pub checked_state : Option (RunState F) → Result (Option (RunState F))
  checked_state none = ok none
  checked_state (some s) = do s' ← revalidate float s; ok (some s')

  abbrev pub or_else : Option (RunState F) → RunState F → RunState F
  or_else none s = s
  or_else (some s') s = s'

  abbrev pub stored_with : JournalEvent F → Journal F → Option (RunState F) → Journal F
  stored_with e j o = record j {
    state = or_else o j.state;
    file = record {
      checkpoint = or_else o j.file.checkpoint;
      stored = insert_event e j.file.stored;
    };
  }

  abbrev pub commit_checked :
      JournalEvent F → Result (Option (RunState F)) → Action (Journal F) (Unit {0})
  commit_checked e (raised x) j = (raised x, j)
  commit_checked e (ok o) j =
      if has_sequence e.sequence j.file.stored
      then (raised (sqlite_error "UNIQUE constraint failed"), j)
      else (ok tt, stored_with e j o)

  -- `Journal.commit`: the event and the checkpoint in one transaction
  unfoldable pub commit : JournalEvent F → Option (RunState F) → Action (Journal F) (Unit {0})
  commit e state j = commit_checked e (checked_state state) j

  abbrev pub appended : JournalEvent F → Result (Unit {0}) → Action (Journal F) (Unit {0})
  appended e (raised x) j = (raised x, j)
  appended e (ok done) j = (ok tt, record j { records = j.records ++ e ∷ [] })

  abbrev pub event_of : EventKind F → Identifiers → Journal F → JournalEvent F
  event_of kind identifiers j = record {
    run_id = j.state.run_id;
    session_id = j.session_id;
    sequence = length j.records + 1;
    kind = kind;
    identifiers = identifiers;
  }

  -- `JournalRecorder.transition`; `emit` is a transition without a state.
  unfoldable pub transition :
      Option (RunState F) → EventKind F → Identifiers → Action (Journal F) (Unit {0})
  unfolding commit
  transition state kind identifiers j =
      let e = event_of kind identifiers j in let (r, j') = commit e state j in appended e r j'

  -- `Journal(directory)` on a file that is there, and the recorder of a new session
  unfoldable pub open_journal : String → JournalFile F → Result (Journal F)
  unfolding read_events
  open_journal session_id file = do
    state ← revalidate float file.checkpoint
    records ← read_events file.stored
    raise_if (any (λ (e : JournalEvent F). not (e.run_id == state.run_id)) records)
        (value_error "Journal events belong to a different run")
    ok (record { state = state; file = file; session_id = session_id; records = records })

  -- `Journal(directory, initial=state)`, where no journal is there, and its recorder
  unfoldable pub create_journal : String → RunState F → Result (Journal F)
  create_journal session_id initial = do
    state ← revalidate float initial
    ok (record {
      state = state;
      file = record { checkpoint = initial; stored = [] };
      session_id = session_id;
      records = [];
    })
