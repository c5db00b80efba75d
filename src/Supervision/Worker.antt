-- ===== src/Supervision/Worker.antt =====
-- supervision.py: `Supervisor.dispatch` and `stop_worker`, one worker process from its start to the
-- confirmation of its exit.
use agent_fault_lab.Prelude.{
  String, Bool, not, ◌||◌, Option, none, some, List, [], ◌∷◌, ◌==◌, if◌then◌else◌,
}
use agent_fault_lab.Exceptions.{assertion_error, Result, ok, raised, Action, and_then}
use agent_fault_lab.Float.{Float, max}
use agent_fault_lab.Json.{Json}
use agent_fault_lab.Model.{ToolCall}
use agent_fault_lab.Contracts.{ErrorCode, delivery_error, deadline_exceeded}
use agent_fault_lab.Execution.{observe, same_policy, Operation, WorkerFault}
use agent_fault_lab.Journal.Store.{
  Identifiers, worker_dispatched, deadline_expired, observation_wait_started, late_response,
  worker_reply_missing, cancellation_requested, kill_requested, worker_exit_confirmed,
  worker_evidence, worker_evidence_gap,
}
use agent_fault_lab.Durable.{Session, Platform, emit}
use agent_fault_lab.Supervision.{Reply, timed_out, exited, Workers, note}

module _ {F W : Type 0} (float : Float F) (platform : Platform F W) (workers : Workers F W) where
  -- `try: … finally: …`
  abbrev pub cleaned :
      {A : Type 0} → Result A → Result (Unit {0}) × Session F W → Result A × Session F W
  cleaned r (ok done, s) = (r, s)
  cleaned r (raised e, s) = (raised e, s)

  abbrev pub try_finally :
      {A : Type 0}
      → Action (Session F W) A
      → Action (Session F W) (Unit {0})
      → Action (Session F W) A
  try_finally body cleanup s = cleaned (body s).0 (cleanup (body s).1)

  abbrev pub confirmed : Action (Session F W) (Unit {0})
  confirmed s =
      and_then (note float platform workers worker_exit_confirmed)
        (λ noted t. (ok tt, record t { world = workers.release t.world })) s

  -- `communicate()`, which waits for the exit
  abbrev pub awaited : Action (Session F W) (Unit {0})
  awaited s = confirmed (record s { world = (workers.communicate none s.world).1 })

  abbrev pub killed : Reply → Action (Session F W) (Unit {0})
  killed (exited success raw) s = confirmed s
  killed timed_out s =
      and_then (note float platform workers kill_requested)
        (λ noted t. awaited (record t { world = workers.kill t.world })) s

  abbrev pub terminated : Action (Session F W) (Unit {0})
  terminated s =
      let grace = s.journal.state.execution_limits.grace_seconds in
      let (reply, w) = workers.communicate (some grace) (workers.terminate s.world) in
      killed reply (record s { world = w })

  -- a worker that there is
  abbrev pub stop_owned : Action (Session F W) (Unit {0})
  stop_owned s =
      let (running, w) = workers.poll s.world in
      let t : Session F W = record s { world = w } in
      if running
      then and_then (note float platform workers cancellation_requested) (λ noted. terminated) t
      else awaited t

  -- `stop_worker`
  unfoldable pub stop_worker : Action (Session F W) (Unit {0})
  unfolding note
  stop_worker s = if workers.owned s.world then stop_owned s else (ok tt, s)

  abbrev pub attempt_identifiers : Operation F → Identifiers
  attempt_identifiers op = record {
    call_id = some op.call_id;
    operation_id = some op.operation_id;
    attempt_id = some (workers.attempt_id op.operation_id op.attempts);
  }

  -- the valid lines, up to the first that is not
  abbrev pub import_evidence : Operation F → List (Option Json) → Action (Session F W) (Unit {0})
  import_evidence op [] s = (ok tt, s)
  import_evidence op (none ∷ lines) s = note float platform workers worker_evidence_gap s
  import_evidence op (some event ∷ lines) s =
      and_then (emit float platform (worker_evidence event) (attempt_identifiers op))
        (λ emitted. import_evidence op lines) s

  abbrev pub clean_up : Operation F → Action (Session F W) (Unit {0})
  clean_up op = and_then stop_worker (λ stopped s. import_evidence op (workers.evidence s.world) s)

  -- the reply of a process that exited
  abbrev pub finished_reply :
      Bool → String → Action (Session F W) (Option String × Option ErrorCode)
  finished_reply success raw s =
      if not success || (raw == "")
      then and_then (note float platform workers worker_reply_missing)
          (λ noted t. (ok (none, some delivery_error), t)) s
      else (ok (some raw, none), s)

  abbrev pub late_reply : Reply → Action (Session F W) (Option String × Option ErrorCode)
  late_reply timed_out s = (ok (none, some deadline_exceeded), s)
  late_reply (exited success raw) s =
      and_then (note float platform workers (late_response raw))
        (λ noted. finished_reply success raw) s

  -- the policy "observe" waits on, for what remains
  abbrev pub observed : F → F → Action (Session F W) (Option String × Option ErrorCode)
  observed start remaining s =
      let (now, w) = workers.clock s.world in
      let grace = s.journal.state.execution_limits.grace_seconds in
      let available =
        max float float.zero (float.sub (float.sub remaining (float.sub now start)) grace) in
      let (reply, w') = workers.communicate (some available) w in
      late_reply reply (record s { world = w' })

  abbrev pub expired : F → F → Action (Session F W) (Option String × Option ErrorCode)
  expired start remaining s =
      if same_policy s.journal.state.config.policy observe
      then and_then (note float platform workers observation_wait_started)
          (λ noted. observed start remaining) s
      else (ok (none, some deadline_exceeded), s)

  abbrev pub first_reply :
      F → F → F → Reply → Action (Session F W) (Option String × Option ErrorCode)
  first_reply start timeout remaining timed_out s =
      and_then (note float platform workers (deadline_expired timeout))
        (λ noted. expired start remaining) s
  first_reply start timeout remaining (exited success raw) s = finished_reply success raw s

  abbrev pub communicated : F → F → F → Action (Session F W) (Option String × Option ErrorCode)
  communicated start timeout remaining s =
      let (reply, w) = workers.communicate (some timeout) s.world in
      first_reply start timeout remaining reply (record s { world = w })

  -- `subprocess.Popen`, which may raise
  abbrev pub spawned : Operation F → ToolCall → WorkerFault → Action (Session F W) (Unit {0})
  spawned op call fault s =
      let (r, w) = workers.spawn op call fault s.world in (r, record s { world = w })

  abbrev pub dispatch_for :
      ToolCall
      → WorkerFault
      → F
      → F
      → Option (Operation F)
      → Action (Session F W) (Option String × Option ErrorCode)
  dispatch_for call fault timeout remaining none s = (raised assertion_error, s)
  dispatch_for call fault timeout remaining (some op) s =
      let (start, w) = workers.clock s.world in
      and_then (spawned op call fault)
        (λ begun.
          and_then (note float platform workers worker_dispatched)
            (λ noted. try_finally (communicated start timeout remaining) (clean_up op)))
        (record s { world = w })

  -- `Supervisor.dispatch`
  unfoldable pub dispatch :
      ToolCall → WorkerFault → F → F → Action (Session F W) (Option String × Option ErrorCode)
  unfolding stop_worker note emit
  dispatch call fault timeout remaining s =
      dispatch_for call fault timeout remaining s.journal.state.execution.active s
