-- ===== src/Supervision/Kept/Worker.antt =====
-- The worker's process, from its start to its confirmed exit, changes nothing of a run's state.
use agent_fault_lab.Prelude.{String, Bool, not, ◌||◌, Option, none, some, List, [], ◌∷◌, ◌==◌}
use agent_fault_lab.Exceptions.{Result, ok, raised, Action, and_then}
use agent_fault_lab.Float.{Float, max}
use agent_fault_lab.Json.{Json}
use agent_fault_lab.Model.{ToolCall}
use agent_fault_lab.Contracts.{ErrorCode, delivery_error, deadline_exceeded}
use agent_fault_lab.Execution.{observe, same_policy, Operation, WorkerFault}
use agent_fault_lab.Journal.{RunState}
use agent_fault_lab.Journal.Store.{
  worker_dispatched, deadline_expired, observation_wait_started, late_response,
  worker_reply_missing, cancellation_requested, kill_requested, worker_exit_confirmed,
  worker_evidence, worker_evidence_gap,
}
use agent_fault_lab.Durable.{Session, Platform, emit}
use agent_fault_lab.Durable.Kept.{Configuration}
use agent_fault_lab.Supervision.{Reply, timed_out, exited, Workers, note}
use agent_fault_lab.Supervision.Worker.{
  cleaned, try_finally, awaited, killed, terminated, stop_worker, stop_owned, confirmed, spawned,
  attempt_identifiers, import_evidence, clean_up, finished_reply, late_reply, observed, expired,
  first_reply, communicated, dispatch_for, dispatch,
}
use agent_fault_lab.Supervision.Kept.{
  IsRun, Keeps, and_then-Keeps, if-IsRun, emit-Keeps, note-Keeps,
}

module _ {F W : Type 0} (float : Float F) (c : Configuration F) (z : RunState F)
    (platform : Platform F W) (workers : Workers F W) where
  try_finally-Keeps :
      {A : Type 0} (body : Action (Session F W) A) (cleanup : Action (Session F W) (Unit {0}))
      → Keeps float c z body
      → Keeps float c z cleanup
      → Keeps float c z (try_finally float platform workers body cleanup)
  try_finally-Keeps {A = A} body cleanup h k s run =
      go (body s).0 (cleanup (body s).1) (k (body s).1 (h s run))
    where
      go :
          (r : Result A) (p : Result (Unit {0}) × Session F W)
          → IsRun float c z p.1
          → IsRun float c z (cleaned float platform workers r p).1
      go r (ok done, t) run' = run'
      go r (raised e, t) run' = run'

  confirmed-Keeps : Keeps float c z (confirmed float platform workers)
  confirmed-Keeps s run =
      and_then-Keeps float c z (note float platform workers worker_exit_confirmed)
        (λ noted t. (ok tt, record t { world = workers.release t.world }))
        (note-Keeps float c z platform workers worker_exit_confirmed) (λ noted t run'. run') s run

  killed-Keeps : (reply : Reply) → Keeps float c z (killed float platform workers reply)
  killed-Keeps (exited success raw) s run = confirmed-Keeps s run
  killed-Keeps timed_out s run =
      and_then-Keeps float c z (note float platform workers kill_requested)
        (λ noted t. awaited float platform workers (record t { world = workers.kill t.world }))
        (note-Keeps float c z platform workers kill_requested)
        (λ noted t run'.
          confirmed-Keeps (record t { world = (workers.communicate none (workers.kill t.world)).1 })
            run')
        s run

  terminated-Keeps : Keeps float c z (terminated float platform workers)
  terminated-Keeps s run =
      let grace = s.journal.state.execution_limits.grace_seconds in
      let (reply, w) = workers.communicate (some grace) (workers.terminate s.world) in
      killed-Keeps reply (record s { world = w }) run

  stop_owned-Keeps : Keeps float c z (stop_owned float platform workers)
  stop_owned-Keeps s run =
      let (running, w) = workers.poll s.world in
      let t : Session F W = record s { world = w } in
      if-IsRun float c z running
        (and_then (note float platform workers cancellation_requested)
          (λ noted. terminated float platform workers) t)
        (awaited float platform workers t)
        (and_then-Keeps float c z (note float platform workers cancellation_requested)
          (λ noted. terminated float platform workers)
          (note-Keeps float c z platform workers cancellation_requested) (λ noted. terminated-Keeps)
          t run)
        (confirmed-Keeps (record t { world = (workers.communicate none w).1 }) run)

  pub stop_worker-Keeps : Keeps float c z (stop_worker float platform workers)
  unfolding stop_worker
  stop_worker-Keeps s run =
      if-IsRun float c z (workers.owned s.world) (stop_owned float platform workers s) (ok tt, s)
        (stop_owned-Keeps s run) run

  import_evidence-Keeps :
      (op : Operation F) (lines : List (Option Json))
      → Keeps float c z (import_evidence float platform workers op lines)
  import_evidence-Keeps op [] s run = run
  import_evidence-Keeps op (none ∷ lines) s run =
      note-Keeps float c z platform workers worker_evidence_gap s run
  import_evidence-Keeps op (some event ∷ lines) s run =
      let ids = attempt_identifiers float platform workers op in
      and_then-Keeps float c z (emit float platform (worker_evidence event) ids)
        (λ emitted. import_evidence float platform workers op lines)
        (emit-Keeps float c z platform (worker_evidence event) ids)
        (λ emitted. import_evidence-Keeps op lines) s run

  clean_up-Keeps : (op : Operation F) → Keeps float c z (clean_up float platform workers op)
  clean_up-Keeps op =
      and_then-Keeps float c z (stop_worker float platform workers)
        (λ stopped s. import_evidence float platform workers op (workers.evidence s.world) s)
        stop_worker-Keeps (λ stopped s. import_evidence-Keeps op (workers.evidence s.world) s)

  finished_reply-Keeps :
      (success : Bool) (raw : String)
      → Keeps float c z (finished_reply float platform workers success raw)
  finished_reply-Keeps success raw s run =
      let missing : Result (Option String × Option ErrorCode) = ok (none, some delivery_error) in
      let reply : Result (Option String × Option ErrorCode) = ok (some raw, none) in
      if-IsRun float c z (not success || (raw == ""))
        (and_then (note float platform workers worker_reply_missing) (λ noted t. (missing, t)) s)
        (reply, s)
        (and_then-Keeps float c z (note float platform workers worker_reply_missing)
          (λ noted t. (missing, t)) (note-Keeps float c z platform workers worker_reply_missing)
          (λ noted t run'. run') s run)
        run

  late_reply-Keeps : (reply : Reply) → Keeps float c z (late_reply float platform workers reply)
  late_reply-Keeps timed_out s run = run
  late_reply-Keeps (exited success raw) s run =
      and_then-Keeps float c z (note float platform workers (late_response raw))
        (λ noted. finished_reply float platform workers success raw)
        (note-Keeps float c z platform workers (late_response raw))
        (λ noted. finished_reply-Keeps success raw) s run

  observed-Keeps :
      (start remaining : F) → Keeps float c z (observed float platform workers start remaining)
  observed-Keeps start remaining s run =
      let (now, w) = workers.clock s.world in
      let grace = s.journal.state.execution_limits.grace_seconds in
      let available =
        max float float.zero (float.sub (float.sub remaining (float.sub now start)) grace) in
      let (reply, w') = workers.communicate (some available) w in
      late_reply-Keeps reply (record s { world = w' }) run

  expired-Keeps :
      (start remaining : F) → Keeps float c z (expired float platform workers start remaining)
  expired-Keeps start remaining s run =
      let late : Result (Option String × Option ErrorCode) = ok (none, some deadline_exceeded) in
      if-IsRun float c z (same_policy s.journal.state.config.policy observe)
        (and_then (note float platform workers observation_wait_started)
          (λ noted. observed float platform workers start remaining) s)
        (late, s)
        (and_then-Keeps float c z (note float platform workers observation_wait_started)
          (λ noted. observed float platform workers start remaining)
          (note-Keeps float c z platform workers observation_wait_started)
          (λ noted. observed-Keeps start remaining) s run)
        run

  first_reply-Keeps :
      (start timeout remaining : F) (reply : Reply)
      → Keeps float c z (first_reply float platform workers start timeout remaining reply)
  first_reply-Keeps start timeout remaining timed_out s run =
      and_then-Keeps float c z (note float platform workers (deadline_expired timeout))
        (λ noted. expired float platform workers start remaining)
        (note-Keeps float c z platform workers (deadline_expired timeout))
        (λ noted. expired-Keeps start remaining) s run
  first_reply-Keeps start timeout remaining (exited success raw) s run =
      finished_reply-Keeps success raw s run

  -- a worker that was started
  attended-Keeps :
      (op : Operation F) (start timeout remaining : F)
      → Keeps float c z (
          and_then (note float platform workers worker_dispatched) (λ noted.
            try_finally float platform workers
              (communicated float platform workers start timeout remaining)
              (clean_up float platform workers op)))
  attended-Keeps op start timeout remaining =
      and_then-Keeps float c z (note float platform workers worker_dispatched)
        (λ noted.
          try_finally float platform workers
            (communicated float platform workers start timeout remaining)
            (clean_up float platform workers op))
        (note-Keeps float c z platform workers worker_dispatched)
        (λ noted.
          try_finally-Keeps (communicated float platform workers start timeout remaining)
            (clean_up float platform workers op)
            (λ t run'.
              let (reply, w') = workers.communicate (some timeout) t.world in
              first_reply-Keeps start timeout remaining reply (record t { world = w' }) run')
            (clean_up-Keeps op))

  dispatch_for-Keeps :
      (call : ToolCall) (fault : WorkerFault) (timeout remaining : F)
      (active : Option (Operation F))
      → Keeps float c z (dispatch_for float platform workers call fault timeout remaining active)
  dispatch_for-Keeps call fault timeout remaining none s run = run
  dispatch_for-Keeps call fault timeout remaining (some op) s run =
      let (start, w) = workers.clock s.world in
      and_then-Keeps float c z (spawned float platform workers op call fault)
        (λ begun. and_then (note float platform workers worker_dispatched) (λ noted.
          try_finally float platform workers
            (communicated float platform workers start timeout remaining)
            (clean_up float platform workers op)))
        (λ t run'. run') (λ begun. attended-Keeps op start timeout remaining)
        (record s { world = w }) run

  pub dispatch-Keeps :
      (call : ToolCall) (fault : WorkerFault) (timeout remaining : F)
      → Keeps float c z (dispatch float platform workers call fault timeout remaining)
  unfolding dispatch
  dispatch-Keeps call fault timeout remaining s run =
      dispatch_for-Keeps call fault timeout remaining s.journal.state.execution.active s run
