-- ===== src/Supervision/Replay.antt =====
-- A result that was saved answers every later execution of its call.
use agent_fault_lab.Prelude.{
  String, ◌≡◌, ◌⊎◌, not, any, refl, sym, ap, ◌∙◌, subst, true, ◌||◌, Option, none, some, ◌==◌,
  eq_refl, Bool-cases, inl, inr,
}
use agent_fault_lab.Exceptions.{
  Result, ok, raised, and_then, and_then-eq_ok, Result-cases, >>=-eq-ok,
}
use agent_fault_lab.Float.{Float}
use agent_fault_lab.Json.Equal.{call_eq}
use agent_fault_lab.Model.{ToolCall}
use agent_fault_lab.Pydantic.{Pydantic}
use agent_fault_lab.Agent.{ToolDelivery}
use agent_fault_lab.Execution.{Operation, ExecutionState}
use agent_fault_lab.Journal.{RunState, revalidate}
use agent_fault_lab.Journal.Accepted.{revalidate-ok}
use agent_fault_lab.Journal.Store.{
  Identifiers, no_identifiers, EventKind, execution_checkpoint, JournalEvent, Journal, has_sequence,
  checked_state, or_else, commit_checked, commit, appended, event_of, transition, JournalFile,
  read_events, open_journal,
}
use agent_fault_lab.Durable.{Session, Platform, save, emit, with_journal}
use agent_fault_lab.Supervision.{Workers, checkpoint, save_operation, identifiers_of, note, settle}
use agent_fault_lab.Supervision.Execute.{checked_arguments, operation_for, perform, execute}

-- the state of the journal, and the one that its file holds
abbrev held_states : {F : Type 0} → Journal F → RunState F × RunState F
held_states j = (j.state, j.file.checkpoint)

module _ {F : Type 0} (float : Float F) where
  -- what was committed
  appended_states :
      (e : JournalEvent F) (checked : Result (Option (RunState F))) (j j' : Journal F)
      → appended float e (commit_checked float e checked j).0 (commit_checked float e checked j).1
        ≡ (ok tt, j')
      → (o : Option (RunState F)) × (checked ≡ ok o)
        × (held_states j' ≡ (or_else float o j.state, or_else float o j.file.checkpoint))
  appended_states e (raised x) j j' h = absurd (cc h)
  appended_states e (ok o) j j' h = elim (Bool-cases (has_sequence e.sequence j.file.stored)) [
    | inl taken ↦ absurd (cc (rw taken at h))
    | inr free ↦
        let made = rw free at h in
        (o, refl, sym (ap (λ (q : Result (Unit {0}) × Journal F). held_states q.1) made))
  ]

  checked_same :
      (y : RunState F) (o : Option (RunState F)) (z : RunState F)
      → checked_state float (some y) ≡ ok o
      → or_else float o z ≡ y
  checked_same y o z h = elim (Result-cases (revalidate float y)) [
    | inr (x, refused) ↦ absurd (cc (rw refused at h))
    | inl (t, accepted) ↦
        let whole : some t ≡ o = cc (rw accepted at h) in
        subst (λ o. or_else float o z ≡ y) whole (sym (revalidate-ok float y accepted).0)
  ]

  transition_states :
      (y : RunState F) (kind : EventKind F) (ids : Identifiers) (j j' : Journal F)
      → transition float (some y) kind ids j ≡ (ok tt, j')
      → held_states j' ≡ (y, y)
  unfolding transition commit
  transition_states y kind ids j j' h =
      let e = event_of float kind ids j in
      let (o, checked, same) = appended_states e (checked_state float (some y)) j j' h in
      let here = checked_same y o j.state checked in
      let stored = checked_same y o j.file.checkpoint checked in
      same ∙ ap (λ a. (a, or_else float o j.file.checkpoint)) here ∙ ap (λ a. (y, a)) stored

  transition_kept :
      (kind : EventKind F) (ids : Identifiers) (j j' : Journal F)
      → transition float none kind ids j ≡ (ok tt, j')
      → held_states j' ≡ held_states j
  unfolding transition commit
  transition_kept kind ids j j' h =
      let e = event_of float kind ids j in
      let (o, checked, same) = appended_states e (ok none) j j' h in
      let nothing : none ≡ o = cc checked in
      same ∙ ap (λ o. (or_else float o j.state, or_else float o j.file.checkpoint)) (sym nothing)

  -- The state of a journal that was opened is the one of its file.
  opened_state :
      (session_id : String) (file : JournalFile F) (j : Journal F)
      → open_journal float session_id file ≡ ok j
      → j.state ≡ file.checkpoint
  unfolding open_journal
  opened_state session_id file j h =
      let (s, accepted, h1) = >>=-eq-ok (revalidate float file.checkpoint) _ h in
      let (rows, numbered, h2) = >>=-eq-ok (read_events file.stored) _ h1 in
      elim (Bool-cases (any (λ (e : JournalEvent F). not (e.run_id == s.run_id)) rows)) [
        | inl foreign ↦ absurd (cc (rw foreign at h2))
        | inr own ↦
            ap (λ (x : Result (Journal F)). elim x [ ok j ↦ j.state | raised _ ↦ s ])
              (sym (rw own at h2))
            ∙ sym (revalidate-ok float file.checkpoint accepted).0
      ]

-- A session that goes on with what another one left: the same one, or one of another process, whose
-- journal was opened from the file.
abbrev pub IsSuccessor : {F W : Type 0} → Float F → Session F W → Session F W → Type 0
IsSuccessor float t u =
    (t ≡ u)
    ⊎ ((session_id : String) × (open_journal float session_id t.journal.file ≡ ok u.journal))

module _ {F W : Type 0} (float : Float F) (platform : Platform F W) where
  successor_active :
      (op : Operation F) (t u : Session F W)
      → t.journal.state.execution.active ≡ some op
      → t.journal.file.checkpoint.execution.active ≡ some op
      → IsSuccessor float t u
      → u.journal.state.execution.active ≡ some op
  successor_active op t u here stored (inl same) =
      ap (λ (v : Session F W). v.journal.state.execution.active) (sym same) ∙ here
  successor_active op t u here stored (inr (session_id, opened)) =
      ap (λ (z : RunState F). z.execution.active)
        (opened_state float session_id t.journal.file u.journal opened)
      ∙ stored

  saved_states :
      (state : RunState F) (kind : EventKind F) (ids : Identifiers) (s t : Session F W)
      → save float platform state kind ids s ≡ (ok tt, t)
      → held_states t.journal ≡ (state, state)
  unfolding save
  saved_states state kind ids s t = go (platform.alive s.world)
    where
      go :
          (p : Result (Unit {0}) × W)
          → (elim p.0 as (λ _. Result (Unit {0}) × Session F W) [
            | ok done ↦
                with_journal float platform (transition float (some state) kind ids s.journal) p.1
            | raised e ↦ (raised e, record s { world = p.1 })
          ])
            ≡ (ok tt, t)
          → held_states t.journal ≡ (state, state)
      go (raised e, w) h = absurd (cc (ap (λ q. q.0) h))
      go (ok done, w) h =
          transition_states float state kind ids s.journal t.journal
            (ap (λ (q : Result (Unit {0}) × Session F W). (q.0, q.1.journal)) h)

  emitted_states :
      (kind : EventKind F) (ids : Identifiers) (s t : Session F W)
      → emit float platform kind ids s ≡ (ok tt, t)
      → held_states t.journal ≡ held_states s.journal
  unfolding emit
  emitted_states kind ids s t = go (platform.alive s.world)
    where
      go :
          (p : Result (Unit {0}) × W)
          → (elim p.0 as (λ _. Result (Unit {0}) × Session F W) [
            | ok done ↦ with_journal float platform (transition float none kind ids s.journal) p.1
            | raised e ↦ (raised e, record s { world = p.1 })
          ])
            ≡ (ok tt, t)
          → held_states t.journal ≡ held_states s.journal
      go (raised e, w) h = absurd (cc (ap (λ q. q.0) h))
      go (ok done, w) h =
          transition_kept float kind ids s.journal t.journal
            (ap (λ (q : Result (Unit {0}) × Session F W). (q.0, q.1.journal)) h)

  module _ (workers : Workers F W) where
    -- the active operation of both
    abbrev actives : RunState F × RunState F → Option (Operation F) × Option (Operation F)
    actives p = (p.0.execution.active, p.1.execution.active)

    operation_saved :
        (op : Operation F) (s t : Session F W)
        → save_operation float platform workers op s ≡ (ok tt, t)
        → actives (held_states t.journal) ≡ (some op, some op)
    unfolding save_operation checkpoint
    operation_saved op s t h =
        let e : ExecutionState F = record s.journal.state.execution { active = some op } in
        ap actives (
          saved_states (record s.journal.state { execution = e }) execution_checkpoint
            no_identifiers s t h)

    noted_states :
        (kind : EventKind F) (s t : Session F W)
        → note float platform workers kind s ≡ (ok tt, t)
        → held_states t.journal ≡ held_states s.journal
    unfolding note
    noted_states kind s t h =
        emitted_states kind (identifiers_of float platform workers s.journal.state.execution.active)
          s t h

    -- A result that is settled is the active operation's, in the journal and in its file.
    settled :
        (result d : ToolDelivery) (kind : EventKind F) (op : Operation F) (s t : Session F W)
        → settle float platform workers result kind op s ≡ (ok d, t)
        → let op' : Operation F = record op { result = some result } in
          (result ≡ d) × (actives (held_states t.journal) ≡ (some op', some op'))
    settled result d kind op s t h =
        let op' : Operation F = record op { result = some result } in
        let noted = and_then (note float platform workers kind) (λ noted s. (ok result, s)) in
        let (_, s1, saved, h1) =
          and_then-eq_ok (save_operation float platform workers op') (λ saved. noted) s t h in
        let (_, s2, told, h2) =
          and_then-eq_ok (note float platform workers kind) (λ noted s. (ok result, s)) s1 t h1 in
        let last : s2 ≡ t = ap (λ (q : Result ToolDelivery × Session F W). q.1) h2 in
        (
          cc (ap (λ (q : Result ToolDelivery × Session F W). q.0) h2),
          ap (λ (u : Session F W). actives (held_states u.journal)) (sym last)
              ∙ ap actives (noted_states kind s1 s2 told)
              ∙ operation_saved op' s s1 saved,
        )

    module _ (pydantic : Pydantic) where
      replayed :
          (call : ToolCall) (call_id : String) (op : Operation F) (d : ToolDelivery)
          (active : Option (Operation F)) (t : Session F W)
          → active ≡ some op
          → op.result ≡ some d
          → op.call_id ≡ call_id
          → call_eq op.call call ≡ true
          → and_then
              (operation_for float platform workers pydantic call call_id active)
              (λ op. perform float platform workers pydantic call op op.result)
              t
            ≡ (ok d, t)
      replayed call call_id op d active t now result same equal =
          subst
            (λ a.
              and_then (operation_for float platform workers pydantic call call_id a)
                (λ op. perform float platform workers pydantic call op op.result) t
              ≡ (ok d, t))
            (sym now) (rw (same, eq_refl call_id, equal, result) refl)

      -- Once the result of an operation was saved, an execution of the operation's call is answered
      -- with that result and changes nothing, in the session that saved it, and in any session, of
      -- whatever name and world, whose journal was opened from the file that it left. The call names a
      -- tool, its arguments are accepted, and it equals the operation's call under `==`.
      pub execute_replayed :
          (call : ToolCall) (call_id : String) (result d : ToolDelivery) (kind : EventKind F)
          (op : Operation F) (s t u : Session F W)
          → settle float platform workers result kind op s ≡ (ok d, t)
          → IsSuccessor float t u
          → op.call_id ≡ call_id
          → call_eq op.call call ≡ true
          → (call.name == "create_task" || call.name == "get_task") ≡ true
          → checked_arguments float platform workers pydantic call ≡ ok tt
          → execute float platform workers pydantic call call_id u ≡ (ok d, u)
      unfolding execute
      execute_replayed call call_id result d kind op s t u h next same equal known checked =
          let (given, active) = settled result d kind op s t h in
          let op' : Operation F = record op { result = some result } in
          let now = successor_active op' t u (ap (λ p. p.0) active) (ap (λ p. p.1) active) next in
          rw (known, checked)
            (replayed call call_id op' d u.journal.state.execution.active u now (ap some given) same
              equal)
