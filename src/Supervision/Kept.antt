-- ===== src/Supervision/Kept.antt =====
-- The supervisor changes nothing of a run's state but its execution, whichever way it ends, and
-- keeps that within its limits.
pub mod Worker
pub mod Attempt
pub mod Execute
use agent_fault_lab.Prelude.{
  ℕ, String, ◌≡◌, refl, sym, ap, ◌∙◌, subst, Bool, true, false, Option, none, some, inl, inr,
  if◌then◌else◌,
}
use agent_fault_lab.Exceptions.{
  Exception, assertion_error, Result, ok, raised, Action, and_then, resume, Result-cases,
}
use agent_fault_lab.Float.{Float}
use agent_fault_lab.Agent.{ToolDelivery}
use agent_fault_lab.Contracts.{ErrorCode, ToolError}
use agent_fault_lab.Execution.{Operation, ExecutionState}
use agent_fault_lab.Journal.{RunState, revalidate}
use agent_fault_lab.Journal.Accepted.{revalidate-ok}
use agent_fault_lab.Journal.Store.{
  Identifiers, no_identifiers, EventKind, execution_checkpoint, operation_failed, transition,
}
use agent_fault_lab.Journal.Store.Synced.{IsStorable, transition-recorded, transition-raised}
use agent_fault_lab.Durable.{Session, Platform, save, emit, with_journal}
use agent_fault_lab.Durable.Kept.{Configuration, IsHeld}
use agent_fault_lab.Durable.Next.{executed-IsSound}
use agent_fault_lab.Supervision.{
  Workers, checkpoint, save_operation, identifiers_of, note, settle, finish, finish_of, finish_with,
}

module _ {F W : Type 0} (float : Float F) (c : Configuration F) (z : RunState F) where
  -- a held session whose state is `z` but for the execution
  abbrev pub IsRun : Session F W → Type 0
  IsRun s =
      IsHeld float c s × (s.journal.state ≡ record z { execution = s.journal.state.execution })

  abbrev pub Keeps : {A : Type 0} → Action (Session F W) A → Type 0
  Keeps m = (s : Session F W) → IsRun s → IsRun (m s).1

  pub and_then-Keeps :
      {A B : Type 0} (m : Action (Session F W) A) (f : A → Action (Session F W) B)
      → Keeps m
      → ((a : A) → Keeps (f a))
      → Keeps (and_then m f)
  and_then-Keeps {A = A} m f h k s run = go (m s).0 (m s).1 (h s run)
    where
      go : (r : Result A) (t : Session F W) → IsRun t → IsRun (resume f r t).1
      go (ok a) t run' = k a t run'
      go (raised e) t run' = run'

  pub if-IsRun :
      {A : Type 0} (b : Bool) (p q : Result A × Session F W)
      → IsRun p.1
      → IsRun q.1
      → IsRun (if b then p else q).1
  if-IsRun true p q h k = h
  if-IsRun false p q h k = k

  module _ (platform : Platform F W) where
    pub emit-Keeps : (kind : EventKind F) (ids : Identifiers) → Keeps (emit float platform kind ids)
    unfolding emit
    emit-Keeps kind ids s (held, same) = go (platform.alive s.world)
      where
        go :
            (p : Result (Unit {0}) × W)
            → IsRun
                (elim p.0 as (λ _. Result (Unit {0}) × Session F W) [
                  | ok done ↦
                      with_journal float platform (transition float none kind ids s.journal) p.1
                  | raised e ↦ (raised e, record s { world = p.1 })
                ]).1
        go (raised e, w) = (held, same)
        go (ok done, w) =
            let (made, synced) = transition-recorded float none kind ids s.journal held.0 tt in
            rw made ((synced, held.1, held.2), same)

    -- A checkpoint of another execution is stored, or refused by the validators.
    stored-IsRun :
        (e : ExecutionState F) (kind : EventKind F) (ids : Identifiers) (s : Session F W) (w : W)
        → IsRun s
        → IsRun
            (with_journal float platform
              (transition float
                (some (record s.journal.state { execution = e }))
                kind
                ids
                s.journal)
              w).1
    stored-IsRun e kind ids s w (held, same) =
        let x = s.journal.state in
        let y : RunState F = record x { execution = e } in
        elim (Result-cases (revalidate float y)) [
          | inr (err, refused) ↦
              rw (transition-raised float y kind ids s.journal refused) (held, same)
          | inl (t, accepted) ↦
              let (kept, sound) = revalidate-ok float y accepted in
              let storable : IsStorable float (some y) s.journal =
                (accepted ∙ ap ok (sym kept), refl) in
              let (made, synced) =
                transition-recorded float (some y) kind ids s.journal held.0 storable in
              rw made (
                (synced, executed-IsSound float platform e x held.1 sound, held.2),
                ap (λ (u : RunState F). record u { execution = e }) same,
              )
        ]

    pub checkpoint-Keeps :
        (workers : Workers F W) (e : ExecutionState F) → Keeps (checkpoint float platform workers e)
    unfolding checkpoint save
    checkpoint-Keeps workers e s run = go (platform.alive s.world)
      where
        go :
            (p : Result (Unit {0}) × W)
            → IsRun
                (elim p.0 as (λ _. Result (Unit {0}) × Session F W) [
                  | ok done ↦
                      with_journal float platform
                        (transition float
                          (some (record s.journal.state { execution = e }))
                          execution_checkpoint
                          no_identifiers
                          s.journal)
                        p.1
                  | raised x ↦ (raised x, record s { world = p.1 })
                ]).1
        go (raised x, w) = run
        go (ok done, w) = stored-IsRun e execution_checkpoint no_identifiers s w run

    module _ (workers : Workers F W) where
      pub save_operation-Keeps :
          (op : Operation F) → Keeps (save_operation float platform workers op)
      unfolding save_operation
      save_operation-Keeps op s run =
          checkpoint-Keeps workers (record s.journal.state.execution { active = some op }) s run

      pub note-Keeps : (kind : EventKind F) → Keeps (note float platform workers kind)
      unfolding note
      note-Keeps kind s run =
          emit-Keeps kind (identifiers_of float platform workers s.journal.state.execution.active) s
            run

      pub settle-Keeps :
          (result : ToolDelivery) (kind : EventKind F) (op : Operation F)
          → Keeps (settle float platform workers result kind op)
      settle-Keeps result kind op =
          and_then-Keeps
            (save_operation float platform workers (record op { result = some result }))
            (λ saved. and_then (note float platform workers kind) (λ noted s. (ok result, s)))
            (save_operation-Keeps (record op { result = some result }))
            (λ saved.
              and_then-Keeps (note float platform workers kind) (λ noted s. (ok result, s))
                (note-Keeps kind) (λ noted s run. run))

      finish_of-Keeps :
          (result : ToolDelivery) (code : ErrorCode) (active : Option (Operation F))
          → Keeps (finish_of float platform workers result code active)
      finish_of-Keeps result code none s run = run
      finish_of-Keeps result code (some op) s run =
          settle-Keeps result (operation_failed code) op s run

      pub finish-Keeps :
          (code : ErrorCode) (message : String) → Keeps (finish float platform workers code message)
      unfolding finish
      finish-Keeps code message s run =
          let result : ToolDelivery = record {
            content = workers.error_text code message;
            executed = true;
          } in
          finish_of-Keeps result code s.journal.state.execution.active s run

      pub finish_with-Keeps :
          (error : Option ToolError) → Keeps (finish_with float platform workers error)
      finish_with-Keeps none s run = run
      finish_with-Keeps (some error) s run = finish-Keeps error.code error.message s run
