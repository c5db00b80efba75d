-- ===== src/Permissions/Replay.antt =====
-- A committed write is answered from its receipt, whatever has become of its grant.
use agent_fault_lab.Prelude.{
  String, ◌≡◌, refl, inl, inr, Bool, true, false, not, ◌&&◌, if◌then◌else◌, Option, none, some,
  List, arith, eq_iff, eq_refl, Bool-cases, Option-cases,
}
use agent_fault_lab.Exceptions.{ok, ◌>>◌, >>=-eq-ok, check_first-eq_ok}
use agent_fault_lab.Sql.{find, transaction}
use agent_fault_lab.Tasks.{Task, Operation, require_nonblank_string}
use agent_fault_lab.Float.{Float}
use agent_fault_lab.Permissions.Records.{
  Authority, Reason, Database, File, WriteDecision, is_allowed, connection, connection-eq_ok,
  select_proposal, select_authority,
}
use agent_fault_lab.Permissions.Session.{Command, run}
use agent_fault_lab.Permissions.Receipts.{receipt_at, run-Keeps, HasReceipt}
use agent_fault_lab.Permissions.Writes.{
  write, write_body, commit_write, scoped, grant_reason, check_now,
}

module _ {F : Type 0} (float : Float F) where
  -- the answer from a receipt
  abbrev pub replay_of : Task → WriteDecision
  replay_of t = record { task = some t; authorized = none; replayed = true; reason = none }

  -- the database holds the receipt of task `t` under the operation
  abbrev IsReceipt : Database F → String → String → Task → Type 0
  IsReceipt d op title t =
      (o : Operation) × (receipt_at op d.task_operations ≡ some o)
      × (o.title ≡ title)
      × (t ≡ record { id = o.task_id; title = title })

  commit_write-IsReceipt :
      (run uuid op title : String) (now : F) (a : Authority) (reason : Reason) (d d' : Database F)
      (w : WriteDecision) (t : Task)
      → commit_write float run uuid op title now a reason d ≡ ok (w, d')
      → w.task ≡ some t
      → IsReceipt d' op title t
  unfolding commit_write find
  commit_write-IsReceipt run uuid op title now a reason d d' w t h made = (
    record { operation_id = op; title = title; task_id = uuid },
    ground (arith, eq_refl op),
    refl,
    ground arith,
  )

  admitted-IsReceipt :
      (run uuid op title : String) (enforce : Bool) (now : F) (a : Authority) (reason : Reason)
      (d d' : Database F) (w : WriteDecision) (t : Task)
      → (if enforce && not (is_allowed reason)
          then ok (
            record { task = none; authorized = some false; replayed = false; reason = some reason },
            d,
          )
          else commit_write float run uuid op title now a reason d)
        ≡ ok (w, d')
      → w.task ≡ some t
      → IsReceipt d' op title t
  admitted-IsReceipt run uuid op title enforce now a reason d d' w t h made =
      elim (Bool-cases (enforce && not (is_allowed reason))) [
        | inl denied ↦ absurd (ground arith)
        | inr admitted ↦
            commit_write-IsReceipt run uuid op title now a reason d d' w t (rw admitted at h) made
      ]

  -- what a write that returned has checked and done
  write-eq_ok :
      (run uuid op title : String) (enforce : Bool) (now : Option F) (clock : F)
      (file file' : File F) (w : WriteDecision)
      → write float run uuid op title enforce now clock file ≡ (ok w, file')
      → (d' : Database F) × (d : Database F) × (require_nonblank_string title "title" ≡ ok tt)
        × (file' ≡ some d')
        × (write_body float run uuid op title enforce (elim now [ none ↦ clock | some t ↦ t ]) d
            ≡ ok (w, d'))
  unfolding write
  write-eq_ok run uuid op title enforce now clock file file' w h =
      let at : F = elim now [ none ↦ clock | some t ↦ t ] in
      let body = write_body float run uuid op title enforce at in
      let (valid, rest) =
        check_first-eq_ok (require_nonblank_string title "title" >> check_now float now)
          (connection body) file file' h in
      let (_, titled, _) =
        >>=-eq-ok (require_nonblank_string title "title") (λ _. check_now float now) valid in
      let (d, d', e, here) = connection-eq_ok body file file' w rest in (d', d, titled, here, e)

  write_body-receipt :
      (run uuid op title : String) (enforce : Bool) (now : F) (d : Database F) (t : Task)
      → IsReceipt d op title t
      → write_body float run uuid op title enforce now d ≡ ok (replay_of t, d)
  unfolding write_body
  write_body-receipt run uuid op title enforce now d t (o, there, same, e) =
      ground (arith, eq_iff o.title title)

  write-receipt :
      (run uuid op title : String) (enforce : Bool) (now : Option F) (clock : F) (d : Database F)
      (t : Task)
      → require_nonblank_string title "title" ≡ ok tt
      → check_now float now ≡ ok tt
      → IsReceipt d op title t
      → write float run uuid op title enforce now clock (some d) ≡ (ok (replay_of t), some d)
  unfolding write connection
  write-receipt run uuid op title enforce now clock d t valid timely r =
      let at : F = elim now [ none ↦ clock | some t ↦ t ] in
      rw (valid, timely) (rw (write_body-receipt run uuid op title enforce at d t r, transaction))

  write_body-IsReceipt :
      (run uuid op title : String) (enforce : Bool) (now : F) (d d' : Database F)
      (w : WriteDecision) (t : Task)
      → write_body float run uuid op title enforce now d ≡ ok (w, d')
      → w.task ≡ some t
      → IsReceipt d' op title t
  unfolding write_body
  write_body-IsReceipt run uuid op title enforce now d d' w t h made =
      elim (Option-cases (receipt_at op d.task_operations)) [
        | inr (o, there) ↦ (o, ground arith, ground (arith, eq_iff o.title title), ground arith)
        | inl absent ↦
            let (p, here, h1) = >>=-eq-ok (select_proposal d op) _ (rw (absent, write_body) at h) in
            let (a, owner, h2) = >>=-eq-ok (select_authority d run) _ h1 in
            let (reason, asked, h3) =
              >>=-eq-ok
                (scoped d.request_policy d.authority d.tasks title
                  (grant_reason float run title now p a))
                _ h2 in
            admitted-IsReceipt run uuid op title enforce now a reason d d' w t h3 made
      ]

  -- the receipt is still there after any calls
  later-IsReceipt :
      (run_id op title : String) (d : Database F) (t : Task) (commands : List (Command F))
      → IsReceipt d op title t
      → (d' : Database F) × ((run float run_id commands (some d)).1 ≡ some d')
        × IsReceipt d' op title t
  later-IsReceipt run_id op title d t commands (o, there, same, made) =
      go (run float run_id commands (some d)).1
        (run-Keeps op o float run_id commands (some d) there)
    where
      go :
          (file : File F)
          → HasReceipt op o file
          → (d' : Database F) × (file ≡ some d') × IsReceipt d' op title t
      go none h = absurd h
      go (some d') h = (d', refl, (o, h, same, made))

  -- Once a write of a run has returned a task, then after any calls of the store, of any number and
  -- in any order, a write of the same operation and title, with a time that is finite, returns that
  -- task as a replay and changes nothing, whatever its own time and policy are.
  pub write_replay :
      (run_id uuid op title : String) (enforce : Bool) (now : Option F) (clock : F)
      (file file' : File F) (w : WriteDecision) (t : Task) (commands : List (Command F))
      (uuid' : String) (enforce' : Bool) (now' : Option F) (clock' : F)
      → write float run_id uuid op title enforce now clock file ≡ (ok w, file')
      → w.task ≡ some t
      → check_now float now' ≡ ok tt
      → let later = (run float run_id commands file').1 in
        write float run_id uuid' op title enforce' now' clock' later ≡ (ok (replay_of t), later)
  write_replay run_id uuid op title enforce now clock file file' w t commands uuid' enforce' now'
        clock' h made timely =
      let (d, before, titled, e, there) =
        write-eq_ok run_id uuid op title enforce now clock file file' w h in
      let at : F = elim now [ none ↦ clock | some t ↦ t ] in
      let receipt = write_body-IsReceipt run_id uuid op title enforce at before d w t there made in
      let (d', later, receipt') = later-IsReceipt run_id op title d t commands receipt in
      rw (e, later)
        (write-receipt run_id uuid' op title enforce' now' clock' d' t titled timely receipt')
