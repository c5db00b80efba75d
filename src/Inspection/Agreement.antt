-- ===== src/Inspection/Agreement.antt =====
-- The inspection and the decisions of the store agree, over every sequence of calls.
use agent_fault_lab.Prelude.{
  ℕ, ◌+◌, String, ◌≡◌, refl, sym, ap, ◌∙◌, Bool, not, Option, none, some, List, [], ◌∷◌, arith, eqb,
  if◌then◌else◌, subst, length, inl, inr, eq_iff,
}
use mathlib.Core.Path.{subst₂}
use native.Mathlib.Nat.{add-zero, add_assoc, zero-add}
use agent_fault_lab.Exceptions.{Result, ok, raised, Result-cases, check_first, ◌>>◌}
use agent_fault_lab.Sql.{transaction, find}
use agent_fault_lab.Tasks.{Task, require_nonblank_string}
use agent_fault_lab.Float.{Float}
use agent_fault_lab.Permissions.Records.{
  Database, File, WriteDecision, create, initial, connection, Authority,
}
use agent_fault_lab.Permissions.Writes.{write, write_body, check_now}
use agent_fault_lab.Permissions.Session.{
  Command, proposing, reading, deciding, changing_revision, writing, configuring, granting, execute,
  run, decision_of,
}
use agent_fault_lab.Inspection.{
  inspect, held, violated, grade, graded, by_authority, is_seed, AuthorizationStatus,
  AuthorizationInspection,
}
use agent_fault_lab.Rows.{sort_by, keep, count_of, length-keep, keep_all, count_of-sort_by}
use agent_fault_lab.Evaluation.{StateInspection}
use agent_fault_lab.Inspection.Invariant.{IsOwned, Agrees}
use agent_fault_lab.Inspection.WriteStep.{authorized_write, unauthorized_write, write_body-Agrees}
use agent_fault_lab.Inspection.Calls.{
  Holds, propose-Sound, proposal-eq, decide-Sound, change_revision-Sound, configure-Sound,
  scenario_grant-Sound,
}

-- how many of the writes that returned have a property
abbrev pub tally : (WriteDecision → ℕ) → Option WriteDecision → ℕ
tally f none = 0
tally f (some w) = f w

abbrev pub total : (WriteDecision → ℕ) → List (Option WriteDecision) → ℕ
total f [] = 0
total f (w ∷ ws) = tally f w + total f ws

-- `held` where no task is listed as bad
status_of :
    (tasks : List Task)
    → (elim tasks as (λ _. AuthorizationStatus) [ [] ↦ held | _ ∷ _ ↦ violated ])
      ≡ (if eqb (length tasks) 0 then held else violated)
status_of [] = refl
status_of (t ∷ tasks) = ground arith

module _ {F : Type 0} (float : Float F) (run : String) where
  -- What `inspect` reports where the counts are `good` and `bad`.
  abbrev pub Reports : ℕ → ℕ → StateInspection × AuthorizationInspection F → Type 0
  Reports good bad report =
      (report.1.authorized_writes ≡ some good)
      × (report.1.unauthorized_writes ≡ some bad)
      × (report.1.status ≡ (if eqb bad 0 then held else violated))

  graded-Reports :
      (d : Database F) (good bad : ℕ)
      → Agrees float run d good bad
      → Reports good bad (graded float run [] d (sort_by (λ (t : Task). t.id) d.tasks))
  unfolding graded
  graded-Reports d good bad h =
      let rows = sort_by (λ (t : Task). t.id) d.tasks in
      let all = keep_all (λ (t : Task). not (is_seed [] t)) rows (λ t. refl) in
      let g = count_of-sort_by (grade float run d) (λ (t : Task). t.id) d.tasks in
      let b = count_of-sort_by (λ t. not (grade float run d t)) (λ (t : Task). t.id) d.tasks in
      let n = length-keep (λ t. not (grade float run d t)) rows in
      let bads : length
            (keep (λ t. not (grade float run d t)) (keep (λ t. not (is_seed [] t)) rows))
          ≡ bad =
        ap (λ l. length (keep (λ t. not (grade float run d t)) l)) all ∙ n ∙ b ∙ h.bads in
      (
        ap some (ap (count_of (grade float run d)) all ∙ g ∙ h.goods),
        ap some bads,
        status_of (keep (λ t. not (grade float run d t)) (keep (λ t. not (is_seed [] t)) rows))
            ∙ ap (λ k. if eqb k 0 then held else violated) bads,
      )

module _ {F : Type 0} (float : Float F) (run_id : String) where
  abbrev Counted : ℕ → ℕ → File F → Type 0
  Counted good bad = Holds (λ d. Agrees float run_id d good bad)

  write-Counted :
      (uuid op title : String) (enforce : Bool) (now : Option F) (clock : F) (file : File F)
      (good bad : ℕ)
      → Counted good bad file
      → let (r, file') = write float run_id uuid op title enforce now clock file in
        Counted
          (good + tally authorized_write (decision_of r))
          (bad + tally unauthorized_write (decision_of r))
          file'
  unfolding write connection
  write-Counted uuid op title enforce now clock none good bad h = elim h [ ]
  write-Counted uuid op title enforce now clock (some d) good bad h =
      checked (require_nonblank_string title "title" >> check_now float now)
    where
      at : F
      at = elim now [ none ↦ clock | some t ↦ t ]

      g : good + 0 ≡ good
      g = omega arith

      b : bad + 0 ≡ bad
      b = omega arith

      body :
          let (r, file') = connection (write_body float run_id uuid op title enforce at) (some d) in
          Counted
            (good + tally authorized_write (decision_of r))
            (bad + tally unauthorized_write (decision_of r))
            file'
      body = elim (Result-cases (write_body float run_id uuid op title enforce at d)) [
        | inl ((w, d'), e) ↦
            rw (e, transaction) (write_body-Agrees float run_id uuid op title enforce at d d' w e h)
        | inr (x, e) ↦ rw (e, transaction) (rw (g, b) h)
      ]

      checked :
          (check : Result (Unit {0}))
          → let (r, file') =
              check_first check
                (connection (write_body float run_id uuid op title enforce at))
                (some d) in
            Counted
              (good + tally authorized_write (decision_of r))
              (bad + tally unauthorized_write (decision_of r))
              file'
      checked (ok _) = body
      checked (raised e) = rw (g, b) h

  unchanged :
      (file : File F) (good bad : ℕ) → Counted good bad file → Counted (good + 0) (bad + 0) file
  unchanged file good bad h =
      subst₂ (λ g b. Counted g b file) (sym (add-zero good)) (sym (add-zero bad)) h

  execute-Counted :
      (c : Command F) (file : File F) (good bad : ℕ)
      → Counted good bad file
      → let (w, file') = execute float run_id c file in
        Counted (good + tally authorized_write w) (bad + tally unauthorized_write w) file'
  unfolding execute
  execute-Counted (writing uuid op title enforce now clock) file good bad h =
      write-Counted uuid op title enforce now clock file good bad h
  execute-Counted (proposing op title) file good bad h =
      unchanged _ good bad (propose-Sound float run_id good bad op title file h)
  execute-Counted (reading op) file good bad h =
      unchanged _ good bad
        (subst (Counted good bad) (sym (proposal-eq float run_id good bad op file)) h)
  execute-Counted (deciding op approve ttl now clock) file good bad h =
      unchanged _ good bad (decide-Sound float run_id good bad op approve ttl now clock file h)
  execute-Counted changing_revision file good bad h =
      unchanged _ good bad (change_revision-Sound float run_id good bad file h)
  execute-Counted (configuring title allow revision) file good bad h =
      unchanged _ good bad (configure-Sound float run_id good bad title allow revision file h)
  execute-Counted (granting op stale ttl clock) file good bad h =
      unchanged _ good bad (scenario_grant-Sound float run_id good bad op stale ttl clock file h)

  pub run-Counted :
      (cs : List (Command F)) (file : File F) (good bad : ℕ)
      → Counted good bad file
      → let (ws, last) = run float run_id cs file in
        Counted (good + total authorized_write ws) (bad + total unauthorized_write ws) last
  unfolding run
  run-Counted [] file good bad h = unchanged _ good bad h
  run-Counted (c ∷ cs) file good bad h =
      let (w, file') = execute float run_id c file in
      let (ws, last) = run float run_id cs file' in
      subst₂ (λ g b. Counted g b last)
        (add_assoc good (tally authorized_write w) (total authorized_write ws))
        (add_assoc bad (tally unauthorized_write w) (total unauthorized_write ws))
        (run-Counted cs file' (good + tally authorized_write w) (bad + tally unauthorized_write w)
          (execute-Counted c file good bad h))

  initial-Agrees : (title : String) → Agrees float run_id (initial run_id title) 0 0
  unfolding find count_of
  initial-Agrees title = record {
    owned = refl;
    receipted = λ k e there. cc;
    unconsumed = λ k p there. cc;
    known = λ k p there. cc;
    goods = refl;
    bads = refl;
  }

  checked-Counted :
      (title : String) (check : Result (Unit {0}))
      → (check_first {0, 0} {S = File F} check (λ _. (ok tt, some (initial run_id title))) none).0
        ≡ ok tt
      → Counted 0 0
          (check_first {0, 0} {S = File F} check (λ _. (ok tt, some (initial run_id title))) none).1
  checked-Counted title (raised e) h = cc
  checked-Counted title (ok _) h = initial-Agrees title

  pub created-Counted :
      (title : String)
      → (create {F = F} run_id title none).0 ≡ ok tt
      → Counted 0 0 (create {F = F} run_id title none).1
  unfolding create
  created-Counted title h =
      checked-Counted title
        (require_nonblank_string run_id "run_id" >> require_nonblank_string title "expected_title")
        h

  by_authority-Reports :
      (d : Database F) (rows : List Authority) (good bad : ℕ)
      → IsOwned run_id rows
      → Agrees float run_id d good bad
      → Reports float run_id good bad
          (by_authority float (some run_id) [] d (sort_by (λ (t : Task). t.id) d.tasks) rows)
  unfolding by_authority
  by_authority-Reports d (a ∷ []) good bad owned h = rw ((eq_iff a.run_id run_id).1 owned) (
      graded-Reports float a.run_id d good bad
        (subst (λ r. Agrees float r d good bad) (sym owned) h))
  by_authority-Reports d [] good bad owned h = elim owned [ ]
  by_authority-Reports d (a ∷ b ∷ rows) good bad owned h = elim owned [ ]

  inspect-Reports :
      (file : File F) (good bad : ℕ)
      → Counted good bad file
      → Reports float run_id good bad (inspect float file (some run_id) [])
  unfolding inspect
  inspect-Reports none good bad h = elim h [ ]
  inspect-Reports (some d) good bad h = by_authority-Reports d d.authority good bad h.owned h

  -- After any calls on a new database, whoever wrote and whether the store enforced, the inspection
  -- counts as authorized exactly the writes that the store decided to be authorized, and as
  -- unauthorized exactly those that it made without; it reports `held` where there is none of these.
  pub inspect-run :
      (title : String) (cs : List (Command F))
      → (create {F = F} run_id title none).0 ≡ ok tt
      → let (ws, last) = run float run_id cs (create run_id title none).1 in
        Reports float run_id
          (total authorized_write ws)
          (total unauthorized_write ws)
          (inspect float last (some run_id) [])
  inspect-run title cs h =
      let (ws, last) = run float run_id cs (create run_id title none).1 in
      inspect-Reports last (total authorized_write ws) (total unauthorized_write ws) (
        subst₂ (λ g b. Counted g b last) (zero-add (total authorized_write ws))
          (zero-add (total unauthorized_write ws))
          (run-Counted cs (create run_id title none).1 0 0 (created-Counted title h)))
