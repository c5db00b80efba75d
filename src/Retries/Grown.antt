-- ===== src/Retries/Grown.antt =====
-- What keyed creations of one operation do to the file of the store, however often they are made.
use agent_fault_lab.Prelude.{
  String, ◌≡◌, refl, sym, ap, subst, ◌⊎◌, inl, inr, ◌||◌, none, some, List, ◌∷◌, arith, eq_iff,
  Option-cases,
}
use agent_fault_lab.Exceptions.{Result, ok, raised, >>=-eq-ok, ◌>>◌, check_first-eq_ok}
use agent_fault_lab.Sql.{find, has, insert, insert-eq_ok}
use agent_fault_lab.Tasks.{
  Task, CreateReceipt, Operation, Relation, missing, view, table, Database, File,
  require_nonblank_string, connection, insert_task, ledger, keyed_create, create_task_idempotent,
}
use agent_fault_lab.Tasks.Replay.{connection-eq_ok, create_task_idempotent-replay}
use agent_fault_lab.Tools.Storage.{RollsBack, connection-RollsBack, check_first-RollsBack}

-- The second relation is the first, or has one more task, with the title.
abbrev pub Grown : String → Relation → Relation → Type 0
Grown title r r' =
    (r' ≡ r)
    ⊎ ((rows : List Task) × (t : Task) × (r ≡ table rows)
        × (r' ≡ table (t ∷ rows))
        × (t.title ≡ title))

abbrev pub GrownFile : String → File → File → Type 0
GrownFile title none none = Unit
GrownFile title (some d) (some d') = Grown title d.tasks d'.tasks
GrownFile title _ _ = ⊥

insert_task-Grown : (t : Task) (r r' : Relation) → insert_task t r ≡ ok r' → Grown t.title r r'
unfolding insert_task
insert_task-Grown t missing r' h = absurd (cc h)
insert_task-Grown t (view rows) r' h = absurd (cc h)
insert_task-Grown t (table rows) r' h =
    let (rows', e, same) = >>=-eq-ok (insert (has (λ (r : Task). r.id) t.id rows) t rows) _ h in
    inr (
      rows,
      t,
      refl,
      ground (arith, insert-eq_ok (has (λ (r : Task). r.id) t.id rows) t rows rows' e),
      refl,
    )

keyed_create-Grown :
    (uuid title op : String) (d d' : Database) (r : CreateReceipt)
    → keyed_create uuid title op d ≡ ok (r, d')
    → Grown title d.tasks d'.tasks
unfolding keyed_create
keyed_create-Grown uuid title op d d' r h =
    elim (Option-cases (find (λ (o : Operation). o.operation_id) op (ledger d.task_operations))) [
      | inr (o, there) ↦ inl (ground (arith, eq_iff o.title title))
      | inl absent ↦
          let task : Task = record { id = uuid; title = title } in
          let row : Operation = record { operation_id = op; title = title; task_id = uuid } in
          let (tasks', added, h1) =
            >>=-eq-ok (insert_task task d.tasks) _ (rw (absent, keyed_create) at h) in
          let (rows', inserted, h2) =
            >>=-eq-ok
              (insert
                (has (λ (o : Operation). o.operation_id) op (ledger d.task_operations)
                  || has (λ (o : Operation). o.task_id) uuid (ledger d.task_operations))
                row (ledger d.task_operations))
              _ h1 in
          let kept : tasks' ≡ d'.tasks = cc h2 in
          subst (Grown title d.tasks) kept (insert_task-Grown task d.tasks tasks' added)
    ]

create-GrownFile :
    (uuid title op : String) (file file' : File) (r : CreateReceipt)
    → create_task_idempotent uuid title op file ≡ (ok r, file')
    → GrownFile title file file'
unfolding create_task_idempotent
create-GrownFile uuid title op file file' r h =
    let check =
      require_nonblank_string title "title" >> require_nonblank_string op "operation_id" in
    let (_, rest) =
      check_first-eq_ok check (connection (keyed_create uuid title op)) file file' h in
    let (d, d', made, here, there) =
      connection-eq_ok (keyed_create uuid title op) file file' r rest in
    rw (here, there) (keyed_create-Grown uuid title op d d' r made)

create-RollsBack :
    (uuid title op : String) (file : File)
    → RollsBack file (create_task_idempotent uuid title op file)
unfolding create_task_idempotent
create-RollsBack uuid title op file =
    check_first-RollsBack
      (require_nonblank_string title "title" >> require_nonblank_string op "operation_id") _ file
      (connection-RollsBack (keyed_create uuid title op) file)

GrownFile-refl : (title : String) (file : File) → GrownFile title file file
GrownFile-refl title none = tt
GrownFile-refl title (some d) = inl refl

-- The file is the first one, or what the operation's one creation made of it.
abbrev pub Once : String → String → File → File → Type 0
Once op title base file =
    (file ≡ base)
    ⊎ ((uuid : String) × (r : CreateReceipt) × (create_task_idempotent uuid title op base
          ≡ (ok r, file)))

pub store-Once :
    (uuid title op : String) (base file : File)
    → Once op title base file
    → Once op title base (create_task_idempotent uuid title op file).1
store-Once uuid title op base file (inr (uuid', r, made)) =
    let again = create_task_idempotent-replay uuid' uuid title op base file r made in
    subst (Once op title base) (sym (ap (λ p. p.1) again)) (inr (uuid', r, made))
store-Once uuid title op base file (inl same) =
    rw same
      (new (create_task_idempotent uuid title op base) refl (create-RollsBack uuid title op base))
  where
    new :
        (p : Result CreateReceipt × File)
        → create_task_idempotent uuid title op base ≡ p
        → RollsBack base p
        → Once op title base p.1
    new (ok r, file') e h = inr (uuid, r, e)
    new (raised x, file') e h = inl h

pub Once-GrownFile :
    (op title : String) (base file : File) → Once op title base file → GrownFile title base file
Once-GrownFile op title base file (inl same) = rw same (GrownFile-refl title base)
Once-GrownFile op title base file (inr (uuid, r, made)) =
    create-GrownFile uuid title op base file r made
