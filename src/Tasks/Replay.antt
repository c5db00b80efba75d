-- ===== src/Tasks/Replay.antt =====
-- What a creation that returned leaves in the store: its task can be read, and its operation is
-- answered from the ledger.
use agent_fault_lab.Prelude.{
  String, ◌≡◌, ◌≢◌, refl, sym, ap, ◌∙◌, true, false, none, some, List, ◌∷◌, arith, ◌||◌, eq_iff,
  eq_refl, is_blank, Option-cases, inl, inr,
}
use agent_fault_lab.Exceptions.{
  Result, ok, raised, ◌>>◌, >>=-eq-ok, check_first-eq_ok, Result-cases, operation_conflict,
  Exception,
}
use agent_fault_lab.Sql.{find, has, insert, insert-eq_ok, transaction}
use agent_fault_lab.Tasks.{
  Task, CreateReceipt, Operation, Relation, Database, File, require_nonblank_string, connection,
  insert_task, ledger, keyed_create, create_task_idempotent,
}

pub connection-eq_ok :
    {A : Type 0} (body : Database → Result (A × Database)) (file file' : File) (a : A)
    → connection body file ≡ (ok a, file')
    → (d : Database) × (d' : Database) × (body d ≡ ok (a, d')) × (file ≡ some d) × (file' ≡ some d')
unfolding connection
connection-eq_ok body none file' a h = cc (ap (λ p. p.0) h)
connection-eq_ok body (some d) file' a h = elim (Result-cases (body d)) [
  | inl ((b, d'), e) ↦
      let h' = rw (e, transaction) at h in
      (d, d', cc (e, ap (λ p. p.0) h'), refl, sym (ap (λ p. p.1) h'))
  | inr (x, e) ↦ cc (ap (λ p. p.0) (rw (e, transaction) at h))
]

pub connection-ok :
    {A : Type 0} (body : Database → Result (A × Database)) (d d' : Database) (a : A)
    → body d ≡ ok (a, d')
    → connection body (some d) ≡ (ok a, some d')
unfolding connection
connection-ok body d d' a h = rw (h, transaction) refl

pub connection-raised :
    {A : Type 0} (body : Database → Result (A × Database)) (d : Database) {e : Exception}
    → body d ≡ raised e
    → connection body (some d) ≡ (raised e, some d)
unfolding connection
connection-raised body d h = rw (h, transaction) refl

-- the ledger answers the operation with the title and the identifier
abbrev pub IsKept : String → String → String → Database → Type 0
IsKept op title id d =
    (rows : List Operation) × (o : Operation) × (d.task_operations ≡ some rows)
    × (find (λ (o : Operation). o.operation_id) op rows ≡ some o)
    × (o.title ≡ title)
    × (o.task_id ≡ id)

created-IsKept :
    (uuid title op : String) (tasks' : Relation) (rows' rows : List Operation) (d' : Database)
    (r : CreateReceipt)
    → rows' ≡ record { operation_id = op; title = title; task_id = uuid } ∷ rows
    → ◌≡◌ {A = Result (CreateReceipt × Database)}
        (ok (
          record { task = record { id = uuid; title = title }; replayed = false },
          record { tasks = tasks'; task_operations = some rows' },
        ))
        (ok (r, d'))
    → IsKept op title r.task.id d' × (r.task.title ≡ title)
unfolding find
created-IsKept uuid title op tasks' rows' rows d' r inserted h =
    let row : Operation = record { operation_id = op; title = title; task_id = uuid } in
    let first : find (λ (o : Operation). o.operation_id) op (row ∷ rows) ≡ some row =
      ground (arith, eq_refl op) in
    ((row ∷ rows, row, ground arith, first, refl, ground arith), ground arith)

pub keyed_create-IsKept :
    (uuid title op : String) (d d' : Database) (r : CreateReceipt)
    → keyed_create uuid title op d ≡ ok (r, d')
    → IsKept op title r.task.id d' × (r.task.title ≡ title)
unfolding keyed_create insert find
keyed_create-IsKept uuid title op d d' r h =
    elim (Option-cases (find (λ (o : Operation). o.operation_id) op (ledger d.task_operations))) [
      | inr (o, there) ↦ (
        (
          ledger d.task_operations,
          o,
          ground (arith, eq_iff o.title title),
          there,
          ground (arith, eq_iff o.title title),
          ground (arith, eq_iff o.title title),
        ),
        ground (arith, eq_iff o.title title),
      )
      | inl absent ↦
          let task : Task = record { id = uuid; title = title } in
          let row : Operation = record { operation_id = op; title = title; task_id = uuid } in
          let (tasks', _, h1) =
            >>=-eq-ok (insert_task task d.tasks) _ (rw (absent, keyed_create) at h) in
          let (rows', inserted, h2) =
            >>=-eq-ok
              (insert
                (has (λ (o : Operation). o.operation_id) op (ledger d.task_operations)
                  || has (λ (o : Operation). o.task_id) uuid (ledger d.task_operations))
                row (ledger d.task_operations))
              _ h1 in
          created-IsKept uuid title op tasks' rows' (ledger d.task_operations) d' r
            (insert-eq_ok _ row (ledger d.task_operations) rows' inserted) h2
    ]

pub keyed_create-replayed :
    (uuid title op id : String) (d : Database)
    → IsKept op title id d
    → keyed_create uuid title op d
      ≡ ok (record { task = record { id = id; title = title }; replayed = true }, d)
unfolding keyed_create
keyed_create-replayed uuid title op id d (rows, o, kept, there, same, e) =
    rw (keyed_create, kept, there) (ground (arith, eq_iff o.title title))

pub keyed_create-conflict :
    (uuid title title' op id : String) (d : Database)
    → IsKept op title id d
    → title ≢ title'
    → keyed_create uuid title' op d ≡ raised operation_conflict
unfolding keyed_create
keyed_create-conflict uuid title title' op id d (rows, o, kept, there, same, e) other =
    rw (keyed_create, kept, there) (ground (arith, eq_iff o.title title'))

-- A keyed creation that returned leaves its receipt; the same operation and title are then answered
-- with the same task, as a replay, and the file stays as it is.
pub create_task_idempotent-replay :
    (uuid uuid' title op : String) (file file' : File) (r : CreateReceipt)
    → create_task_idempotent uuid title op file ≡ (ok r, file')
    → create_task_idempotent uuid' title op file'
      ≡ (ok (record { task = r.task; replayed = true }), file')
unfolding create_task_idempotent
create_task_idempotent-replay uuid uuid' title op file file' r h =
    let check =
      require_nonblank_string title "title" >> require_nonblank_string op "operation_id" in
    let (valid, rest) =
      check_first-eq_ok check (connection (keyed_create uuid title op)) file file' h in
    let (d, d', made, _, there) = connection-eq_ok (keyed_create uuid title op) file file' r rest in
    let (kept, titled) = keyed_create-IsKept uuid title op d d' r made in
    let again : CreateReceipt = record { task = r.task; replayed = true } in
    let titled_again : record { task = record { id = r.task.id; title = title }; replayed = true }
        ≡ again =
      ap (λ s. record { task = record { id = r.task.id; title = s }; replayed = true })
        (sym titled) in
    rw (valid, there)
      (connection-ok (keyed_create uuid' title op) d' d' again (
        keyed_create-replayed uuid' title op r.task.id d' kept
        ∙ ap (λ (a : CreateReceipt). ok (a, d')) titled_again))

-- An operation is refused with another title, and the file stays as it is.
pub create_task_idempotent-conflict :
    (uuid uuid' title title' op : String) (file file' : File) (r : CreateReceipt)
    → create_task_idempotent uuid title op file ≡ (ok r, file')
    → title ≢ title'
    → is_blank title' ≡ false
    → create_task_idempotent uuid' title' op file' ≡ (raised operation_conflict, file')
unfolding create_task_idempotent
create_task_idempotent-conflict uuid uuid' title title' op file file' r h other usable =
    let check =
      require_nonblank_string title "title" >> require_nonblank_string op "operation_id" in
    let (valid, rest) =
      check_first-eq_ok check (connection (keyed_create uuid title op)) file file' h in
    let (_, _, keyed) =
      >>=-eq-ok (require_nonblank_string title "title")
        (λ _. require_nonblank_string op "operation_id") valid in
    let (d, d', made, _, there) = connection-eq_ok (keyed_create uuid title op) file file' r rest in
    let (kept, titled) = keyed_create-IsKept uuid title op d d' r made in
    let valid' : require_nonblank_string title' "title" ≡ ok tt =
      rw (require_nonblank_string, usable) refl in
    rw (valid', keyed, there)
      (connection-raised (keyed_create uuid' title' op) d'
        (keyed_create-conflict uuid' title title' op r.task.id d' kept other))
