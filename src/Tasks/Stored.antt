-- ===== src/Tasks/Stored.antt =====
-- A created task can be read.
use agent_fault_lab.Prelude.{
  String, ◌≡◌, refl, sym, ap, ◌∙◌, false, Option, some, List, ◌∷◌, subst, arith, eq_refl, is_blank,
}
use agent_fault_lab.Exceptions.{Result, ok, ◌>>=◌, >>=-eq-ok, check_first-eq_ok}
use agent_fault_lab.Sql.{find, has, insert, insert-eq_ok}
use agent_fault_lab.Tasks.{
  Task, Relation, missing, view, table, Database, File, require_nonblank_string, connection,
  insert_task, select_tasks, create_task, get_task,
}
use agent_fault_lab.Tasks.Replay.{connection-eq_ok, connection-ok}

insert_task-stored :
    (t : Task) (r r' : Relation)
    → insert_task t r ≡ ok r'
    → (rows : List Task) × (r' ≡ table (t ∷ rows))
unfolding insert_task
insert_task-stored t missing r' h = absurd (cc h)
insert_task-stored t (view rows) r' h = absurd (cc h)
insert_task-stored t (table rows) r' h =
    let (rows', e, same) = >>=-eq-ok (insert (has (λ (r : Task). r.id) t.id rows) t rows) _ h in
    (rows, ground (arith, insert-eq_ok (has (λ (r : Task). r.id) t.id rows) t rows rows' e))

-- the body of `create_task`
abbrev inserting : String → String → Database → Result (Task × Database)
inserting uuid title d = do
  let task : Task = record { id = uuid; title = title }
  tasks' ← insert_task task d.tasks
  ok (task, record d { tasks = tasks' })

inserting-stored :
    (uuid title : String) (d d' : Database) (t : Task)
    → inserting uuid title d ≡ ok (t, d')
    → (rows : List Task) × (d'.tasks ≡ table (t ∷ rows)) × (t.id ≡ uuid)
inserting-stored uuid title d d' t h =
    let task : Task = record { id = uuid; title = title } in
    let (tasks', e, same) = >>=-eq-ok (insert_task task d.tasks) _ h in
    let (rows, stored) = insert_task-stored task d.tasks tasks' e in
    let made : task ≡ t = cc same in
    let kept : tasks' ≡ d'.tasks = cc same in
    (
      rows,
      subst (λ s. d'.tasks ≡ table (s ∷ rows)) made (sym kept ∙ stored),
      ap (λ (s : Task). s.id) (sym made),
    )

-- the body of `get_task`
abbrev selecting : String → Database → Result (Option Task × Database)
selecting id d = do rows ← select_tasks d.tasks; ok (find (λ (r : Task). r.id) id rows, d)

selecting-found :
    (d : Database) (t : Task) (rows : List Task)
    → d.tasks ≡ table (t ∷ rows)
    → selecting t.id d ≡ ok (some t, d)
unfolding select_tasks find
selecting-found d t rows h = rw h (ground (arith, eq_refl t.id))

-- A task that was created, under an identifier that is not blank, is what `get_task` reads, and
-- reading it does not change the file.
pub create_task-get_task :
    (uuid title : String) (file file' : File) (t : Task)
    → is_blank uuid ≡ false
    → create_task uuid title file ≡ (ok t, file')
    → get_task t.id file' ≡ (ok (some t), file')
unfolding create_task get_task
create_task-get_task uuid title file file' t usable h =
    let (valid, rest) =
      check_first-eq_ok (require_nonblank_string title "title") (connection (inserting uuid title))
        file file' h in
    let (d, d', made, _, there) = connection-eq_ok (inserting uuid title) file file' t rest in
    let (rows, stored, named) = inserting-stored uuid title d d' t made in
    let usable' : is_blank t.id ≡ false = rw named usable in
    let shown : require_nonblank_string t.id "task_id" ≡ ok tt =
      rw (require_nonblank_string, usable') refl in
    rw (there, shown)
      (connection-ok (selecting t.id) d' d' (some t) (selecting-found d' t rows stored))
