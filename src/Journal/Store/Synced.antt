-- ===== src/Journal/Store/Synced.antt =====
-- The file of a journal and what its recorder holds say the same, after every transition and after
-- the journal is opened again.
use agent_fault_lab.Prelude.{
  ℕ, suc, ◌+◌, ◌≤◌, String, ◌≡◌, refl, sym, subst, true, false, not, Option, none, some, List, [],
  ◌∷◌, ◌++◌, arith, eq_iff, ◌==◌, length, any,
}
use agent_fault_lab.Exceptions.{Exception, ok, raised}
use agent_fault_lab.Float.{Float}
use agent_fault_lab.Journal.{RunState, revalidate}
use agent_fault_lab.Journal.Store.{
  EventKind, Identifiers, JournalEvent, Journal, has_sequence, insert_event, is_numbered,
  read_events, checked_state, or_else, commit, event_of, transition, open_journal, create_journal,
}

module _ {F : Type 0} where
  -- The numbers count from `n`, and the events are of the run.
  abbrev pub IsNumbered : String → ℕ → List (JournalEvent F) → Type 0
  IsNumbered run n [] = Unit
  IsNumbered run n (e ∷ rows) = (e.sequence ≡ n) × (e.run_id ≡ run) × IsNumbered run (suc n) rows

  IsNumbered-append :
      (run : String) (n : ℕ) (rows : List (JournalEvent F)) (e : JournalEvent F)
      → IsNumbered run n rows
      → (e.sequence ≡ n + length rows)
      → (e.run_id ≡ run)
      → IsNumbered run n (rows ++ e ∷ [])
  IsNumbered-append run n [] e h k r = (omega arith, r, tt)
  IsNumbered-append run n (f ∷ rows) e (a, b, h) k r =
      (a, b, IsNumbered-append run (suc n) rows e h (omega arith) r)

  insert_event-last :
      (run : String) (n : ℕ) (rows : List (JournalEvent F)) (e : JournalEvent F)
      → IsNumbered run n rows
      → (e.sequence ≡ n + length rows)
      → insert_event e rows ≡ rows ++ e ∷ []
  insert_event-last run n [] e h k = refl
  insert_event-last run n (f ∷ rows) e (a, b, h) k =
      ground (arith, insert_event-last run (suc n) rows e h)

  has_sequence-last :
      (run : String) (n m : ℕ) (rows : List (JournalEvent F))
      → IsNumbered run n rows
      → (n + length rows ≤ m)
      → has_sequence m rows ≡ false
  has_sequence-last run n m [] h k = refl
  has_sequence-last run n m (f ∷ rows) (a, b, h) k =
      ground (arith, has_sequence-last run (suc n) m rows h)

  is_numbered-true :
      (run : String) (n : ℕ) (rows : List (JournalEvent F))
      → IsNumbered run n rows
      → is_numbered n rows ≡ true
  is_numbered-true run n [] h = refl
  is_numbered-true run n (f ∷ rows) (a, b, h) = ground (arith, is_numbered-true run (suc n) rows h)

  same_run :
      (run : String) (n : ℕ) (rows : List (JournalEvent F))
      → IsNumbered run n rows
      → any (λ (e : JournalEvent F). not (e.run_id == run)) rows ≡ false
  same_run run n [] h = refl
  same_run run n (f ∷ rows) (a, b, h) =
      ground (arith, eq_iff f.run_id run, same_run run (suc n) rows h)

  abbrev pub IsSynced : Journal F → Type 0
  IsSynced j =
      (j.file.checkpoint ≡ j.state)
      × (j.file.stored ≡ j.records)
      × IsNumbered j.state.run_id 1 j.records

module _ {F : Type 0} (float : Float F) where
  -- the journal after a transition
  abbrev pub recorded : Option (RunState F) → EventKind F → Identifiers → Journal F → Journal F
  recorded o kind identifiers j =
      let records = j.records ++ event_of float kind identifiers j ∷ [] in
      record j {
        state = or_else float o j.state;
        file = record { checkpoint = or_else float o j.state; stored = records };
        records = records;
      }

  -- what a transition may store: no state, or one that its validators accept, of the same run
  abbrev pub IsStorable : Option (RunState F) → Journal F → Type 0
  IsStorable none j = Unit
  IsStorable (some s) j = (revalidate float s ≡ ok s) × (s.run_id ≡ j.state.run_id)

  checked_state-ok :
      (o : Option (RunState F)) (j : Journal F) → IsStorable o j → checked_state float o ≡ ok o
  checked_state-ok none j h = refl
  checked_state-ok (some s) j h = rw h.0 refl

  same_run_id :
      (o : Option (RunState F)) (j : Journal F)
      → IsStorable o j
      → (or_else float o j.state).run_id ≡ j.state.run_id
  same_run_id none j h = refl
  same_run_id (some s) j h = h.1

  -- On a journal whose file and recorder agree, a transition without a state, or to a state that the
  -- validators accept and whose `run_id` is that of the journal's state, is committed with its event,
  -- and they agree again.
  pub transition-recorded :
      (o : Option (RunState F)) (kind : EventKind F) (identifiers : Identifiers) (j : Journal F)
      → IsSynced j
      → IsStorable o j
      → (transition float o kind identifiers j ≡ (ok tt, recorded o kind identifiers j))
        × IsSynced (recorded o kind identifiers j)
  unfolding transition commit
  transition-recorded o kind identifiers j (same, kept, numbered) h =
      let e = event_of float kind identifiers j in
      let run = same_run_id o j h in
      let fresh : has_sequence e.sequence j.records ≡ false =
        has_sequence-last j.state.run_id 1 e.sequence j.records numbered (omega arith) in
      let last : insert_event e j.records ≡ j.records ++ e ∷ [] =
        insert_event-last j.state.run_id 1 j.records e numbered (omega arith) in
      let more : IsNumbered j.state.run_id 1 (j.records ++ e ∷ []) =
        IsNumbered-append j.state.run_id 1 j.records e numbered (omega arith) refl in
      (
        rw (checked_state-ok o j h, kept, same, fresh, last) refl,
        (refl, refl, subst (λ r. IsNumbered r 1 (j.records ++ e ∷ [])) (sym run) more),
      )

  -- A state that the validators refuse is not stored.
  pub transition-raised :
      (s : RunState F) (kind : EventKind F) (identifiers : Identifiers) (j : Journal F)
      {x : Exception}
      → revalidate float s ≡ raised x
      → transition float (some s) kind identifiers j ≡ (raised x, j)
  unfolding transition commit
  transition-raised s kind identifiers j h = rw h refl

  -- A journal whose file and recorder agree, and whose state the validators accept, can be opened
  -- again, with the state and the events that were recorded.
  pub open_journal-reopened :
      (session_id : String) (j : Journal F)
      → IsSynced j
      → revalidate float j.state ≡ ok j.state
      → open_journal float session_id j.file
        ≡ ok (record {
          state = j.state;
          file = j.file;
          session_id = session_id;
          records = j.records;
        })
  unfolding open_journal read_events
  open_journal-reopened session_id j (same, kept, numbered) valid =
      rw
        (
          same,
          kept,
          valid,
          is_numbered-true j.state.run_id 1 j.records numbered,
          same_run j.state.run_id 1 j.records numbered,
        )
        refl

  pub create_journal-IsSynced :
      (session_id : String) (s : RunState F)
      → revalidate float s ≡ ok s
      → (j : Journal F) × (create_journal float session_id s ≡ ok j) × (j.state ≡ s) × IsSynced j
  unfolding create_journal
  create_journal-IsSynced session_id s valid = (
    record {
      state = s;
      file = record { checkpoint = s; stored = [] };
      session_id = session_id;
      records = [];
    },
    rw valid refl,
    refl,
    (refl, refl, tt),
  )
