-- ===== src/Durable/Restarts.antt =====
-- A run over the lives of several processes, each of which may be killed at any commit.
use agent_fault_lab.Prelude.{
  ℕ, String, ◌≡◌, refl, sym, ap, subst, Bool, true, Option, none, some, List, [], ◌∷◌, inl, inr,
  ◌⊎◌,
}
use agent_fault_lab.Exceptions.{Exception, Result, ok, raised}
use agent_fault_lab.Float.{Float}
use agent_fault_lab.Journal.{RunState}
use agent_fault_lab.Journal.Sound.{revalidate_sound}
use agent_fault_lab.Journal.Store.{
  Journal, EventKind, Identifiers, session_started, no_identifiers, transition, open_journal,
}
use agent_fault_lab.Journal.Store.Synced.{transition-recorded, open_journal-reopened}
use agent_fault_lab.Durable.{
  Session, Platform, emit, session, drive_finally, finally_stopped, after_stop, continued,
  with_journal,
}
use agent_fault_lab.Durable.Kept.{Configuration, IsHeld, MayRaise, OnOk, Holds, IsReliable}
use agent_fault_lab.Durable.Loop.{HasResult, drive-Holds}

-- What becomes of the processes of a run: the loop of one of them goes on past the fuel, one finds a
-- journal that it cannot open, or the last of them ends, with its outcome and the session it leaves.
pub data Lives (F W : Type 0) : Type 0 where
  running : Lives F W
  unopened : Exception → Lives F W
  ended : Result (Unit {0}) → Session F W → Lives F W

module _ {F W : Type 0} (float : Float F) (platform : Platform F W) where
  abbrev pub last_life : Option (Result (Unit {0}) × Session F W) → Lives F W
  last_life none = running
  last_life (some (r, s)) = ended r s

  abbrev pub reopened : (Session F W → Lives F W) → W → Result (Journal F) → Lives F W
  reopened rest w (ok j) = rest (record { journal = j; world = w })
  reopened rest w (raised e) = unopened e

  -- A process that starts finds the file that the last one left, in a world of its own.
  abbrev pub started :
      (Session F W → Lives F W) → String → W → Option (Result (Unit {0}) × Session F W) → Lives F W
  started rest id w none = running
  started rest id w (some (r, s)) = reopened rest w (open_journal float id s.journal.file)

  -- the process that began the run, and those that resumed it, each with its name and world
  unfoldable pub lives : ℕ → Bool → List (String × W) → Session F W → Lives F W
  unfolding session open_journal
  lives fuel resumed [] s = last_life (session float platform fuel resumed s)
  lives fuel resumed ((id, w) ∷ rest) s =
      started (lives fuel true rest) id w (session float platform fuel resumed s)

  -- an exception that the platform raises where it stops the worker of a session that is held
  abbrev pub StopRaises : Configuration F → Exception → Type 0
  StopRaises c e =
      (s : Session F W) × (s' : Session F W) × IsHeld float c s
      × (platform.stop_worker s ≡ (raised e, s'))

  abbrev pub OnEnd : Configuration F → Result (Unit {0}) → RunState F → Type 0
  OnEnd c (ok done) z = HasResult float platform z
  OnEnd c (raised e) z = MayRaise float c platform e ⊎ StopRaises c e

  -- The session is held at the end, and it ended with a result or with an exception of the platform.
  abbrev pub IsOutcome : Configuration F → Result (Unit {0}) × Session F W → Type 0
  IsOutcome c (r, s) = IsHeld float c s × OnEnd c r s.journal.state

  -- Every process opened the journal, every loop ended within the fuel, and the last process ended
  -- with a result or an exception of the platform.
  abbrev pub Finishes : Configuration F → Lives F W → Type 0
  Finishes c o = (p : Result (Unit {0}) × Session F W) × (o ≡ ended p.0 p.1) × IsOutcome c p

  abbrev HasEnded : Configuration F → Option (Result (Unit {0}) × Session F W) → Type 0
  HasEnded c o = (p : Result (Unit {0}) × Session F W) × (o ≡ some p) × IsOutcome c p

  -- Stopping the worker leaves a held session held, and changes at most the execution.
  abbrev pub StopsQuietly : Type 0
  StopsQuietly =
      (c : Configuration F) (s : Session F W)
      → IsHeld float c s
      → let s' = (platform.stop_worker s).1 in
        IsHeld float c s'
        × (s'.journal.state ≡ record s.journal.state { execution = s'.journal.state.execution })

  emit-Holds :
      (c : Configuration F) (kind : EventKind F) (ids : Identifiers) (s : Session F W)
      → IsHeld float c s
      → Holds float platform c (λ z. Unit) (emit float platform kind ids s)
  unfolding emit
  emit-Holds c kind ids s held = go (platform.alive s.world) refl
    where
      go :
          (p : Result (Unit {0}) × W)
          → platform.alive s.world ≡ p
          → Holds {W = W} float platform {A = Unit {0}} c
              (λ z. Unit)
              (elim p.0 [
                | ok done ↦
                    with_journal float platform (transition float none kind ids s.journal) p.1
                | raised e ↦ (raised e, record s { world = p.1 })
              ])
      go (raised e, w) blame = (held, inl (s.world, w, blame))
      go (ok done, w) blame =
          let (made, synced) = transition-recorded float none kind ids s.journal held.0 tt in
          rw made ((synced, held.1, held.2), tt)

  -- the end of the loop, and of the `finally` after it
  after_stop-IsOutcome :
      (c : Configuration F) (r : Result (Unit {0})) (s : Session F W)
      → StopsQuietly
      → Holds float platform c (HasResult float platform) (r, s)
      → IsOutcome c (after_stop float platform r (platform.stop_worker s))
  after_stop-IsOutcome c r s quiet (held, q) = go r (platform.stop_worker s) refl q
    where
      go :
          (r : Result (Unit {0})) (p : Result (Unit {0}) × Session F W)
          → platform.stop_worker s ≡ p
          → OnOk float c platform (HasResult float platform) r s.journal.state
          → IsOutcome c (after_stop float platform r p)
      go r (raised e, s') stops q =
          let quietly = quiet c s held in
          (subst (λ p. IsHeld float c p.1) stops quietly.0, inr (s, s', held, stops))
      go (ok done) (ok stopped, s') stops q =
          let quietly = quiet c s held in
          (
            subst (λ p. IsHeld float c p.1) stops quietly.0,
            subst (HasResult float platform)
                (sym (
                  subst
                    (λ p.
                      p.1.journal.state
                      ≡ record s.journal.state { execution = p.1.journal.state.execution })
                    stops quietly.1))
                q,
          )
      go (raised e) (ok stopped, s') stops q =
          (subst (λ p. IsHeld float c p.1) stops (quiet c s held).0, inl q)

  driven-HasEnded :
      (c : Configuration F) (s : Session F W)
      → IsReliable float platform
      → StopsQuietly
      → IsHeld float c s
      → HasEnded c (drive_finally float platform 20 s)
  unfolding drive_finally
  driven-HasEnded c s reliable quiet held =
      let ((r, t), ends, h) = drive-Holds float platform c s reliable held in
      (
        after_stop float platform r (platform.stop_worker t),
        ap (finally_stopped float platform) ends,
        after_stop-IsOutcome c r t quiet h,
      )

  session-HasEnded :
      (c : Configuration F) (resumed : Bool) (s : Session F W)
      → IsReliable float platform
      → StopsQuietly
      → IsHeld float c s
      → HasEnded c (session float platform 20 resumed s)
  unfolding session
  session-HasEnded c resumed s reliable quiet held =
      go (emit float platform (session_started resumed) no_identifiers s)
        (emit-Holds c (session_started resumed) no_identifiers s held)
    where
      go :
          (p : Result (Unit {0}) × Session F W)
          → Holds float platform c (λ z. Unit) p
          → HasEnded c (continued float platform (drive_finally float platform 20) p)
      go (ok done, s') (h, _) = driven-HasEnded c s' reliable quiet h
      go (raised e, s') (h, q) = ((raised e, s'), refl, (h, inl q))

  -- the file that a held session leaves is opened again, and the session is held again
  reopened-Finishes :
      (c : Configuration F) (rest : Session F W → Lives F W) (id : String) (w : W) (s : Session F W)
      → IsHeld float c s
      → ((s' : Session F W) → IsHeld float c s' → Finishes c (rest s'))
      → Finishes c (reopened rest w (open_journal float id s.journal.file))
  reopened-Finishes c rest id w s (synced, sound, same) k =
      let j : Journal F = record {
        state = s.journal.state;
        file = s.journal.file;
        session_id = id;
        records = s.journal.records;
      } in
      let valid = revalidate_sound float s.journal.state sound in
      subst (λ r. Finishes c (reopened rest w r))
        (sym (open_journal-reopened float id s.journal synced valid))
        (k (record { journal = j; world = w }) (synced, sound, same))

  pub lives-Holds :
      (c : Configuration F) (resumed : Bool) (others : List (String × W)) (s : Session F W)
      → IsReliable float platform
      → StopsQuietly
      → IsHeld float c s
      → Finishes c (lives 20 resumed others s)
  unfolding lives
  lives-Holds c resumed [] s reliable quiet held =
      let (p, ends, h) = session-HasEnded c resumed s reliable quiet held in
      (p, ap last_life ends, h)
  lives-Holds c resumed ((id, w) ∷ rest) s reliable quiet held =
      let ((r, s'), ends, (h, q)) = session-HasEnded c resumed s reliable quiet held in
      subst (λ o. Finishes c (started (lives 20 true rest) id w o)) (sym ends)
        (reopened-Finishes c (lives 20 true rest) id w s' h
          (λ t k. lives-Holds c true rest t reliable quiet k))
