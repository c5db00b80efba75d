-- ===== src/Durable/Ask.antt =====
-- The end of a run, and an iteration in the phase "model": the session is kept and less is left.
use agent_fault_lab.Prelude.{
  ℕ, suc, ◌+◌, ◌≤◌, ◌<◌, String, ◌≡◌, refl, ap, subst, true, false, Option, none, some, arith,
  length, leb, is_blank, inl, inr, Bool-cases,
}
use agent_fault_lab.Exceptions.{
  Exception, value_error, operation_conflict, contract_error, validation_error, sqlite_error,
  file_exists, delivery_unavailable, provider_error, assertion_error, recursion_error, Result, ok,
  raised,
}
use agent_fault_lab.Float.{Float}
use agent_fault_lab.Json.Equal.{calls_eq}
use agent_fault_lab.Model.{
  ModelTurn, ExecutionStatus, finished, model_limit, provider_stopped, protocol_error,
}
use agent_fault_lab.Agent.{is_length}
use agent_fault_lab.Agent.Budget.{Explains}
use agent_fault_lab.Journal.{RunState, model_phase, tools_phase, terminal_phase}
use agent_fault_lab.Journal.Sound.{IsOpen, IsIn}
use agent_fault_lab.Journal.Store.{run_stopped, no_identifiers, model_requested, model_returned}
use agent_fault_lab.Durable.{
  Session, Platform, save, result_of, stopped, stop, stop_cut, stop_final, cut_content, is_empty,
  interpret, counted, returned, answered, asked, model_step,
}
use agent_fault_lab.Durable.Kept.{
  Configuration, budget, measure, remaining, IsHeld, MayRaise, Holds, and_then-Holds, weaken-Holds,
  save-Holds, IsReliable,
}
use agent_fault_lab.Durable.Next.{stopped-IsSound, counted-IsSound, returned-IsSound}

-- a run that has ended
abbrev pub IsEnded : {F : Type 0} → RunState F → Type 0
IsEnded z = z.phase ≡ terminal_phase

module _ {F W : Type 0} (float : Float F) (platform : Platform F W) where
  pub stop-Holds :
      (c : Configuration F) (status : ExecutionStatus) (content error : Option String)
      (s : Session F W)
      → IsHeld float c s
      → IsOpen float s.journal.state
      → (s.journal.state.tool_reserved ≡ false)
      → (s.journal.state.tool_cursor ≤ length s.journal.state.pending)
      → Explains s.journal.state.limits
          (result_of float platform status content error s.journal.state)
          status
      → Holds float platform c IsEnded (stop float platform status content error s)
  unfolding stop
  stop-Holds c status content error s held fresh free cursor why =
      let z = s.journal.state in
      let r = result_of float platform status content error z in
      weaken-Holds float platform c (λ y. y ≡ stopped float platform r z) IsEnded
        (save float platform (stopped float platform r z) (run_stopped r) no_identifiers s)
        (save-Holds float platform c (stopped float platform r z) (run_stopped r) no_identifiers s
          held (stopped-IsSound float platform status content error z held.1 fresh free cursor why)
          held.2)
        (λ y e. ap (λ (y : RunState F). y.phase) e)

  -- a response that hit its limit
  pub stop_cut-Holds :
      (c : Configuration F) (turn : ModelTurn) (s : Session F W)
      → IsHeld float c s
      → IsOpen float s.journal.state
      → (s.journal.state.tool_reserved ≡ false)
      → (s.journal.state.tool_cursor ≤ length s.journal.state.pending)
      → Holds float platform c IsEnded (stop_cut float platform turn s)
  stop_cut-Holds c turn s held fresh free cursor =
      stop-Holds c protocol_error (cut_content turn) (some "Model response hit its output limit") s
        held fresh free cursor (λ n. cc n)

  pub stop_final-Holds :
      (c : Configuration F) (content : String) (s : Session F W)
      → IsHeld float c s
      → IsOpen float s.journal.state
      → (s.journal.state.tool_reserved ≡ false)
      → (s.journal.state.tool_cursor ≤ length s.journal.state.pending)
      → Holds float platform c IsEnded (stop_final float platform content s)
  stop_final-Holds c content s held fresh free cursor = elim (Bool-cases (is_blank content)) [
    | inl e ↦ rw e (
        stop-Holds c protocol_error (some content) (some "Empty assistant response") s held fresh
          free cursor (λ n. cc n))
    | inr e ↦ rw e (
        stop-Holds c finished (some content) none s held fresh free cursor (content, refl, e, refl))
  ]

  -- less to do than `n`
  abbrev pub IsBelow : ℕ → RunState F → Type 0
  IsBelow n z = measure z < n

  ended-IsBelow : (n : ℕ) (z : RunState F) → IsEnded z → IsBelow (suc n) z
  ended-IsBelow n z e = rw e (omega arith)

  pub IsBelow-of_ended :
      {A : Type 0} (c : Configuration F) (n : ℕ) (p : Result A × Session F W)
      → Holds float platform c IsEnded p
      → Holds float platform c (IsBelow (suc n)) p
  IsBelow-of_ended c n p h =
      weaken-Holds float platform c IsEnded (IsBelow (suc n)) p h (ended-IsBelow n)

  interpret-Holds :
      (c : Configuration F) (n : ℕ) (turn : ModelTurn) (s : Session F W)
      → IsHeld float c s
      → IsOpen float s.journal.state
      → (s.journal.state.tool_reserved ≡ false)
      → (s.journal.state.tool_cursor ≤ length s.journal.state.pending)
      → IsBelow (suc n) s.journal.state
      → Holds float platform c (IsBelow (suc n)) (interpret float platform turn s)
  unfolding interpret
  interpret-Holds c n turn s held fresh free cursor below =
      elim (Bool-cases (is_length turn.finish_reason)) [
        | inl e ↦ rw e (
            IsBelow-of_ended c n (stop_cut float platform turn s)
              (stop_cut-Holds c turn s held fresh free cursor))
        | inr e ↦ elim (Bool-cases (is_empty turn.tool_calls)) [
          | inl k ↦
              rw (e, k)
                (IsBelow-of_ended c n (stop_final float platform turn.content s)
                  (stop_final-Holds c turn.content s held fresh free cursor))
          | inr k ↦ rw (e, k) (held, below)
        ]
      ]

  -- what is known of a session in the phase "model"
  model_facts :
      (c : Configuration F) (s : Session F W)
      → IsHeld float c s
      → s.journal.state.phase ≡ model_phase
      → IsOpen float s.journal.state
        × (s.journal.state.tool_reserved ≡ false)
        × (s.journal.state.tool_cursor ≤ length s.journal.state.pending)
  model_facts c s held e =
      let z = s.journal.state in
      let (_, start, free, fresh) : IsIn float model_phase z =
        subst (λ p. IsIn float p z) e held.1.3 in
      (fresh, free, omega arith)

  saved_turn-Holds :
      (c : Configuration F) (n : ℕ) (turn : ModelTurn) (s : Session F W)
      → IsHeld float c s
      → s.journal.state.phase ≡ model_phase
      → (s.journal.state.script_cursor < s.journal.state.model_calls)
      → (remaining tools_phase s.journal.state < suc n)
      → calls_eq turn.tool_calls turn.tool_calls ≡ true
      → Holds float platform c (IsBelow (suc n)) (answered float platform (ok turn) s)
  saved_turn-Holds c n turn s held e behind below self =
      let z = s.journal.state in
      let y = returned float platform turn z in
      let (fresh, free, _) = model_facts c s held e in
      and_then-Holds float platform c (λ x. x ≡ y) (IsBelow (suc n))
        (save float platform y (model_returned z.model_calls turn) no_identifiers)
        (λ done. interpret float platform turn) s
        (save-Holds float platform c y (model_returned z.model_calls turn) no_identifiers s held
          (returned-IsSound float platform turn z held.1 e behind self) held.2)
        (λ done s' held' same.
          interpret-Holds c n turn s' held' (rw same fresh) (rw same free) (rw same (omega arith))
            (rw same below))

  pub answered-Holds :
      (c : Configuration F) (n : ℕ) (r : Result ModelTurn) (s : Session F W)
      → IsHeld float c s
      → s.journal.state.phase ≡ model_phase
      → (s.journal.state.script_cursor < s.journal.state.model_calls)
      → (remaining tools_phase s.journal.state < suc n)
      → ((turn : ModelTurn) → r ≡ ok turn → calls_eq turn.tool_calls turn.tool_calls ≡ true)
      → ((e : Exception) → r ≡ raised e → MayRaise float c platform e)
      → Holds float platform c (IsBelow (suc n)) (answered float platform r s)
  answered-Holds c n (ok turn) s held e behind below self blame =
      saved_turn-Holds c n turn s held e behind below (self turn refl)
  answered-Holds c n (raised (provider_error m)) s held e behind below self blame =
      let (fresh, free, cursor) = model_facts c s held e in
      IsBelow-of_ended c n (stop float platform provider_stopped none (some m) s)
        (stop-Holds c provider_stopped none (some m) s held fresh free cursor refl)
  answered-Holds c n (raised (value_error m)) s held e behind below self blame =
      (held, blame (value_error m) refl)
  answered-Holds c n (raised operation_conflict) s held e behind below self blame =
      (held, blame operation_conflict refl)
  answered-Holds c n (raised (contract_error m)) s held e behind below self blame =
      (held, blame (contract_error m) refl)
  answered-Holds c n (raised validation_error) s held e behind below self blame =
      (held, blame validation_error refl)
  answered-Holds c n (raised (sqlite_error m)) s held e behind below self blame =
      (held, blame (sqlite_error m) refl)
  answered-Holds c n (raised file_exists) s held e behind below self blame =
      (held, blame file_exists refl)
  answered-Holds c n (raised delivery_unavailable) s held e behind below self blame =
      (held, blame delivery_unavailable refl)
  answered-Holds c n (raised assertion_error) s held e behind below self blame =
      (held, blame assertion_error refl)
  answered-Holds c n (raised recursion_error) s held e behind below self blame =
      (held, blame recursion_error refl)

  pub model_step-Holds :
      (c : Configuration F) (s : Session F W)
      → IsReliable float platform
      → IsHeld float c s
      → s.journal.state.phase ≡ model_phase
      → Holds float platform c
          (IsBelow (remaining model_phase s.journal.state))
          (model_step float platform s)
  unfolding model_step
  model_step-Holds c s reliable held e =
      let z = s.journal.state in
      let y = counted float platform z in
      let (fresh, free, cursor) = model_facts c s held e in
      elim (Bool-cases (leb z.limits.max_model_calls z.model_calls)) [
        | inl full ↦
            let most : z.limits.max_model_calls ≤ z.model_calls = ground arith in
            rw full (
              IsBelow-of_ended c (budget z)
                (stop float platform model_limit none (some "Model-call budget exhausted") s)
                (stop-Holds c model_limit none (some "Model-call budget exhausted") s held fresh
                  free cursor (omega (arith, held.1.1.1, most), refl)))
        | inr more ↦
            let room : z.model_calls < z.limits.max_model_calls = ground arith in
            rw more (
              and_then-Holds float platform c (λ x. x ≡ y) (IsBelow (remaining model_phase z))
                (save float platform y (model_requested (z.model_calls + 1)) no_identifiers)
                (λ done. asked float platform z) s
                (save-Holds float platform c y (model_requested (z.model_calls + 1)) no_identifiers
                  s held (counted-IsSound float platform z held.1 e (ground arith)) held.2)
                (λ done s' held' same.
                  let (r, w) = platform.complete z s'.world in
                  answered-Holds c (budget z) r (record s' { world = w }) held' (rw same e)
                    (rw same (omega (arith, held.1.1.0))) (rw same (omega (arith, room)))
                    (λ turn k. reliable.self_equal z s'.world w turn (ap (λ q. (q, w)) k))
                    (λ x k. inr (inl (z, s'.world, w, held.1, held.2, ap (λ q. (q, w)) k)))))
      ]
