-- ===== src/Durable/Calls.antt =====
-- An iteration in the phase "tools": the session is kept and less is left to do.
use agent_fault_lab.Prelude.{
  ℕ, zero, suc, ◌+◌, ◌≤◌, ◌<◌, String, ◌≡◌, refl, sym, ap, ◌∙◌, subst, Bool, true, false, none,
  some, List, [], ◌∷◌, arith, length, eqb, leb, if◌then◌else◌, inl, inr, Bool-cases, leb_le, leb_lt,
  leb_le, leb_lt,
}
use agent_fault_lab.Exceptions.{Exception, Result, ok, raised, and_then}
use agent_fault_lab.Float.{Float}
use agent_fault_lab.Model.{ToolCall, ModelTurn, tool_limit}
use agent_fault_lab.Agent.{is_length}
use agent_fault_lab.Journal.{RunState, tools_phase}
use agent_fault_lab.Journal.Sound.{IsSound, IsOpen, IsIn, IsCalling, IsReserved}
use agent_fault_lab.Journal.Store.{no_identifiers, model_ready, tool_requested, tool_returned}
use agent_fault_lab.Durable.{
  Session, Platform, save, stop, stop_cut, stop_final, is_empty, ready, reserved, delivered, called,
  dispatch, call_step, nth, calls_step, saved_step, tools_step,
}
use agent_fault_lab.Durable.Kept.{
  Configuration, configuration, measure, IsHeld, OnOk, MayRaise, Holds, and_then-Holds,
  weaken-Holds, if-Holds, save-Holds, IsReliable,
}
use agent_fault_lab.Durable.Next.{
  ready-IsSound, reserved-IsSound, executed-IsSound, delivered-IsSound,
}
use agent_fault_lab.Durable.Ask.{
  IsBelow, stop-Holds, stop_cut-Holds, stop_final-Holds, IsBelow-of_ended,
}

module _ {F W : Type 0} (float : Float F) (platform : Platform F W) where
  on_ok :
      {A : Type 0} (c : Configuration F) (Q : RunState F → Type 0) (r : Result A) (z : RunState F)
      → Q z
      → ((e : Exception) → r ≡ raised e → MayRaise float c platform e)
      → OnOk float c platform Q r z
  on_ok c Q (ok a) z q blame = q
  on_ok c Q (raised e) z q blame = blame e refl

  -- an operation that was reserved, under the supervisor
  dispatch-Holds :
      (c : Configuration F) (n : ℕ) (call : ToolCall) (id : String) (turn : ModelTurn)
      (s : Session F W)
      → IsReliable float platform
      → IsHeld float c s
      → s.journal.state.phase ≡ tools_phase
      → IsCalling float s.journal.state turn
      → IsOpen float s.journal.state
      → (s.journal.state.tool_reserved ≡ true)
      → (measure s.journal.state ≤ n)
      → Holds float platform c (IsBelow float platform n) (dispatch float platform call id s)
  unfolding dispatch
  dispatch-Holds c n call id turn s reliable held e calling fresh taken below =
      let z = s.journal.state in
      let p = platform.supervise call id s in
      let (x, synced, same, sound) = reliable.supervised c call id s held in
      let y : RunState F = record z { execution = x } in
      let held' : IsHeld float c p.1 = (
        synced,
        subst (IsSound float) (sym same) (executed-IsSound float platform x z held.1 sound),
        ap configuration same ∙ held.2,
      ) in
      and_then-Holds float platform c (λ a. a ≡ y) (IsBelow float platform n)
        (platform.supervise call id)
        (λ delivery t.
          save float platform (delivered float platform call id delivery t.journal.state)
            (tool_returned delivery) (called float platform id) t)
        s
        ((
          held',
          on_ok c (λ a. a ≡ y) p.0 p.1.journal.state same
              (λ x k. inr (inr (call, id, s, p.1, held, e, taken, ap (λ q. (q, p.1)) k))),
        ))
        (λ delivery t h q.
          weaken-Holds float platform c
            (λ a. a ≡ delivered float platform call id delivery t.journal.state)
            (IsBelow float platform n)
            (save float platform (delivered float platform call id delivery t.journal.state)
              (tool_returned delivery) (called float platform id) t)
            (save-Holds float platform c (delivered float platform call id delivery t.journal.state)
              (tool_returned delivery) (called float platform id) t h
              (delivered-IsSound float platform call id delivery turn t.journal.state h.1 (rw q e)
                (rw q calling) (rw q fresh) (rw q taken))
              h.2)
            (λ a k. rw (k, q, e) (omega (arith, rw (e, taken) at below))))

  nth-some : {A : Type 0} (n : ℕ) (l : List A) → n < length l → (a : A) × (nth n l ≡ some a)
  nth-some n [] h = absurd (omega arith)
  nth-some zero (a ∷ l) h = (a, refl)
  nth-some (suc n) (a ∷ l) h = nth-some n l (omega arith)

  call_step-Holds :
      (c : Configuration F) (n : ℕ) (call : ToolCall) (id : String) (turn : ModelTurn)
      (s : Session F W)
      → IsReliable float platform
      → IsHeld float c s
      → s.journal.state.phase ≡ tools_phase
      → IsCalling float s.journal.state turn
      → IsOpen float s.journal.state
      → (s.journal.state.tool_cursor < length s.journal.state.pending)
      → (is_length turn.finish_reason ≡ false)
      → (measure s.journal.state ≤ suc n)
      → Holds float platform c (IsBelow float platform (suc n)) (call_step float platform call id s)
  unfolding call_step
  call_step-Holds c n call id turn s reliable held e calling fresh cursor full below =
      let z = s.journal.state in
      let y = reserved float platform z in
      let (t0, t1, t2, t3, t4) = calling in
      let calling' : IsCalling float y turn = (t0, t1, t2, t3, (cursor, full)) in
      let ended = stop float platform tool_limit none (some "Tool-call budget exhausted") s in
      let begun =
        and_then (save float platform y (tool_requested call) (called float platform id))
          (λ saved. dispatch float platform call id) s in
      if-Holds float platform c (IsBelow float platform (suc n)) z.tool_reserved
        (dispatch float platform call id s)
        (if leb z.limits.max_tool_calls z.tool_calls then ended else begun)
        (λ taken. dispatch-Holds c (suc n) call id turn s reliable held e calling fresh taken below)
        (λ free.
          if-Holds float platform c (IsBelow float platform (suc n))
            (leb z.limits.max_tool_calls z.tool_calls) ended begun
            (λ most.
              let used : z.tool_calls ≡ z.limits.max_tool_calls =
                omega (arith, held.1.1.2, leb_le most) in
              IsBelow-of_ended float platform c n ended (
                stop-Holds float platform c tool_limit none (some "Tool-call budget exhausted") s
                  held fresh free (omega arith) (used, refl)))
            (λ more.
              let room : z.tool_calls < z.limits.max_tool_calls = leb_lt more in
              and_then-Holds float platform c (λ a. a ≡ y) (IsBelow float platform (suc n))
                (save float platform y (tool_requested call) (called float platform id))
                (λ done. dispatch float platform call id) s
                (save-Holds float platform c y (tool_requested call) (called float platform id) s
                  held
                  (reserved-IsSound float platform turn z held.1 e calling fresh free room cursor
                    full)
                  held.2)
                (λ done t h q.
                  dispatch-Holds c (suc n) call id turn t reliable h (rw q e) (rw q calling')
                    (rw q fresh) (rw q refl)
                    (rw (q, e) (omega (arith, room, rw (e, free) at below))))))

  -- Only the call at the cursor is left to make, or the phase ends.
  pub calls_step-Holds :
      (c : Configuration F) (n : ℕ) (turn : ModelTurn) (s : Session F W)
      → IsReliable float platform
      → IsHeld float c s
      → s.journal.state.phase ≡ tools_phase
      → IsCalling float s.journal.state turn
      → IsOpen float s.journal.state
      → (is_length turn.finish_reason ≡ false)
      → (measure s.journal.state ≤ suc n)
      → Holds float platform c (IsBelow float platform (suc n)) (calls_step float platform s)
  unfolding calls_step
  calls_step-Holds c n turn s reliable held e calling fresh full below =
      let z = s.journal.state in
      let (t0, t1, t2, t3, t4) = calling in
      let id = platform.call_id z.model_calls (z.tool_cursor + 1) in
      elim (Bool-cases (eqb z.tool_cursor (length z.pending))) [
        | inl k ↦
            let y = ready float platform z in
            let last : z.tool_cursor ≡ length z.pending = ground arith in
            simp k (
              weaken-Holds float platform c (λ x. x ≡ y) (IsBelow float platform (suc n))
                (save float platform y model_ready no_identifiers s)
                (save-Holds float platform c y model_ready no_identifiers s held
                  (ready-IsSound float platform turn z held.1 calling fresh last) held.2)
                (λ x q. rw q (omega (arith, rw e at below))))
        | inr k ↦
            let more : z.tool_cursor < length z.pending = ground arith in
            let (call, found) = nth-some z.tool_cursor z.pending more in
            simp (k, found)
              (call_step-Holds c n call id turn s reliable held e calling fresh more full below)
      ]

  -- the decision on the saved response, and its calls
  saved_step-Holds :
      (c : Configuration F) (n : ℕ) (turn : ModelTurn) (s : Session F W)
      → IsReliable float platform
      → IsHeld float c s
      → s.journal.state.phase ≡ tools_phase
      → IsCalling float s.journal.state turn
      → IsOpen float s.journal.state
      → (measure s.journal.state ≤ suc n)
      → Holds float platform c (IsBelow float platform (suc n)) (saved_step float platform turn s)
  unfolding saved_step
  saved_step-Holds c n turn s reliable held e calling fresh below =
      let z = s.journal.state in
      let (t0, t1, t2, t3, t4) = calling in
      elim (Bool-cases (is_length turn.finish_reason)) [
        | inl k ↦ simp k (
            IsBelow-of_ended float platform c n (stop_cut float platform turn s) (
              stop_cut-Holds float platform c turn s held fresh
                (cut_free z.tool_reserved z.tool_cursor z.pending turn k t4) t3))
        | inr k ↦ elim (Bool-cases (is_empty z.pending)) [
          | inl k' ↦
              simp (k, k')
                (IsBelow-of_ended float platform c n (stop_final float platform turn.content s) (
                  stop_final-Holds float platform c turn.content s held fresh
                    (empty_free z.tool_reserved z.tool_cursor z.pending turn k' t4) t3))
          | inr k' ↦
              simp (k, k') (calls_step-Holds c n turn s reliable held e calling fresh k below)
        ]
      ]
    where
      cut_free :
          (b : Bool) (cursor : ℕ) (pending : List ToolCall) (turn : ModelTurn)
          → is_length turn.finish_reason ≡ true
          → IsReserved b cursor pending turn
          → b ≡ false
      cut_free false cursor pending turn k h = refl
      cut_free true cursor pending turn k (_, h) = absurd (cc (k, h))

      empty_free :
          (b : Bool) (cursor : ℕ) (pending : List ToolCall) (turn : ModelTurn)
          → is_empty pending ≡ true
          → IsReserved b cursor pending turn
          → b ≡ false
      empty_free false cursor pending turn k h = refl
      empty_free true cursor [] turn k (h, _) = absurd (omega arith)
      empty_free true cursor (p ∷ ps) turn k h = absurd (cc k)

  -- an iteration in the phase "tools"
  pub tools_step-Holds :
      (c : Configuration F) (n : ℕ) (s : Session F W)
      → IsReliable float platform
      → IsHeld float c s
      → s.journal.state.phase ≡ tools_phase
      → (measure s.journal.state ≤ suc n)
      → Holds float platform c
          (IsBelow float platform (suc n))
          (tools_step float platform s.journal.state.last_turn s)
  tools_step-Holds c n s reliable held e below =
      let z = s.journal.state in
      let ((turn, calling), fresh) : IsIn float tools_phase z =
        subst (λ p. IsIn float p z) e held.1.3 in
      subst
        (λ t.
          Holds float platform c (IsBelow float platform (suc n)) (tools_step float platform t s))
        (sym calling.0) (saved_step-Holds c n turn s reliable held e calling fresh below)
