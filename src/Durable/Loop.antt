-- ===== src/Durable/Loop.antt =====
-- The whole loop: it ends, and with a result or an exception.
use agent_fault_lab.Prelude.{
  ℕ, zero, suc, ◌≤◌, ◌≡◌, refl, subst, Bool, true, false, Option, none, some, arith, if◌then◌else◌,
}
use agent_fault_lab.Exceptions.{Result, ok, raised}
use agent_fault_lab.Float.{Float}
use agent_fault_lab.Model.{RunResult}
use agent_fault_lab.Journal.{RunState, Phase, model_phase, tools_phase, terminal_phase, is_terminal}
use agent_fault_lab.Journal.Sound.{IsIn, IsStopped, IsCounted, IsConfigured}
use agent_fault_lab.Durable.{Session, Platform, step, model_step, drive, continued}
use agent_fault_lab.Durable.Kept.{
  Configuration, measure, remaining, IsHeld, Holds, weaken-Holds, IsReliable,
}
use agent_fault_lab.Durable.Ask.{IsEnded, IsBelow, model_step-Holds}
use agent_fault_lab.Durable.Calls.{tools_step-Holds}

module _ {F W : Type 0} (float : Float F) (platform : Platform F W) where
  -- an iteration leaves less to do
  step-Holds :
      (c : Configuration F) (n : ℕ) (p : Phase) (s : Session F W)
      → IsReliable float platform
      → IsHeld float c s
      → s.journal.state.phase ≡ p
      → is_terminal p ≡ false
      → (measure s.journal.state ≤ suc n)
      → Holds float platform c (IsBelow float platform (suc n)) (step float platform p s)
  step-Holds c n model_phase s reliable held e going below =
      weaken-Holds float platform c (IsBelow float platform (remaining model_phase s.journal.state))
        (IsBelow float platform (suc n)) (model_step float platform s)
        (model_step-Holds float platform c s reliable held e)
        (λ z k. omega (arith, k, rw e at below))
  step-Holds c n tools_phase s reliable held e going below =
      tools_step-Holds float platform c n s reliable held e below
  step-Holds c n terminal_phase s reliable held e going below = absurd (cc going)

  abbrev pub Ends : Configuration F → Option (Result (Unit {0}) × Session F W) → Type 0
  Ends c o = (p : Result (Unit {0}) × Session F W) × (o ≡ some p) × Holds float platform c IsEnded p

  continued-Ends :
      (c : Configuration F) (n : ℕ) (o : Result (Unit {0}) × Session F W)
      → Holds float platform c (IsBelow float platform (suc n)) o
      → ((s : Session F W)
          → IsHeld float c s
          → (measure s.journal.state ≤ n)
          → Ends c (drive float platform n s))
      → Ends c (continued float platform (drive float platform n) o)
  continued-Ends c n (ok done, s) (held, below) k = k s held (omega (arith, below))
  continued-Ends c n (raised e, s) (held, q) k = ((raised e, s), refl, (held, q))

  open_measure :
      (p : Phase) (s : RunState F) → s.phase ≡ p → is_terminal p ≡ false → (1 ≤ measure s)
  open_measure model_phase s e k = rw e (omega arith)
  open_measure tools_phase s e k = rw e (omega arith)
  open_measure terminal_phase s e k = absurd (cc k)

  ended : (p : Phase) → is_terminal p ≡ true → p ≡ terminal_phase
  ended model_phase k = absurd (cc k)
  ended tools_phase k = absurd (cc k)
  ended terminal_phase k = refl

  if-Ends :
      (c : Configuration F) (b : Bool) (s : Session F W)
      (o : Option (Result (Unit {0}) × Session F W))
      → (b ≡ true → Holds float platform c IsEnded (ok tt, s))
      → (b ≡ false → Ends c o)
      → Ends c (if b then some (ok tt, s) else o)
  if-Ends c true s o h k = ((ok tt, s), refl, h refl)
  if-Ends c false s o h k = k refl

  pub drive-Ends :
      (c : Configuration F) (n : ℕ) (s : Session F W)
      → IsReliable float platform
      → IsHeld float c s
      → (measure s.journal.state ≤ n)
      → Ends c (drive float platform n s)
  unfolding drive
  drive-Ends c zero s reliable held below =
      let p = s.journal.state.phase in
      if-Ends c (is_terminal p) s none (λ k. (held, ended p k))
        (λ k. absurd (omega (arith, open_measure p s.journal.state refl k)))
  drive-Ends c (suc n) s reliable held below =
      let p = s.journal.state.phase in
      if-Ends c (is_terminal p) s
        (continued float platform (drive float platform n) (step float platform p s))
        (λ k. (held, ended p k))
        (λ k.
          continued-Ends c n (step float platform p s)
            (step-Holds c n p s reliable held refl k below)
            (λ s' held' less. drive-Ends c n s' reliable held' less))

  -- a result whose counts are the run's, and whose status is explained by them
  abbrev pub HasResult : RunState F → Type 0
  HasResult z = (r : RunResult) × IsStopped float z r

  has_result :
      (c : Configuration F) (p : Result (Unit {0}) × Session F W)
      → Holds float platform c IsEnded p
      → Holds float platform c HasResult p
  has_result c (ok done, s) (held, e) =
      let (r, stopped) : IsIn float terminal_phase s.journal.state =
        subst (λ p. IsIn float p s.journal.state) e held.1.3 in
      (held, (r, stopped))
  has_result c (raised e, s) (held, q) = (held, q)

  -- the largest budgets that the validators accept
  measure_bound :
      (p : Phase) (z : RunState F)
      → IsConfigured float z
      → IsCounted float z
      → z.phase ≡ p
      → (measure z ≤ 20)
  measure_bound terminal_phase z h k e = rw e (omega arith)
  measure_bound model_phase z (_, _, (_, m), (_, t), _) (_, _, c, d) e =
      rw e (omega (arith, m, t, c, d))
  measure_bound tools_phase z (_, _, (_, m), (_, t), _) (_, _, c, d) e =
      rw e (omega (arith, m, t, c, d))

  -- From any session that is held, on a platform whose supervisor changes only the execution and
  -- keeps that within its limits, and whose responses equal themselves under `==`, the loop ends
  -- within twenty iterations: with an exception that the platform raised, or with a result whose
  -- counts are the run's, within their budgets, and whose status they and its content explain. The
  -- session is held again, with the same configuration.
  pub drive-Holds :
      (c : Configuration F) (s : Session F W)
      → IsReliable float platform
      → IsHeld float c s
      → (p : Result (Unit {0}) × Session F W) × (drive float platform 20 s ≡ some p)
        × Holds float platform c HasResult p
  drive-Holds c s reliable held =
      let z = s.journal.state in
      let bound = measure_bound z.phase z held.1.0 held.1.1 refl in
      let (p, ends, h) = drive-Ends c 20 s reliable held bound in (p, ends, has_result c p h)
