-- ===== src/ToolLoop/Agent/Trail.antt =====
-- The message trail of a run and its budget.
use ashat_coding_agent.Base.{
  ℕ, zero, suc, ◌+◌, ◌<◌, ◌≡◌, refl, ap, sym, subst, ◌∙◌, Option, none, some, List, [], ◌∷◌, ◌++◌,
  arith, length, ◌⊎◌, inl, inr,
}
use mathlib.Core.List.{append_assoc, append-nil}
use ashat_coding_agent.Base.Map.{nat_eq}
use ashat_coding_agent.Base.Text.{Text}
use ashat_coding_agent.Base.Result.{Result, ok, err}
use ashat_coding_agent.Types.{ProxyError}
use ashat_coding_agent.ToolLoop.Agent.{
  Action, answer, tool, nothing, extract_content, parse_response, ToolOutcome, RunState, assistant,
  tool_result, reminder, act, tool_state, reminded_state, after_tool, and_go, replied, run_loop,
}
use ashat_coding_agent.Json.{Value, or_else}
use ashat_coding_agent.Types.{ChatMessage}

-- The two messages of a round without an answer.
pub data Turn : Type 0 where
  tool_turn : (text id output : Text) → Turn
  reminder_turn : (text : Text) → Turn

abbrev pub turn_messages : Turn → List ChatMessage
turn_messages (tool_turn text id output) = assistant text ∷ tool_result id output ∷ []
turn_messages (reminder_turn text) = assistant text ∷ reminder ∷ []

abbrev pub trail : List Turn → List ChatMessage
trail [] = []
trail (t ∷ ts) = turn_messages t ++ trail ts

abbrev pub tool_turns : List Turn → ℕ
tool_turns [] = 0
tool_turns (tool_turn text id output ∷ ts) = suc (tool_turns ts)
tool_turns (reminder_turn text ∷ ts) = tool_turns ts

module _ {W : Type 0} (from_str : Text → Option Value) (to_lowercase : Text → Text)
    (execute : Text → Value → W → Option ToolOutcome × W)
    (sender : ℕ → List ChatMessage → Option (Result ProxyError Value)) where
  abbrev parsed : Value → Action
  parsed = parse_response from_str to_lowercase

  -- A round without an answer, from the model's reply and the workspace to the workspace behind it.
  abbrev pub IsTurn : Value → W → Turn → W → Type 0
  IsTurn v w (tool_turn text id output) w' =
      (text ≡ or_else [] (extract_content v))
      × (name : Text) × (args : Value) × (parsed v ≡ tool id name args)
      × (o : ToolOutcome) × (execute name args w ≡ (some o, w'))
      × (output ≡ o.output)
  IsTurn v w (reminder_turn text) w' =
      (text ≡ or_else [] (extract_content v)) × (parsed v ≡ nothing) × (w' ≡ w)

  -- The rounds come about one behind the other, each by the model's reply to the messages so far.
  abbrev pub Played :
      List Turn → ℕ → List ChatMessage → W → (ℕ → List ChatMessage → W → Type 0) → Type 0
  Played [] call ms w end = end call ms w
  Played (t ∷ ts) call ms w end =
      (v : Value) × (sender call ms ≡ some (ok v))
      × (w' : W) × IsTurn v w t w'
      × Played ts (suc call) (ms ++ turn_messages t) w' end

  -- How the rounds end: all of them are used, or the next reply is an answer.
  abbrev pub IsDone : (n played : ℕ) → RunState → W → ℕ → List ChatMessage → W → Type 0
  IsDone n played s' last call ms w =
      (w ≡ last)
      × (((s'.answered ≡ none) × (played ≡ n))
          ⊎ ((a : Text) × (s'.answered ≡ some a)
              × (played < n)
              × (v : Value) × (sender call ms ≡ some (ok v))
              × (parsed v ≡ answer a)))

  -- What a run of at most `n` rounds makes of a state. Of a run that is cut off nothing is said.
  abbrev pub IsTrail : ℕ → ℕ → RunState → W → Option (Result ProxyError RunState) × W → Type 0
  IsTrail n call s w (none, last) = Unit
  IsTrail n call s w (some (err e), last) =
      (ts : List Turn) × (length ts < n)
      × Played ts call s.messages w (λ c ms w'. sender c ms ≡ some (err e))
  IsTrail n call s w (some (ok s'), last) =
      (ts : List Turn) × (s'.messages ≡ s.messages ++ trail ts)
      × (s'.iterations ≡ s.iterations + tool_turns ts)
      × Played ts call s.messages w (IsDone n (length ts) s' last)

  Played-end :
      (ts : List Turn) (call : ℕ) (ms : List ChatMessage) (w : W)
      (end more : ℕ → List ChatMessage → W → Type 0)
      → ((c : ℕ) → (l : List ChatMessage) → (u : W) → end c l u → more c l u)
      → Played ts call ms w end
      → Played ts call ms w more
  Played-end [] call ms w end more f h = f call ms w h
  Played-end (t ∷ ts) call ms w end more f (v, sent, w', turn, h) =
      (v, sent, w', turn, Played-end ts (suc call) (ms ++ turn_messages t) w' end more f h)

  tool_turns-cons :
      (t : Turn) (ts : List Turn) → tool_turns (t ∷ ts) ≡ tool_turns (t ∷ []) + tool_turns ts
  tool_turns-cons (tool_turn text id output) ts = omega arith
  tool_turns-cons (reminder_turn text) ts = omega arith

  -- A round in front of a run.
  cons-IsTrail :
      (n call : ℕ) (t : Turn) (s u : RunState) (w w' : W) (v : Value)
      (r : Option (Result ProxyError RunState) × W)
      → u.messages ≡ s.messages ++ turn_messages t
      → u.iterations ≡ s.iterations + tool_turns (t ∷ [])
      → sender call s.messages ≡ some (ok v)
      → IsTurn v w t w'
      → IsTrail n (suc call) u w' r
      → IsTrail (suc n) call s w r
  cons-IsTrail n call t s u w w' v (none, last) m i sent turn h = tt
  cons-IsTrail n call t s u w w' v (some (err e), last) m i sent turn (ts, few, h) = (
    t ∷ ts,
    omega (arith, few),
    (
      v,
      sent,
      w',
      turn,
      subst (λ l. Played ts (suc call) l w' (λ c ms x. sender c ms ≡ some (err e))) m h,
    ),
  )
  cons-IsTrail n call t s u w w' v (some (ok s'), last) m i sent turn (ts, p, q, h) = (
    t ∷ ts,
    p ∙ ap (λ l. l ++ trail ts) m ∙ append_assoc s.messages (turn_messages t) (trail ts),
    omega (arith, q, i, tool_turns-cons t ts),
    (
      v,
      sent,
      w',
      turn,
      subst (λ l. Played ts (suc call) l w' (IsDone (suc n) (suc (length ts)) s' last)) m
          (Played-end ts (suc call) u.messages w' (IsDone n (length ts) s' last)
            (IsDone (suc n) (suc (length ts)) s' last) (λ c ms x d. (d.0, later (d.1))) h),
    ),
  )
    where
      later :
          {c : ℕ} {ms : List ChatMessage}
          → (((s'.answered ≡ none) × (length ts ≡ n))
              ⊎ ((a : Text) × (s'.answered ≡ some a)
                  × (length ts < n)
                  × (x : Value) × (sender c ms ≡ some (ok x))
                  × (parsed x ≡ answer a)))
          → (((s'.answered ≡ none) × (suc (length ts) ≡ suc n))
              ⊎ ((a : Text) × (s'.answered ≡ some a)
                  × (suc (length ts) < suc n)
                  × (x : Value) × (sender c ms ≡ some (ok x))
                  × (parsed x ≡ answer a)))
      later (inl (a, l)) = inl (a, ap suc l)
      later (inr (a, e, l, x, y, z)) = inr (a, e, omega (arith, l), x, y, z)

  abbrev loop : ℕ → ℕ → RunState → W → Option (Result ProxyError RunState) × W
  loop = run_loop from_str to_lowercase execute sender

  loop-answered :
      (n call : ℕ) (s : RunState) (w : W) (a : Text)
      → s.answered ≡ some a
      → loop n call s w ≡ (some (ok s), w)
  unfolding run_loop
  loop-answered zero call s w a e = refl
  loop-answered (suc n) call s w a e = ground (arith, e)

  loop-asks :
      (n call : ℕ) (s : RunState) (w : W)
      → s.answered ≡ none
      → loop (suc n) call s w
        ≡ replied from_str to_lowercase execute sender
            (loop n (suc call))
            s
            w
            (sender call s.messages)
  unfolding run_loop
  loop-asks n call s w f = ground (arith, f)

  -- The rounds that follow keep their trail.
  abbrev Next : ℕ → ℕ → Type 0
  Next n call = (u : RunState) → (w : W) → u.answered ≡ none → IsTrail n call u w (loop n call u w)

  tool-IsTrail :
      (n call : ℕ) (s : RunState) (w : W) (v : Value) (id name : Text) (args : Value)
      (x : Option ToolOutcome × W)
      → s.answered ≡ none
      → sender call s.messages ≡ some (ok v)
      → parsed v ≡ tool id name args
      → execute name args w ≡ x
      → Next n (suc call)
      → IsTrail
          (suc n)
          call
          s
          w
          (and_go (loop n (suc call)) (after_tool (or_else [] (extract_content v)) id s x))
  tool-IsTrail n call s w v id name args (none, w') f sent p e next = tt
  tool-IsTrail n call s w v id name args (some o, w') f sent p e next =
      cons-IsTrail n call (tool_turn (or_else [] (extract_content v)) id o.output) s
        (tool_state (or_else [] (extract_content v)) id o s) w w' v
        (loop n (suc call) (tool_state (or_else [] (extract_content v)) id o s) w') refl refl sent
        (refl, name, args, p, o, e, refl)
        (next (tool_state (or_else [] (extract_content v)) id o s) w' f)

  act-IsTrail :
      (n call : ℕ) (s : RunState) (w : W) (v : Value) (action : Action)
      → s.answered ≡ none
      → sender call s.messages ≡ some (ok v)
      → parsed v ≡ action
      → Next n (suc call)
      → IsTrail (suc n) call s w (
          and_go
            (loop n (suc call))
            (act from_str to_lowercase execute sender (or_else [] (extract_content v)) action s w))
  unfolding act
  act-IsTrail n call s w v (answer a) f sent p next =
      let s' : RunState = record s {
        last_text = or_else [] (extract_content v);
        answered = some a;
      } in
      subst (IsTrail (suc n) call s w) (sym (loop-answered n (suc call) s' w a refl)) (
        [],
        sym (append-nil s.messages),
        omega arith,
        (refl, inr (a, refl, omega arith, v, sent, p)),
      )
  act-IsTrail n call s w v (tool id name args) f sent p next =
      tool-IsTrail n call s w v id name args (execute name args w) f sent p refl next
  act-IsTrail n call s w v nothing f sent p next =
      cons-IsTrail n call (reminder_turn (or_else [] (extract_content v))) s
        (reminded_state (or_else [] (extract_content v)) s) w w v
        (loop n (suc call) (reminded_state (or_else [] (extract_content v)) s) w) refl (omega arith)
        sent (refl, p, refl) (next (reminded_state (or_else [] (extract_content v)) s) w f)

  replied-IsTrail :
      (n call : ℕ) (s : RunState) (w : W) (x : Option (Result ProxyError Value))
      → s.answered ≡ none
      → sender call s.messages ≡ x
      → Next n (suc call)
      → IsTrail
          (suc n)
          call
          s
          w
          (replied from_str to_lowercase execute sender (loop n (suc call)) s w x)
  replied-IsTrail n call s w none f sent next = tt
  replied-IsTrail n call s w (some (err e)) f sent next = ([], omega arith, sent)
  replied-IsTrail n call s w (some (ok v)) f sent next =
      act-IsTrail n call s w v (parsed v) f sent refl next

  -- A run of at most `n` rounds from a state without an answer, if it is not cut off. Each round
  -- sends the messages so far. As long as the reply is no answer, the round adds two messages: the
  -- model's text, and the output of the tool that the reply calls, on the workspace as the rounds
  -- before have left it, or the reminder; `iterations` counts the tools. The run ends with the answer
  -- of the reply that follows fewer than `n` such rounds, without one after exactly `n`, or with the
  -- error of the first call that fails.
  pub run_loop-IsTrail :
      (n call : ℕ) (s : RunState) (w : W)
      → s.answered ≡ none
      → IsTrail n call s w (run_loop from_str to_lowercase execute sender n call s w)
  unfolding run_loop
  run_loop-IsTrail zero call s w f =
      ([], sym (append-nil s.messages), omega arith, (refl, inl (f, refl)))
  run_loop-IsTrail (suc n) call s w f =
      subst (IsTrail (suc n) call s w) (sym (loop-asks n call s w f)) (
        replied-IsTrail n call s w (sender call s.messages) f refl
          (λ u w' h. run_loop-IsTrail n (suc call) u w' h))
