-- ===== src/ToolLoop/Agent.antt =====
-- The agent loop of crates/omega-core/src/tool_loop.rs: `parse_response` and `ToolLoop::run` behind
-- `acquire`. The model's replies are an argument, by the number of the call and the messages sent;
-- so are the JSON parser and `to_lowercase`, and what the tool of a name does to the workspace. A reply
-- or an outcome that is `none` does not come: the tool panics, or the request's task is dropped there.
pub mod Trail
pub mod Closing
pub mod Tests
use ashat_coding_agent.Base.{
  ℕ, zero, suc, ◌+◌, ◌-◌, Bool, true, false, Option, none, some, List, [], ◌∷◌, ◌++◌, reverse,
  if◌then◌else◌,
}
use ashat_coding_agent.Base.Int.{ℤ, pos, negsuc}
use ashat_coding_agent.Base.Text.{Text, codes, text_eq}
use ashat_coding_agent.Base.Result.{Result, ok, err}
use ashat_coding_agent.Json.{
  Value, Items, null, string, array, object, item, no_members, member_of, get, first_item, as_str,
  or_else,
}
use ashat_coding_agent.Types.{ProxyError, Intent, ChatMessage}
use ashat_coding_agent.Metrics.{
  MetricRecord, MetricsStore, ErrorCategory, displayed, record_metric, mark_run_start,
  mark_run_finish,
}
use ashat_coding_agent.ToolLoop.{FilePath, is_whitespace}

abbrev trim_start : Text → Text
trim_start [] = []
trim_start (c ∷ s) = if is_whitespace c then trim_start s else c ∷ s

abbrev pub trim : Text → Text
trim s = reverse (trim_start (reverse (trim_start s)))

pub data Action : Type 0 where
  answer : Text → Action
  tool : (id name : Text) (args : Value) → Action
  nothing : Action

abbrev pub message_of : Value → Option Value
message_of v = get (codes "message") (first_item (get (codes "choices") (some v)))

-- A JSON pointer's `0` is an index of an array and a key of an object.
abbrev pub at_zero : Option Value → Option Value
at_zero (some (array (item v vs))) = some v
at_zero (some (object ms)) = member_of (codes "0") ms
at_zero _ = none

-- `pointer("/choices/0/message/content")`
unfoldable pub extract_content : Value → Option Text
extract_content v =
    as_str
      (get (codes "content") (get (codes "message") (at_zero (get (codes "choices") (some v)))))

abbrev answer_of : Text → Action
answer_of [] = nothing
answer_of (c ∷ s) = answer (c ∷ s)

unfoldable pub parse_response :
    (from_str : Text → Option Value) (to_lowercase : Text → Text) → Value → Action
parse_response from_str to_lowercase v =
    let message = message_of v in
    elim (first_item (get (codes "tool_calls") message)) [
      | some call ↦
          let function = some (or_else (object no_members) (get (codes "function") (some call))) in
          tool (or_else (codes "tool-call") (as_str (get (codes "id") (some call))))
            (to_lowercase (trim (or_else [] (as_str (get (codes "name") function)))))
            (or_else (object no_members)
              (from_str (or_else (codes "{}") (as_str (get (codes "arguments") function)))))
      | none ↦ elim (as_str (get (codes "content") message)) [
        | none ↦ nothing
        | some text ↦ answer_of (trim text)
      ]
    ]

pub record ToolOutcome : Type 0 where
  pub output : Text
  pub written : Option FilePath

pub record RunState : Type 0 where
  pub messages : List ChatMessage
  pub written : List FilePath
  pub answered : Option Text
  pub last_text : Text
  pub iterations : ℕ

-- The system prompt is an argument.
unfoldable pub new_run : (system : Text) → List ChatMessage → RunState
new_run system messages = record {
  messages = record { role = codes "system"; content = system; tool_call_id = none } ∷ messages;
  written = [];
  answered = none;
  last_text = [];
  iterations = 0;
}

abbrev pub assistant : Text → ChatMessage
assistant text = record { role = codes "assistant"; content = text; tool_call_id = none }

abbrev pub tool_result : Text → Text → ChatMessage
tool_result id output = record { role = codes "tool"; content = output; tool_call_id = some id }

abbrev pub reminder : ChatMessage
reminder = record {
  role = codes "user";
  content =
      codes
        "Your last response contained neither text nor a tool call. Return a final answer or use one of the declared tools.";
  tool_call_id = none;
}

abbrev with_written : Option FilePath → List FilePath → List FilePath
with_written none ps = ps
with_written (some p) ps = ps ++ p ∷ []

-- The end of a run: the model's answer, or its last text and the budget that was exceeded.
pub data FinalText : Type 0 where
  answered_text : Text → FinalText
  budget_exceeded : (last_text : Text) (budget : ℕ) → FinalText

abbrev pub final_text : ℕ → RunState → FinalText
final_text budget s = elim s.answered [
  | some a ↦ answered_text a
  | none ↦ budget_exceeded s.last_text budget
]

-- The fields of the response that are not fixed texts: `id` and `lane` show the port.
pub record ChatResponse : Type 0 where
  pub id : ℕ
  pub created : ℕ
  pub model : Text
  pub content : FinalText
  pub lane : Option ℕ
  pub prompt_tokens : ℕ
  pub completion_tokens : ℕ
  pub total_tokens : ℕ

abbrev seconds_of : ℤ → ℕ
seconds_of (pos n) = n
seconds_of (negsuc n) = 0

-- `file_name` is that of the model's path, if it has one that is text.
unfoldable pub build_response :
    (file_name : Option Text) → (port : ℕ) → (timestamp : ℤ) → FinalText → ChatResponse
build_response file_name port timestamp final = record {
  id = port;
  created = seconds_of timestamp;
  model = or_else (codes "coding-agent") file_name;
  content = final;
  lane = some port;
  prompt_tokens = 0;
  completion_tokens = 0;
  total_tokens = 0;
}

abbrev pub metric : ℕ → (start finish : ℕ) → Option ErrorCategory → Bool → MetricRecord
metric port start finish error success = record {
  timestamp = finish;
  intent = Intent.code;
  target_port = port;
  success = success;
  latency = finish - start;
  queue_wait = 0;
  prompt_tokens = 0;
  completion_tokens = 0;
  time_to_first_token = none;
  error_category = error;
}

-- What `run` does behind its rounds.
unfoldable pub finish_run :
    (budget port start finish : ℕ)
    → Result ProxyError RunState
    → MetricsStore
    → Result ProxyError FinalText × MetricsStore
finish_run budget port start finish (ok s) m = (
  ok (final_text budget s),
  record_metric (metric port start finish none true) (mark_run_finish port m),
)
finish_run budget port start finish (err e) m = (
  err e,
  record_metric (metric port start finish (some (displayed e)) false) (mark_run_finish port m),
)

-- The state behind a tool's outcome, and behind a reply with neither text nor a call.
abbrev pub tool_state : Text → Text → ToolOutcome → RunState → RunState
tool_state text id outcome s = record s {
  last_text = text;
  iterations = s.iterations + 1;
  written = with_written outcome.written s.written;
  messages = s.messages ++ assistant text ∷ tool_result id outcome.output ∷ [];
}

abbrev pub reminded_state : Text → RunState → RunState
reminded_state text s = record s {
  last_text = text;
  messages = s.messages ++ assistant text ∷ reminder ∷ [];
}

abbrev pub after_tool {ℓ} :
    {W : Type ℓ} → Text → Text → RunState → Option ToolOutcome × W → Option RunState × W
after_tool text id s (none, w) = (none, w)
after_tool text id s (some outcome, w) = (some (tool_state text id outcome s), w)

abbrev pub and_go {ℓ κ} :
    {W : Type ℓ} {A : Type κ} → (RunState → W → Option A × W) → Option RunState × W → Option A × W
and_go next (none, w) = (none, w)
and_go next (some s, w) = next s w

abbrev pub finished :
    (budget port start finish : ℕ)
    → Option (Result ProxyError RunState)
    → MetricsStore
    → Option (Result ProxyError FinalText) × MetricsStore
finished budget port start finish none m = (none, m)
finished budget port start finish (some r) m =
    let (final, m') = finish_run budget port start finish r m in (some final, m')

module _ {W : Type 0} (from_str : Text → Option Value) (to_lowercase : Text → Text)
    (execute : Text → Value → W → Option ToolOutcome × W)
    (sender : ℕ → List ChatMessage → Option (Result ProxyError Value)) where
  -- What the loop does with an action of the reply.
  unfoldable pub act : Text → Action → RunState → W → Option RunState × W
  act text (answer a) s w = (some (record s { last_text = text; answered = some a }), w)
  act text (tool id name args) s w = after_tool text id s (execute name args w)
  act text nothing s w = (some (reminded_state text s), w)

  abbrev pub replied :
      (RunState → W → Option (Result ProxyError RunState) × W)
      → RunState
      → W
      → Option (Result ProxyError Value)
      → Option (Result ProxyError RunState) × W
  replied next s w none = (none, w)
  replied next s w (some (err e)) = (some (err e), w)
  replied next s w (some (ok v)) =
      and_go next
        (act (or_else [] (extract_content v)) (parse_response from_str to_lowercase v) s w)

  -- The rounds that are left, and the number of the next call.
  unfoldable pub run_loop : ℕ → ℕ → RunState → W → Option (Result ProxyError RunState) × W
  run_loop zero call s w = (some (ok s), w)
  run_loop (suc n) call s w = elim s.answered [
    | some a ↦ (some (ok s), w)
    | none ↦ replied (run_loop n (suc call)) s w (sender call s.messages)
  ]

  -- `run` behind `acquire`, with the times at which it starts and ends.
  unfoldable pub run_held :
      (budget port start finish : ℕ) (s : RunState) (w : W) (m : MetricsStore)
      → Option (Result ProxyError FinalText) × MetricsStore × W
  run_held budget port start finish s w m =
      let (result, w') = run_loop budget 0 s w in
      let (final, m') = finished budget port start finish result (mark_run_start port start m) in
      (final, m', w')
