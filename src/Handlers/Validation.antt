-- ===== src/Handlers/Validation.antt =====
-- Which requests `chat` refuses before it does anything.
use ashat_coding_agent.Base.{
  ℕ, ◌+◌, ◌≤◌, ◌<◌, ◌≡◌, ◌≢◌, refl, ◌⊎◌, inl, inr, Bool, true, false, Option, none, some, String,
  List, [], ◌∷◌, length, leb, ltb, arith, if◌then◌else◌,
}
use ashat_coding_agent.Base.Result.{Result, ok, err}
use ashat_coding_agent.Types.{ChatRequest, ChatMessage}
use ashat_coding_agent.Proxy.{Bytes}
use ashat_coding_agent.Handlers.{max_body, messages_checked, json_checked, size_checked, validate}

-- axum reads a body up to its limit, and fails beyond it.
abbrev pub Reads : Bytes → (ℕ → Option Bytes) → Type 0
Reads raw to_bytes =
    (limit : ℕ) → to_bytes limit ≡ (if leb (length raw) limit then some raw else none)

-- Why a request is refused.
abbrev pub IsRefused : (Bytes → Option ChatRequest) → Bytes → String → Type 0
IsRefused from_slice raw message =
    ((message ≡ "Request body too large") × (length raw ≡ max_body + 1))
    ⊎ (((message ≡ "Invalid JSON body")
          × ((max_body + 1 < length raw) ⊎ ((length raw ≤ max_body) × (from_slice raw ≡ none))))
        ⊎ ((message ≡ "Missing or empty messages")
            × (length raw ≤ max_body)
            × (r : ChatRequest) × (from_slice raw ≡ some r)
            × (r.messages ≡ [])))

abbrev pub IsAccepted : (Bytes → Option ChatRequest) → Bytes → ChatRequest → Type 0
IsAccepted from_slice raw r =
    (length raw ≤ max_body) × (from_slice raw ≡ some r) × (r.messages ≢ [])

module _ (from_slice : Bytes → Option ChatRequest) (raw : Bytes) where
  abbrev pub Judged : Result String ChatRequest → Type 0
  Judged (ok r) = IsAccepted from_slice raw r
  Judged (err message) = IsRefused from_slice raw message

  messages_checked-Judged :
      (r : ChatRequest) (ms : List ChatMessage)
      → length raw ≤ max_body
      → from_slice raw ≡ some r
      → r.messages ≡ ms
      → Judged (messages_checked r ms)
  messages_checked-Judged r [] small parsed e = inr (inr (refl, small, r, parsed, e))
  messages_checked-Judged r (m ∷ ms) small parsed e = (small, parsed, (λ empty. cc (e, empty)))

  json_checked-Judged :
      (parsed : Option ChatRequest)
      → length raw ≤ max_body
      → from_slice raw ≡ parsed
      → Judged (json_checked parsed)
  json_checked-Judged none small e = inr (inl (refl, inr (small, e)))
  json_checked-Judged (some r) small e = messages_checked-Judged r r.messages small e refl

  read-Judged :
      (fits large : Bool)
      → leb (length raw) (max_body + 1) ≡ fits
      → ltb max_body (length raw) ≡ large
      → Judged (size_checked from_slice (if fits then some raw else none))
  read-Judged false large e f = inr (inl (refl, inl (ground (arith, e))))
  read-Judged true true e f = rw f (inl (refl, ground (arith, e, f)))
  read-Judged true false e f = rw f (json_checked-Judged (from_slice raw) (ground (arith, f)) refl)

  pub validate-Judged :
      (to_bytes : ℕ → Option Bytes) → Reads raw to_bytes → Judged (validate from_slice to_bytes)
  unfolding validate
  validate-Judged to_bytes reads =
      rw (reads (max_body + 1))
        (read-Judged (leb (length raw) (max_body + 1)) (ltb max_body (length raw)) refl refl)
