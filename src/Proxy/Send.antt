-- ===== src/Proxy/Send.antt =====
-- The requests that crates/omega-core/src/proxy.rs sends to a `llama-server`: `send_non_stream_to`,
-- and what its callers share with it. The HTTP client, serde's derived conversions and the servers
-- that answer are outside the source: a record of functions.
use ashat_coding_agent.Base.{
  ℕ, zero, suc, ◌+◌, ◌/◌, ◌%◌, ◌^◌, Bool, false, Option, none, some, List, [], ◌∷◌, ◌++◌, String,
  ltb, if◌then◌else◌,
}
use ashat_coding_agent.Base.Text.{Text, codes}
use ashat_coding_agent.Base.Result.{Result, ok, err, ◌>>=◌}
use ashat_coding_agent.Json.{Value, boolean, with_member, get, as_u64, or_else}
use ashat_coding_agent.Types.{ChatRequest, ProxyError, connection, status, decode}
use ashat_coding_agent.Proxy.{Item}

-- A POST to `/v1/chat/completions`. `secure` is `https`; `events` asks for an event stream.
pub record Post : Type 0 where
  pub secure : Bool
  pub host : String
  pub port : ℕ
  pub api_key : Option String
  pub events : Bool
  pub body : Value

-- What `send` and, for a success, `response.json()` come to.
pub data Reply : Type 0 where
  unsent : String → Reply
  refused : (code : ℕ) → Reply
  malformed : String → Reply
  json : Value → Reply

-- What `send` comes to where the body is read as a stream.
pub data Opened : Type 0 where
  unsent : String → Opened
  refused : (code : ℕ) → Opened
  body : List Item → Opened

pub record Upstream (C : Type 0) : Type 0 where
  pub build_error : Option String
  pub to_value : ChatRequest → Result String Value
  pub from_value : Value → Result String C
  pub send : Post → Reply
  pub open_stream : Post → Opened

-- `Client::builder().build()` with its error.
abbrev pub built : Option String → Result ProxyError (Unit {0})
built none = ok tt
built (some e) = err (connection e)

abbrev pub or_decode {ℓ} : {A : Type ℓ} → Result String A → Result ProxyError A
or_decode (ok a) = ok a
or_decode (err e) = err (decode e)

abbrev pub received : Reply → Result ProxyError Value
received (Reply.unsent e) = err (connection e)
received (Reply.refused code) = err (status code)
received (malformed e) = err (decode e)
received (json v) = ok v

abbrev pub with_stream : Bool → Value → Value
with_stream b v = with_member (codes "stream") (boolean b) v

unfoldable pub send_non_stream_to :
    {C : Type 0} → Upstream C → (host : String) → (port : ℕ) → ChatRequest → Result ProxyError Value
send_non_stream_to u host port request = built u.build_error >>= λ _.
    or_decode (u.to_value request) >>= λ body. received (
      u.send (record {
        secure = false;
        host = host;
        port = port;
        api_key = none;
        events = false;
        body = with_stream false body;
      }))

abbrev pub tokens : Text → Option Value → ℕ
tokens key usage = or_else 0 (as_u64 (get key usage)) % 2 ^ 32

-- The token counts of a reply, with the casts to `u32`.
unfoldable pub usage_tokens : Value → ℕ × ℕ
usage_tokens v =
    let usage = get (codes "usage") (some v) in
    (tokens (codes "prompt_tokens") usage, tokens (codes "completion_tokens") usage)

-- `to_string` of a port: 5 digits at most.
abbrev pub digits : ℕ → ℕ → Text
digits zero n = []
digits (suc f) n =
    let rest = digits f (n / 10) in if ltb n 10 then (48 + n) ∷ [] else rest ++ (48 + n % 10) ∷ []

unfoldable pub port_text : ℕ → Text
port_text = digits 5
