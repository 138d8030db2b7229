-- ===== src/ChatStream/Endpoint.antt =====
-- `_use_mock`, `_turnstile_enforced` and `chat_stream` of chat.py. The environment is a look-up, `lower`
-- Python's `str.lower`; `v` is the verifier that `get_turnstile_verifier` gives. A response is taken
-- with the frames that its generator yields when the client reads it to the end.
pub mod Laws
use agentcook.Prelude.{
  String, ℕ, Bool, true, false, ◌||◌, List, [], ◌∷◌, Option, none, some, is_empty, if◌then◌else◌,
}
use agentcook.Prelude.Chars.{Chars, codes, same, strip, split}
use agentcook.Fallback.Chain.{Failure}
use agentcook.Turnstile.Verifier.{TurnstileDecision, TurnstileVerifier, Post, Answer, verify}
use agentcook.ChatStream.Frames.{
  ChatStreamRequest, ChatStreamFrame, Created, stream_mock_response, stream_real_response,
}

-- `os.environ.get(name, "")`.
abbrev pub env_or_empty : Option Chars → Chars
env_or_empty none = []
env_or_empty (some s) = s

abbrev pub is_yes : Chars → Bool
is_yes flag = same flag (codes "true") || same flag (codes "1") || same flag (codes "yes")

-- The first address of the header, if it is set and not empty.
unfoldable pub remote_ip_of : Option Chars → Option Chars
remote_ip_of none = none
remote_ip_of (some []) = none
remote_ip_of (some (c ∷ header)) = elim (split 44 (c ∷ header)) [
  | [] ↦ some []
  | ip ∷ rest ↦ some (strip ip)
]

-- What the endpoint answers with: an error's status, or a stream. `raised` is an exception that is no
-- HTTP error.
pub data Response : Type 0 where
  bad_request raised : Response
  unauthorized : String → List String → Response
  streaming : List ChatStreamFrame → Response

module _ (environ : String → Option Chars) (lower : Chars → Chars) where
  unfoldable pub use_mock : Bool
  use_mock =
      let flag = lower (strip (env_or_empty (environ "AGENTCOOK_CHAT_MOCK"))) in
      if is_yes flag then true else is_empty (env_or_empty (environ "AGENTCOOK_LLM_PROVIDER"))

  unfoldable pub turnstile_enforced : Bool
  turnstile_enforced =
      if use_mock
      then false
      else is_yes (lower (strip (env_or_empty (environ "AGENTCOOK_TURNSTILE_ENFORCE"))))

  module _ {Float World : Type 0} (describe : Failure → Chars) (chars : String → Chars)
      (duration : ℕ) (create : World → Created Float World × World)
      (post : Post → World → Answer × World) (v : TurnstileVerifier) where
    unfoldable pub start_stream : ChatStreamRequest Float → World → Response × World
    start_stream request world =
        if use_mock
        then (streaming (stream_mock_response request), world)
        else let (frames, world') =
            stream_real_response describe chars duration create request world in
          (streaming frames, world')

    -- What follows the decision of the verifier.
    unfoldable pub after_decision :
        ChatStreamRequest Float → Option TurnstileDecision × World → Response × World
    after_decision request (none, world) = (raised, world)
    after_decision request (some decision, world) =
        if decision.verified
        then start_stream request world
        else (unauthorized decision.reason decision.error_codes, world)

    unfoldable pub chat_stream :
        ChatStreamRequest Float → Option Chars → Option Chars → World → Response × World
    chat_stream request x_turnstile_token x_forwarded_for world =
        if is_empty (strip request.session_id)
        then (bad_request, world)
        else if turnstile_enforced
        then after_decision request
            (verify post v x_turnstile_token (remote_ip_of x_forwarded_for) world)
        else start_stream request world
