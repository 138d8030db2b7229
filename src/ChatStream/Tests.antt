-- ===== src/ChatStream/Tests.antt =====
-- Runs of the streaming endpoint, and the theorems at those.
use mathlib.Core.Option
use agentcook.Prelude.{
  String, ℕ, ◌+◌, ◌≡◌, ◌⊎◌, refl, true, false, List, [], ◌∷◌, Option, none, some, is_empty, str_eq,
  if◌then◌else◌,
}
use agentcook.Prelude.Chars.{Chars, codes, same, strip, strip_by, strip_left, strip_right}
use agentcook.Fallback.Chain.{Failure, failed}
use agentcook.Turnstile.Verifier.{
  TurnstileVerifier, Post, Answer, answered, object, is_short_circuited, is_blank, verify,
  verify_via_worker, call_upstream, read_answer, read_payload,
}
use agentcook.Turnstile.Laws.{IsAccepting}
use agentcook.ChatStream.Frames.{
  ChatStreamRequest, ChatStreamFrame, ChatChunk, ChatProvider, Created, created,
  stream_real_response, frames_of, content_frames, last_frame,
}
use agentcook.ChatStream.Frames.Laws.{
  IsStream, text_of, error_of, delivered, stream_real_response-IsStream,
}
use agentcook.ChatStream.Endpoint.{
  bad_request, unauthorized, streaming, use_mock, turnstile_enforced, start_stream, after_decision,
  chat_stream,
}
use agentcook.ChatStream.Endpoint.Laws.{chat_stream-IsStream, Refusal, chat_stream-Refusal}

-- The world counts the calls.
abbrev failure : Failure
failure = record { status = some 503; text = "overloaded" }

abbrev chunks : List ChatChunk
chunks =
    record { delta_content = codes "Hel"; finish_reason = none }
    ∷ record { delta_content = []; finish_reason = none }
    ∷ record { delta_content = codes "lo"; finish_reason = some "stop" }
    ∷ []

abbrev provider : ChatProvider ℕ ℕ
provider = record {
  model_name = "qwen-plus";
  context_window = 32000;
  count_tokens = λ s. 0;
  chat = λ call calls. (failed failure, calls + 1);
  stream_chat = λ call calls. (record { chunks = chunks; ending = some failure }, calls + 1);
}

abbrev create : ℕ → Created ℕ ℕ × ℕ
create calls = (created provider, calls)

abbrev describe : Failure → Chars
describe e = codes "ProviderError: overloaded"

abbrev chars : String → Chars
chars s = codes "qwen-plus"

abbrev request : ChatStreamRequest ℕ
request = record {
  session_id = codes "s1";
  message = codes "hi";
  plugin_ids = [];
  model = none;
  temperature = none;
  max_tokens = some 64;
}

abbrev blank_request : ChatStreamRequest ℕ
blank_request = record {
  session_id = codes " ";
  message = codes "hi";
  plugin_ids = [];
  model = none;
  temperature = none;
  max_tokens = none;
}

abbrev environ : String → Option Chars
environ name =
    if str_eq name "AGENTCOOK_CHAT_MOCK"
    then none
    else if str_eq name "AGENTCOOK_LLM_PROVIDER"
    then some (codes "qwen")
    else some (codes " 1")

abbrev lower : Chars → Chars
lower s = s

abbrev post : Post → ℕ → Answer × ℕ
post call calls = (answered 200 (object true (some [])), calls + 1)

abbrev verifier : TurnstileVerifier
verifier = record {
  worker_url = codes "https://worker";
  cloudflare_secret = [];
  dev_short_circuit = false;
}

abbrev token : Option Chars
token = some (codes "abc")

-- The text before a failure reaches the client, and so does the error.
stream_real_response_run :
    text_of (stream_real_response describe chars 7 create request 0).0 ≡ codes "Hello"
unfolding stream_real_response frames_of content_frames last_frame
stream_real_response_run = refl

stream_real_response-IsStream_example :
    let frames = (stream_real_response describe chars 7 create request 0).0 in
    IsStream request.session_id frames
    × (text_of frames ≡ (delivered request (create 0)).0)
    × (error_of frames ≡ Option.map describe (delivered request (create 0)).1)
stream_real_response-IsStream_example =
    stream_real_response-IsStream describe chars 7 request create 0

abbrev sent : List ChatStreamFrame
sent = (stream_real_response describe chars 7 create request 1).0

chat_stream_run :
    (chat_stream environ lower describe chars 7 create post verifier request token
      (some (codes "10.0.0.1, 10.0.0.2"))
      0)
    ≡ (streaming sent, 2)
unfolding chat_stream turnstile_enforced use_mock after_decision start_stream verify
    verify_via_worker call_upstream read_answer read_payload stream_real_response frames_of
    content_frames last_frame same strip_by strip_left strip_right
chat_stream_run = refl

chat_stream-IsStream_example :
    (is_empty (strip request.session_id) ≡ false)
    × ((turnstile_enforced environ lower ≡ false)
        ⊎ (is_short_circuited post verifier ≡ true)
        ⊎ ((is_blank post verifier token ≡ false) × (call : Post) × IsAccepting (post call 0).0))
    × IsStream request.session_id sent
chat_stream-IsStream_example =
    chat_stream-IsStream environ lower describe chars 7 create post verifier request token
      (some (codes "10.0.0.1, 10.0.0.2")) 0 sent
      (unfold chat_stream turnstile_enforced use_mock after_decision start_stream verify
          verify_via_worker call_upstream read_answer read_payload stream_real_response frames_of
          content_frames last_frame same strip_by strip_left strip_right in
        refl)

chat_stream-Refusal_example :
    ((frames : List ChatStreamFrame) × ((chat_stream environ lower describe chars 7 create post
          verifier request none none 0).0
        ≡ streaming frames))
    ⊎ Refusal environ lower post verifier request none none 0
        (chat_stream environ lower describe chars 7 create post verifier request none none 0)
chat_stream-Refusal_example =
    chat_stream-Refusal environ lower describe chars 7 create post verifier request none none 0

-- Without a token nobody is called.
missing_run :
    chat_stream environ lower describe chars 7 create post verifier request none none 0
    ≡ (unauthorized "missing_token" [], 0)
unfolding chat_stream turnstile_enforced use_mock after_decision verify same strip_by strip_left
    strip_right
missing_run = refl

blank_run :
    (chat_stream environ lower describe chars 7 create post verifier blank_request token none 0)
    ≡ (bad_request, 0)
unfolding chat_stream same strip_by strip_left strip_right
blank_run = refl
