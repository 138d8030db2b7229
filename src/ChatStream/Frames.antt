-- ===== src/ChatStream/Frames.antt =====
-- `ChatStreamRequest` and `ChatStreamFrame` of schemas_chat.py, and the two generators of chat.py.
-- Texts are lists of code points; a request's temperature is a `Float`.
pub mod Laws
use agentcook.Prelude.{
  String, ℕ, ◌+◌, ◌*◌, Bool, true, false, not, List, [], ◌∷◌, ◌++◌, Option, none, some, length,
  is_empty, if◌then◌else◌,
}
use agentcook.Prelude.Chars.{Chars, codes}
use agentcook.Fallback.Chain.{Failure, Stream, Provider}

pub record ChatStreamRequest (Float : Type 0) : Type 0 where
  pub session_id : Chars
  pub message : Chars
  pub plugin_ids : List Chars
  pub model : Option Chars
  pub temperature : Option Float
  pub max_tokens : Option ℕ

-- The metadata of a terminal frame that the frames themselves determine; the request's id and the
-- provider's class name are left out.
pub record FrameMetadata : Type 0 where
  pub source : String
  pub model : Chars
  pub output_chars : Option ℕ
  pub finish_reason : Option String
  pub duration_ms : Option ℕ

pub record ChatStreamFrame : Type 0 where
  pub content : Chars
  pub done : Bool
  pub session_id : Option Chars
  pub error : Option Chars
  pub metadata : Option FrameMetadata

-- `ChatChunk`; tool call deltas are not forwarded.
pub record ChatChunk : Type 0 where
  pub delta_content : Chars
  pub finish_reason : Option String

-- What the provider is called with.
pub record ChatCall (Float : Type 0) : Type 0 where
  pub content : Chars
  pub temperature : Option Float
  pub max_tokens : Option ℕ

abbrev pub ChatProvider : Type 0 → Type 0 → Type 0
ChatProvider Float World = Provider (ChatCall Float) (Unit {0}) ChatChunk World

abbrev pub first_frame : Chars → ChatStreamFrame
first_frame session_id = record {
  content = [];
  done = false;
  session_id = some session_id;
  error = none;
  metadata = none;
}

abbrev pub content_frame : Chars → ChatStreamFrame
content_frame content = record {
  content = content;
  done = false;
  session_id = none;
  error = none;
  metadata = none;
}

abbrev pub final_frame : Option Chars → FrameMetadata → ChatStreamFrame
final_frame error metadata = record {
  content = [];
  done = true;
  session_id = none;
  error = error;
  metadata = some metadata;
}

-- `text or default`.
abbrev pub or_text : Chars → Option Chars → Chars
or_text d none = d
or_text d (some s) = if is_empty s then d else s

-- The frames of the chunks of a stream.
unfoldable pub content_frames : List ChatChunk → List ChatStreamFrame
content_frames [] = []
content_frames (chunk ∷ chunks) =
    let rest = content_frames chunks in
    if is_empty chunk.delta_content then rest else content_frame chunk.delta_content ∷ rest

unfoldable pub total_chars : List ChatChunk → ℕ
total_chars [] = 0
total_chars (chunk ∷ chunks) = length chunk.delta_content + total_chars chunks

abbrev is_reason : Option String → Bool
is_reason none = false
is_reason (some r) = true

-- The last finish reason that is set; a set one is not the empty text.
unfoldable pub last_reason : Option String → List ChatChunk → Option String
last_reason reason [] = reason
last_reason reason (chunk ∷ chunks) =
    last_reason (if is_reason chunk.finish_reason then chunk.finish_reason else reason) chunks

abbrev pub mock_responses : List Chars
mock_responses =
    codes "I'd be happy to help you with that! "
    ∷ codes "Let me think about this for a moment.\n\n"
    ∷ codes "Based on my analysis, here's what I suggest:\n\n"
    ∷ codes "1. **First**, we should consider the overall architecture.\n"
    ∷ codes "2. **Second**, let's look at the implementation details.\n"
    ∷ codes "3. **Third**, we can optimize for performance.\n\n"
    ∷ codes "Would you like me to elaborate on any of these points?"
    ∷ []

abbrev pub mock_plugin_response : Chars
mock_plugin_response =
    codes
      "I've activated the requested plugins. Here's what I found using the tools available:\n\n```python\nresult = plugin.execute(query)\nprint(result)\n```\n\nThe execution completed successfully."

abbrev pub mock_chunks : List Chars → List Chars
mock_chunks plugin_ids = if is_empty plugin_ids then mock_responses else mock_plugin_response ∷ []

abbrev chunk_of : Chars → ChatChunk
chunk_of s = record { delta_content = s; finish_reason = none }

unfoldable pub mock_frames : List Chars → List ChatStreamFrame
mock_frames [] = []
mock_frames (s ∷ chunks) = content_frame s ∷ mock_frames chunks

-- `_stream_mock_response`. The usage in its metadata is left out.
unfoldable pub stream_mock_response :
    {Float : Type 0} → ChatStreamRequest Float → List ChatStreamFrame
stream_mock_response request =
    let chunks = mock_chunks request.plugin_ids in
    first_frame request.session_id
    ∷ (mock_frames chunks
        ++ final_frame none (record {
          source = "mock";
          model = or_text (codes "gpt-4o-mock") request.model;
          output_chars = none;
          finish_reason = none;
          duration_ms = some (length chunks * 80);
        })
          ∷ [])

-- What creating the provider comes to; a failure is described by the name of its type and the first
-- 200 characters of its text.
pub data Created (Float World : Type 0) : Type 0 where
  created : ChatProvider Float World → Created Float World
  not_created : Failure → Created Float World

abbrev pub call_of : {Float : Type 0} → ChatStreamRequest Float → ChatCall Float
call_of request = record {
  content = request.message;
  temperature = request.temperature;
  max_tokens = request.max_tokens;
}

abbrev pub error_frame : Chars → Chars → ChatStreamFrame
error_frame error model = final_frame (some error) (record {
  source = "provider";
  model = model;
  output_chars = none;
  finish_reason = none;
  duration_ms = none;
})

-- The last frame: an error, or the end of the stream.
unfoldable pub last_frame : (Failure → Chars) → Chars → ℕ → Stream ChatChunk → ChatStreamFrame
last_frame describe model duration stream = elim stream.ending [
  | some e ↦ error_frame (describe e) model
  | none ↦ final_frame none (record {
    source = "provider";
    model = model;
    output_chars = some (total_chars stream.chunks);
    finish_reason = last_reason none stream.chunks;
    duration_ms = some duration;
  })
]

module _ {Float World : Type 0} where
  abbrev pub model_used : (String → Chars) → ChatStreamRequest Float → Created Float World → Chars
  model_used chars request (not_created e) = or_text (codes "unknown") request.model
  model_used chars request (created p) = elim request.model [
    | none ↦ chars p.model_name
    | some m ↦ or_text (codes "unknown") (some m)
  ]

  -- The frames after the first one, and what the provider changes.
  unfoldable pub frames_of :
      (Failure → Chars)
      → (String → Chars)
      → ℕ
      → ChatStreamRequest Float
      → Created Float World
      → World
      → List ChatStreamFrame × World
  frames_of describe chars duration request (not_created e) world =
      (error_frame (describe e) (model_used chars request (not_created e)) ∷ [], world)
  frames_of describe chars duration request (created p) world =
      let (stream, world') = p.stream_chat (call_of request) world in
      (
        content_frames stream.chunks
            ++ last_frame describe (model_used chars request (created p)) duration stream ∷ [],
        world',
      )

  -- `_stream_real_response`: the frames and what the provider changes. `create` is the choice of a
  -- provider, `duration` the time that the stream took, in milliseconds.
  unfoldable pub stream_real_response :
      (Failure → Chars)
      → (String → Chars)
      → ℕ
      → (World → Created Float World × World)
      → ChatStreamRequest Float
      → World
      → List ChatStreamFrame × World
  stream_real_response describe chars duration create request world =
      let (made, world') = create world in
      let (frames, world'') = frames_of describe chars duration request made world' in
      (first_frame request.session_id ∷ frames, world'')
