-- ===== src/ChatStream/Frames/Laws.antt =====
-- The shape of a stream, and what it carries.
use mathlib.Core.Option
use agentcook.Prelude.{
  String, ℕ, ◌≡◌, refl, ap, sym, ◌∙◌, true, false, List, [], ◌∷◌, ◌++◌, Option, none, some,
  is_empty, All, inl, inr, Bool-cases, arith,
}
use agentcook.Prelude.Chars.{Chars}
use agentcook.Fallback.Chain.{Failure, Stream}
use agentcook.ChatStream.Frames.{
  ChatStreamRequest, ChatStreamFrame, FrameMetadata, ChatChunk, first_frame, content_frame,
  final_frame, content_frames, mock_chunks, mock_frames, total_chars, last_reason,
  stream_mock_response, frames_of, Created, created, not_created, model_used, call_of, last_frame,
  stream_real_response,
}

-- A frame in the middle of a stream: it carries text, and nothing else.
abbrev pub IsContent : ChatStreamFrame → Type 0
IsContent frame = (s : Chars) × (is_empty s ≡ false) × (frame ≡ content_frame s)

-- A stream as the client reads it: a first frame with the session, frames with text, and one frame
-- that is done, with an error or without.
pub record IsStream (session_id : Chars) (frames : List ChatStreamFrame) : Type 0 where
  pub middle : List ChatStreamFrame
  pub error : Option Chars
  pub metadata : FrameMetadata
  pub whole : frames ≡ first_frame session_id ∷ (middle ++ final_frame error metadata ∷ [])
  pub carries : All IsContent middle

-- The text that frames and chunks carry.
abbrev pub text_of : List ChatStreamFrame → Chars
text_of [] = []
text_of (frame ∷ frames) = frame.content ++ text_of frames

abbrev pub deltas : List ChatChunk → Chars
deltas [] = []
deltas (chunk ∷ chunks) = chunk.delta_content ++ deltas chunks

content_frames-IsContent : (chunks : List ChatChunk) → All IsContent (content_frames chunks)
unfolding content_frames
content_frames-IsContent [] = tt
content_frames-IsContent (chunk ∷ chunks) = elim (Bool-cases (is_empty chunk.delta_content)) [
  | inl e ↦ rw e (content_frames-IsContent chunks)
  | inr e ↦ rw e ((chunk.delta_content, e, refl), content_frames-IsContent chunks)
]

nil_of_is_empty : (s : Chars) → is_empty s ≡ true → s ≡ []
nil_of_is_empty [] e = refl
nil_of_is_empty (c ∷ s) e = absurd (ground (arith, e))

text_of-content_frames :
    (chunks : List ChatChunk) (frame : ChatStreamFrame)
    → frame.content ≡ []
    → text_of (content_frames chunks ++ frame ∷ []) ≡ deltas chunks
unfolding content_frames
text_of-content_frames [] frame h = ap (λ s. s ++ []) h
text_of-content_frames (chunk ∷ chunks) frame h = elim (Bool-cases (is_empty chunk.delta_content)) [
  | inl e ↦ rw e (
      text_of-content_frames chunks frame h
      ∙ ap (λ s. s ++ deltas chunks) (sym (nil_of_is_empty chunk.delta_content e)))
  | inr e ↦ rw e (ap (λ s. chunk.delta_content ++ s) (text_of-content_frames chunks frame h))
]

mock_frames-IsContent :
    (chunks : List Chars)
    → All (λ s. is_empty s ≡ false) chunks
    → All IsContent (mock_frames chunks)
unfolding mock_frames
mock_frames-IsContent [] h = tt
mock_frames-IsContent (s ∷ chunks) h = ((s, h.0, refl), mock_frames-IsContent chunks h.1)

mock_chunks-All : (ids : List Chars) → All (λ s. is_empty s ≡ false) (mock_chunks ids)
mock_chunks-All [] = (refl, (refl, (refl, (refl, (refl, (refl, (refl, tt)))))))
mock_chunks-All (i ∷ ids) = (refl, tt)

-- The mock stream has the shape that the client reads, and ends without an error.
pub stream_mock_response-IsStream :
    {Float : Type 0} (request : ChatStreamRequest Float)
    → IsStream request.session_id (stream_mock_response request)
unfolding stream_mock_response
stream_mock_response-IsStream request = record {
  middle = mock_frames (mock_chunks request.plugin_ids);
  error = none;
  metadata = _;
  whole = refl;
  carries = mock_frames-IsContent _ (mock_chunks-All request.plugin_ids);
}

-- What a provider delivers before its stream ends: text, and why it failed, if it did.
abbrev pub delivered :
    {Float World : Type 0}
    → ChatStreamRequest Float
    → Created Float World × World
    → Chars × Option Failure
delivered request made = elim made.0 [
  | not_created e ↦ ([], some e)
  | created p ↦
      let stream = (p.stream_chat (call_of request) made.1).0 in
      (deltas stream.chunks, stream.ending)
]

-- The error of the last frame.
abbrev pub error_of : List ChatStreamFrame → Option Chars
error_of [] = none
error_of (frame ∷ []) = frame.error
error_of (frame ∷ frame' ∷ frames) = error_of (frame' ∷ frames)

error_of-last :
    (frames : List ChatStreamFrame) (frame : ChatStreamFrame)
    → error_of (frames ++ frame ∷ []) ≡ frame.error
error_of-last [] frame = refl
error_of-last (f ∷ []) frame = refl
error_of-last (f ∷ f' ∷ frames) frame = error_of-last (f' ∷ frames) frame

-- What the frames after the first one owe to the client, for what was delivered.
record Carries (frames : List ChatStreamFrame) (text : Chars) (failure : Option Chars)
    : Type 0 where
  middle : List ChatStreamFrame
  last : ChatStreamFrame
  metadata : FrameMetadata
  whole : frames ≡ middle ++ last ∷ []
  ends : last ≡ final_frame failure metadata
  carries : All IsContent middle
  text_same : text_of frames ≡ text

last_frame-eq :
    (describe : Failure → Chars) (duration : ℕ) (model : Chars) (stream : Stream ChatChunk)
    (ending : Option Failure)
    → stream.ending ≡ ending
    → (metadata : FrameMetadata) × (last_frame describe model duration stream
        ≡ final_frame (Option.map describe stream.ending) metadata)
unfolding last_frame
last_frame-eq describe duration model stream none e = (
  record {
    source = "provider";
    model = model;
    output_chars = some (total_chars stream.chunks);
    finish_reason = last_reason none stream.chunks;
    duration_ms = some duration;
  },
  rw e refl,
)
last_frame-eq describe duration model stream (some x) e = (
  record {
    source = "provider";
    model = model;
    output_chars = none;
    finish_reason = none;
    duration_ms = none;
  },
  rw e refl,
)

module _ {Float World : Type 0} (describe : Failure → Chars) (chars : String → Chars) (duration : ℕ)
    (request : ChatStreamRequest Float) where
  frames_of-Carries :
      (made : Created Float World) (world : World)
      → Carries
          (frames_of describe chars duration request made world).0
          (delivered request (made, world)).0
          (Option.map describe (delivered request (made, world)).1)
  unfolding frames_of
  frames_of-Carries (not_created e) world = record {
    middle = [];
    last = _;
    metadata = _;
    whole = refl;
    ends = refl;
    carries = tt;
    text_same = refl;
  }
  frames_of-Carries (created p) world =
      let stream = (p.stream_chat (call_of request) world).0 in
      let (metadata, same) =
        last_frame-eq describe duration (model_used chars request (created p)) stream stream.ending
          refl in
      record {
        middle = content_frames stream.chunks;
        last = last_frame describe (model_used chars request (created p)) duration stream;
        metadata = metadata;
        whole = refl;
        ends = same;
        carries = content_frames-IsContent stream.chunks;
        text_same = text_of-content_frames stream.chunks _ (ap (λ f. f.content) same);
      }

  -- The stream of a provider has the shape that the client reads, whatever the provider does. Its
  -- frames carry the text of all the chunks that the provider delivered, also where it fails after
  -- those, and the last frame has an error just where the provider failed or was not created.
  pub stream_real_response-IsStream :
      (create : World → Created Float World × World) (world : World)
      → let frames = (stream_real_response describe chars duration create request world).0 in
        IsStream request.session_id frames
        × (text_of frames ≡ (delivered request (create world)).0)
        × (error_of frames ≡ Option.map describe (delivered request (create world)).1)
  unfolding stream_real_response
  stream_real_response-IsStream create world =
      let (made, world') = create world in
      let c = frames_of-Carries made world' in
      (
        record {
          middle = c.middle;
          error = Option.map describe (delivered request (made, world')).1;
          metadata = c.metadata;
          whole =
              ap (λ f. first_frame request.session_id ∷ f)
                (c.whole ∙ ap (λ l. c.middle ++ l ∷ []) c.ends);
          carries = c.carries;
        },
        c.text_same,
        ap (λ f. error_of (first_frame request.session_id ∷ f)) c.whole
            ∙ error_of-last (first_frame request.session_id ∷ c.middle) c.last
            ∙ ap (λ f. f.error) c.ends,
      )
