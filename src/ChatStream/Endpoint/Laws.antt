-- ===== src/ChatStream/Endpoint/Laws.antt =====
-- When a stream is started, and what every stream looks like.
use agentcook.Prelude.{
  String, ℕ, ◌≡◌, ◌⊎◌, refl, ap, sym, ◌∙◌, true, false, List, [], Option, none, some, is_empty, inl,
  inr, Bool-cases, arith,
}
use agentcook.Prelude.Chars.{Chars, strip}
use agentcook.Fallback.Chain.{Failure}
use agentcook.Turnstile.Verifier.{
  TurnstileDecision, TurnstileVerifier, Post, Answer, verify, is_blank, is_short_circuited,
}
use agentcook.Turnstile.Laws.{IsAccepting, verify-IsAccepting}
use agentcook.ChatStream.Frames.{ChatStreamRequest, ChatStreamFrame, Created}
use agentcook.ChatStream.Frames.Laws.{
  IsStream, stream_mock_response-IsStream, stream_real_response-IsStream,
}
use agentcook.ChatStream.Endpoint.{
  Response, bad_request, raised, unauthorized, streaming, use_mock, turnstile_enforced,
  remote_ip_of, start_stream, after_decision, chat_stream,
}

abbrev frames_in : Response → List ChatStreamFrame
frames_in bad_request = []
frames_in raised = []
frames_in (unauthorized reason error_codes) = []
frames_in (streaming frames) = frames

module _ (environ : String → Option Chars) (lower : Chars → Chars) where
  module _ {Float World : Type 0} (describe : Failure → Chars) (chars : String → Chars)
      (duration : ℕ) (create : World → Created Float World × World)
      (post : Post → World → Answer × World) (v : TurnstileVerifier)
      (request : ChatStreamRequest Float) where
    -- Whatever it starts has the shape that the client reads.
    start_stream-streaming :
        (world : World)
        → (frames : List ChatStreamFrame) × ((start_stream environ lower describe chars duration
              create post v request world).0
            ≡ streaming frames)
          × IsStream request.session_id frames
    unfolding start_stream
    start_stream-streaming world = elim (Bool-cases (use_mock environ lower)) [
      | inl e ↦ (_, rw e refl, stream_mock_response-IsStream request)
      | inr e ↦ (
        _,
        rw e refl,
        (stream_real_response-IsStream describe chars duration request create world).0,
      )
    ]

    start_stream-IsStream :
        (world : World) (frames : List ChatStreamFrame)
        → (start_stream environ lower describe chars duration create post v request world).0
          ≡ streaming frames
        → IsStream request.session_id frames
    start_stream-IsStream world frames h =
        let (started, e, shape) = start_stream-streaming world in
        rw (ap frames_in (sym e ∙ h)) at shape

    -- What a decision was worth that a stream follows.
    after_decision-verified :
        (r : Option TurnstileDecision × World) (frames : List ChatStreamFrame)
        → (after_decision environ lower describe chars duration create post v request r).0
          ≡ streaming frames
        → ((d : TurnstileDecision) × (r.0 ≡ some d) × (d.verified ≡ true))
          × IsStream request.session_id frames
    unfolding after_decision
    after_decision-verified (none, world) frames h = absurd (ground (arith, h))
    after_decision-verified (some d, world) frames h = elim (Bool-cases d.verified) [
      | inl e ↦ ((d, refl, e), start_stream-IsStream world frames (rw e at h))
      | inr e ↦ absurd (ground (arith, h, e))
    ]

    module _ (x_turnstile_token x_forwarded_for : Option Chars) (world : World) where
      -- A stream is started only for a session that is not blank. Where the check is enforced, the
      -- visitor was let through: without a check by the settings of the verifier, or with a token
      -- that is not blank and one call of the service that was answered with success below 500. The
      -- frames have the shape that the client reads.
      pub chat_stream-IsStream :
          (frames : List ChatStreamFrame)
          → (chat_stream environ lower describe chars duration create post v request
              x_turnstile_token x_forwarded_for world).0
            ≡ streaming frames
          → (is_empty (strip request.session_id) ≡ false)
            × ((turnstile_enforced environ lower ≡ false)
                ⊎ (is_short_circuited post v ≡ true)
                ⊎ ((is_blank post v x_turnstile_token ≡ false)
                    × (call : Post) × IsAccepting (post call world).0))
            × IsStream request.session_id frames
      unfolding chat_stream
      chat_stream-IsStream frames h = elim (Bool-cases (is_empty (strip request.session_id))) [
        | inl b ↦ absurd (ground (arith, h, b))
        | inr b ↦ elim (Bool-cases (turnstile_enforced environ lower)) [
          | inl t ↦
              let ((d, decided, verified), shape) =
                after_decision-verified
                  (verify post v x_turnstile_token (remote_ip_of x_forwarded_for) world) frames
                  (rw (b, t) at h) in
              elim (verify-IsAccepting post v x_turnstile_token (remote_ip_of x_forwarded_for) world
                d decided verified) [
                  | inl short ↦ (b, inr (inl short), shape)
                  | inr (blank, call, accepted, moved) ↦
                      (b, inr (inr (blank, call, accepted)), shape)
                ]
          | inr t ↦ (b, inl t, start_stream-IsStream world frames (rw (b, t) at h))
        ]
      ]

  -- What a refusal follows from, and what it leaves: the session is blank and nobody was called; or the
  -- check is enforced, and the verifier, the only one that was called, rejected the visitor or raised.
  pub data Refusal {Float World : Type 0} (post : Post → World → Answer × World)
      (v : TurnstileVerifier) (request : ChatStreamRequest Float)
      (x_turnstile_token x_forwarded_for : Option Chars) (world : World)
      : Response × World → Type 0 where
    by_session :
        is_empty (strip request.session_id) ≡ true
        → Refusal post v request x_turnstile_token x_forwarded_for world (bad_request, world)
    by_decision :
        (d : TurnstileDecision) (world' : World)
        → is_empty (strip request.session_id) ≡ false
        → turnstile_enforced environ lower ≡ true
        → verify post v x_turnstile_token (remote_ip_of x_forwarded_for) world ≡ (some d, world')
        → d.verified ≡ false
        → Refusal post v request x_turnstile_token x_forwarded_for world
            (unauthorized d.reason d.error_codes, world')
    by_exception :
        (world' : World)
        → is_empty (strip request.session_id) ≡ false
        → turnstile_enforced environ lower ≡ true
        → verify post v x_turnstile_token (remote_ip_of x_forwarded_for) world ≡ (none, world')
        → Refusal post v request x_turnstile_token x_forwarded_for world (raised, world')

  module _ {Float World : Type 0} (describe : Failure → Chars) (chars : String → Chars)
      (duration : ℕ) (create : World → Created Float World × World)
      (post : Post → World → Answer × World) (v : TurnstileVerifier)
      (request : ChatStreamRequest Float) (x_turnstile_token x_forwarded_for : Option Chars)
      (world : World) where
    after_decision-Refusal :
        (r : Option TurnstileDecision × World)
        → is_empty (strip request.session_id) ≡ false
        → turnstile_enforced environ lower ≡ true
        → verify post v x_turnstile_token (remote_ip_of x_forwarded_for) world ≡ r
        → ((frames : List ChatStreamFrame) × ((after_decision environ lower describe chars duration
                create post v request r).0
              ≡ streaming frames))
          ⊎ Refusal post v request x_turnstile_token x_forwarded_for world
              (after_decision environ lower describe chars duration create post v request r)
    unfolding after_decision
    after_decision-Refusal (none, w) b t e = inr (by_exception w b t e)
    after_decision-Refusal (some d, w) b t e = elim (Bool-cases d.verified) [
      | inl y ↦
          let (frames, same, shape) =
            start_stream-streaming describe chars duration create post v request w in
          inl (frames, rw (y, after_decision) same)
      | inr y ↦ inr (rw (y, after_decision) (by_decision d w b t e y))
    ]

    -- A request is answered with a stream or refused. It is refused only for a blank session, with 400
    -- and nobody called, or where the check is enforced and the verifier rejects the visitor, with 401
    -- and the verifier's reason and codes, or raises; then nobody but the verifier's service was called,
    -- and no provider was created.
    pub chat_stream-Refusal :
        ((frames : List ChatStreamFrame) × ((chat_stream environ lower describe chars duration
              create post v request x_turnstile_token x_forwarded_for world).0
            ≡ streaming frames))
        ⊎ Refusal post v request x_turnstile_token x_forwarded_for world (
            chat_stream environ lower describe chars duration create post v request
              x_turnstile_token x_forwarded_for world)
    unfolding chat_stream
    chat_stream-Refusal = elim (Bool-cases (is_empty (strip request.session_id))) [
      | inl b ↦ inr (rw (b, chat_stream) (by_session b))
      | inr b ↦ elim (Bool-cases (turnstile_enforced environ lower)) [
        | inl t ↦
            rw (b, t, chat_stream)
              (after_decision-Refusal
                (verify post v x_turnstile_token (remote_ip_of x_forwarded_for) world) b t refl)
        | inr t ↦
            let (frames, same, shape) =
              start_stream-streaming describe chars duration create post v request world in
            inl (frames, rw (b, t, chat_stream) same)
      ]
    ]
