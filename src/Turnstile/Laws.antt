-- ===== src/Turnstile/Laws.antt =====
-- Who is let through.
use agentcook.Prelude.{
  String, ℕ, ◌≡◌, ◌<◌, ◌⊎◌, refl, ap, true, false, ◌||◌, List, Option, none, some, is_empty, leb,
  leb→lt, inl, inr, Bool-cases, arith,
}
use agentcook.Prelude.Chars.{Chars}
use agentcook.Turnstile.Verifier.{
  TurnstileDecision, TurnstileVerifier, Post, Payload, non_json, no_object, object, Answer,
  unreachable, answered, read_payload, read_answer, call_upstream, verify_via_worker,
  verify_via_siteverify, is_short_circuited, is_blank, verify, acceptance, refusal,
}

-- An answer that lets a visitor through.
abbrev pub IsAccepting : Answer → Type 0
IsAccepting answer =
    (status : ℕ) × (error_codes : List String) × (answer
      ≡ answered status (object true (some error_codes)))
    × (status < 500)

read_payload-accepting :
    (p : Payload) (d : TurnstileDecision)
    → read_payload p ≡ some d
    → d.verified ≡ true
    → (error_codes : List String) × (p ≡ object true (some error_codes))
unfolding read_payload
read_payload-accepting non_json d h t = absurd (ground (arith, h, t))
read_payload-accepting no_object d h t = absurd (ground (arith, h))
read_payload-accepting (object s none) d h t = absurd (ground (arith, h))
read_payload-accepting (object true (some e)) d h t = (e, refl)
read_payload-accepting (object false (some e)) d h t = absurd (ground (arith, h, t))

read_answer-IsAccepting :
    (a : Answer) (d : TurnstileDecision)
    → read_answer a ≡ some d
    → d.verified ≡ true
    → IsAccepting a
unfolding read_answer
read_answer-IsAccepting unreachable d h t = absurd (ground (arith, h, t))
read_answer-IsAccepting (answered status p) d h t = elim (Bool-cases (leb 500 status)) [
  | inl e ↦ absurd (ground (arith, h, t, e))
  | inr e ↦
      let (codes, same) = read_payload-accepting p d (rw e at h) t in
      (status, codes, ap (answered status) same, leb→lt 500 status e)
]

module _ {World : Type 0} (post : Post → World → Answer × World) (v : TurnstileVerifier) where
  -- That one call was made, and its answer lets the visitor through.
  IsLet : World → Option TurnstileDecision × World → Type 0
  IsLet world r =
      (request : Post) × IsAccepting (post request world).0 × (r.1 ≡ (post request world).1)

  call_upstream-IsLet :
      (request : Post) (world : World) (d : TurnstileDecision)
      → (call_upstream post v request world).0 ≡ some d
      → d.verified ≡ true
      → IsLet world (call_upstream post v request world)
  unfolding call_upstream IsLet
  call_upstream-IsLet request world d h t =
      (request, read_answer-IsAccepting (post request world).0 d h t, refl)

  module _ (token remote_ip : Option Chars) (world : World) where
    -- `verify` fails closed: it lets a visitor through only without a check, because of the switch for
    -- development or because nothing is configured that could check, or with a token that is not blank
    -- and an answer of the one service called, with a status below 500, that says so.
    pub verify-IsAccepting :
        (d : TurnstileDecision)
        → (verify post v token remote_ip world).0 ≡ some d
        → d.verified ≡ true
        → (is_short_circuited post v ≡ true)
          ⊎ ((is_blank post v token ≡ false)
              × (request : Post) × IsAccepting (post request world).0
              × ((verify post v token remote_ip world).1 ≡ (post request world).1))
    unfolding verify verify_via_worker verify_via_siteverify IsLet
    verify-IsAccepting d h t = elim (Bool-cases (is_short_circuited post v)) [
      | inl e ↦ inl e
      | inr e ↦ elim (Bool-cases (is_blank post v token)) [
        | inl b ↦ absurd (ground (arith, h, t, e, b))
        | inr b ↦ elim (Bool-cases (is_empty v.worker_url)) [
          | inl w ↦
              let (request, accepted, moved) =
                call_upstream-IsLet _ world d (rw (e, b, w) at h) t in
              inr (b, request, accepted, rw (e, b, w) moved)
          | inr w ↦
              let (request, accepted, moved) =
                call_upstream-IsLet _ world d (rw (e, b, w) at h) t in
              inr (b, request, accepted, rw (e, b, w) moved)
        ]
      ]
    ]

    -- Without a check, and with a blank token, no service is called.
    pub verify-no_call :
        (is_short_circuited post v || is_blank post v token) ≡ true
        → ((verify post v token remote_ip world).1 ≡ world)
          × ((d : TurnstileDecision) × ((verify post v token remote_ip world).0 ≡ some d)
              × (d.verified ≡ is_short_circuited post v))
    unfolding verify
    verify-no_call h = elim (Bool-cases (is_short_circuited post v)) [
      | inl e ↦ (rw e refl, (acceptance "dev_short_circuit", rw e refl, rw e refl))
      | inr e ↦
          let b : is_blank post v token ≡ true = ground (arith, h, e) in
          (rw (e, b) refl, (refusal "missing_token", rw (e, b) refl, rw e refl))
    ]
