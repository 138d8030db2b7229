-- ===== src/Turnstile/Tests.antt =====
-- Runs of the verifier, and the theorems at those.
use agentcook.Prelude.{ℕ, ◌+◌, ◌≡◌, ◌⊎◌, refl, true, false, [], Option, none, some}
use agentcook.Prelude.Chars.{Chars, codes, strip_by, strip_left, strip_right}
use agentcook.Turnstile.Verifier.{
  TurnstileVerifier, Post, Answer, answered, object, read_payload, read_answer, call_upstream,
  verify_via_worker, verify, is_short_circuited, is_blank, acceptance,
}
use agentcook.Turnstile.Laws.{IsAccepting, verify-IsAccepting}

abbrev verifier : TurnstileVerifier
verifier = record {
  worker_url = codes "https://worker";
  cloudflare_secret = [];
  dev_short_circuit = false;
}

-- A service that accepts every token; the world counts the calls.
abbrev post : Post → ℕ → Answer × ℕ
post request calls = (answered 200 (object true (some [])), calls + 1)

abbrev token : Option Chars
token = some (codes "abc")

verify_run : (verify post verifier token none 0).0 ≡ some (acceptance "verified")
unfolding verify verify_via_worker call_upstream read_answer read_payload strip_by strip_left
    strip_right
verify_run = refl

verify-IsAccepting_example :
    (is_short_circuited post verifier ≡ true)
    ⊎ ((is_blank post verifier token ≡ false)
        × (request : Post) × IsAccepting (post request 0).0
        × ((verify post verifier token none 0).1 ≡ (post request 0).1))
verify-IsAccepting_example =
    verify-IsAccepting post verifier token none 0 (acceptance "verified") verify_run refl
