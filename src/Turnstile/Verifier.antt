-- ===== src/Turnstile/Verifier.antt =====
-- `TurnstileVerifier` of turnstile.py. Texts are lists of code points; the HTTP client's `post` is an
-- argument, and `World` is what it changes. The environment's defaults are arguments of `init`.
use agentcook.Prelude.{
  String, ℕ, Bool, true, false, not, ◌&&◌, ◌||◌, List, [], ◌∷◌, Option, none, some, is_empty, leb,
  if◌then◌else◌,
}
use agentcook.Prelude.Chars.{Chars, codes, strip}

pub record TurnstileDecision : Type 0 where
  pub verified : Bool
  pub reason : String
  pub error_codes : List String

pub record TurnstileVerifier : Type 0 where
  pub worker_url : Chars
  pub cloudflare_secret : Chars
  pub dev_short_circuit : Bool

abbrev or_empty : Option Chars → Chars
or_empty none = []
or_empty (some s) = s

abbrev or_default : Bool → Option Bool → Bool
or_default d none = d
or_default d (some b) = b

unfoldable pub init : Option Chars → Option Chars → Option Bool → Bool → TurnstileVerifier
init worker_url cloudflare_secret dev_short_circuit default_dev_short_circuit = record {
  worker_url = strip (or_empty worker_url);
  cloudflare_secret = strip (or_empty cloudflare_secret);
  dev_short_circuit = or_default default_dev_short_circuit dev_short_circuit;
}

-- The singleton wired from the environment, made on the first call: the verifier, and the cache.
unfoldable pub get_turnstile_verifier :
    Chars → Chars → Bool → Option TurnstileVerifier → TurnstileVerifier × TurnstileVerifier
get_turnstile_verifier url secret dev (some v) = (v, v)
get_turnstile_verifier url secret dev none =
    let v = init (some url) (some secret) none dev in (v, v)

-- A call of `post`: the body as JSON or as a form.
pub record Post : Type 0 where
  pub url : Chars
  pub fields : List (String × Chars)
  pub json_body : Bool

-- A JSON body: no JSON at all, a value that is no object, or an object: whether its `success` is
-- truthy, and its error codes as texts, none where they cannot be walked through.
pub data Payload : Type 0 where
  non_json no_object : Payload
  object : Bool → Option (List String) → Payload

-- What a call comes to: an `httpx.HTTPError` or `OSError`, or a status and a body.
pub data Answer : Type 0 where
  unreachable : Answer
  answered : ℕ → Payload → Answer

abbrev pub refusal : String → TurnstileDecision
refusal reason = record { verified = false; reason = reason; error_codes = [] }

abbrev pub acceptance : String → TurnstileDecision
acceptance reason = record { verified = true; reason = reason; error_codes = [] }

-- `_call_upstream` on the answer: none where it raises.
unfoldable pub read_payload : Payload → Option TurnstileDecision
read_payload non_json = some (refusal "worker_unavailable")
read_payload no_object = none
read_payload (object success none) = none
read_payload (object success (some error_codes)) =
    if success
    then some (acceptance "verified")
    else some
        (record { verified = false; reason = "cloudflare_rejected"; error_codes = error_codes })

unfoldable pub read_answer : Answer → Option TurnstileDecision
read_answer unreachable = some (refusal "worker_unavailable")
read_answer (answered status payload) =
    if leb 500 status then some (refusal "worker_unavailable") else read_payload payload

abbrev siteverify_url : Chars
siteverify_url = codes "https://challenges.cloudflare.com/turnstile/v0/siteverify"

abbrev ip_field : String → Option Chars → List (String × Chars)
ip_field key none = []
ip_field key (some ip) = if is_empty ip then [] else (key, ip) ∷ []

abbrev pub token_of : Option Chars → Chars
token_of none = []
token_of (some token) = token

module _ {World : Type 0} (post : Post → World → Answer × World) (v : TurnstileVerifier) where
  unfoldable pub call_upstream : Post → World → Option TurnstileDecision × World
  call_upstream request world =
      let (answer, world') = post request world in (read_answer answer, world')

  unfoldable pub verify_via_worker : Chars → Option Chars → World → Option TurnstileDecision × World
  verify_via_worker token remote_ip world =
      call_upstream
        (record {
          url = v.worker_url;
          fields = ("token", token) ∷ ip_field "remoteIp" remote_ip;
          json_body = true;
        })
        world

  unfoldable pub verify_via_siteverify :
      Chars → Option Chars → World → Option TurnstileDecision × World
  verify_via_siteverify token remote_ip world =
      call_upstream
        (record {
          url = siteverify_url;
          fields =
              ("secret", v.cloudflare_secret) ∷ ("response", token) ∷ ip_field "remoteip" remote_ip;
          json_body = false;
        })
        world

  abbrev pub is_short_circuited : Bool
  is_short_circuited = v.dev_short_circuit || is_empty v.worker_url && is_empty v.cloudflare_secret

  -- `not token or not token.strip()`.
  abbrev pub is_blank : Option Chars → Bool
  is_blank token = is_empty (token_of token) || is_empty (strip (token_of token))

  unfoldable pub verify : Option Chars → Option Chars → World → Option TurnstileDecision × World
  verify token remote_ip world =
      if is_short_circuited
      then (some (acceptance "dev_short_circuit"), world)
      else if is_blank token
      then (some (refusal "missing_token"), world)
      else if not (is_empty v.worker_url)
      then verify_via_worker (token_of token) remote_ip world
      else verify_via_siteverify (token_of token) remote_ip world
