-- ===== src/Quota/Resolver.antt =====
-- `QuotaResolver` of quota.py. The HTTP client's reply and `int` of a JSON value, which may raise, are
-- arguments.
use agentcook.Prelude.{String, ℕ, Option, none, some, ◌==◌, if◌then◌else◌}
use agentcook.Prelude.Integers.{ℤ, pos, negsuc, ltb_ℤ, excess}
use agentcook.Prelude.Dict
use agentcook.Prelude.Dict.{Dict}
use agentcook.Prelude.Strings.{truthy?}

pub record QuotaDecision : Type 0 where
  pub provider : String
  pub model : Option String
  pub remaining : ℤ
  pub reason : String

pub record QuotaResolver : Type 0 where
  pub default_quota : ℤ
  pub primary_provider : String
  pub primary_model : String
  pub fallback_provider : String
  pub fallback_model : String

module _ (Json : Type 0) where
  -- The body of a reply, as `resp.json()` reads it: a ValueError, `null`, an object, or another value.
  pub data Body : Type 0 where
    malformed null not_object : Body
    object : Dict Json → Body

  -- What a request to the quota service comes to: an exception that is caught, an `httpx.HTTPError` or
  -- a `ValueError`; another exception; or a status and a body.
  pub data Reply : Type 0 where
    unreachable broken : Reply
    replied : ℕ → Body → Reply

  -- What the lookup comes to: an exception, None, an object, or another value.
  pub data Fetched : Type 0 where
    lookup_raised nothing other_value : Fetched
    info : Dict Json → Fetched

  abbrev pub of_body : Body → Fetched
  of_body malformed = nothing
  of_body null = nothing
  of_body not_object = other_value
  of_body (object d) = info d

  -- `_fetch_java_quota`.
  unfoldable pub fetch_java_quota : Reply → Fetched
  fetch_java_quota unreachable = nothing
  fetch_java_quota broken = lookup_raised
  fetch_java_quota (replied status body) = if status == 200 then of_body body else nothing

  abbrev pub decision : String → Option String → ℤ → String → QuotaDecision
  decision provider model remaining reason = record {
    provider = provider;
    model = model;
    remaining = remaining;
    reason = reason;
  }

  module _ (int : Json → Option ℤ) (r : QuotaResolver) where
    -- `int(info.get(key, default))`: none where it raises.
    abbrev pub count_of : String → ℤ → Dict Json → Option ℤ
    count_of key default d = elim (Dict.get key d) [ none ↦ some default | some v ↦ int v ]

    unfoldable pub decide : ℤ → ℤ → QuotaDecision
    decide used quota =
        if ltb_ℤ used quota
        then decision r.primary_provider (some r.primary_model) (pos (excess quota used))
            "within_quota"
        else decision r.fallback_provider (some r.fallback_model) (pos 0) "exhausted"

    -- The rest of `resolve` on an object: none where it raises.
    unfoldable pub resolve_info : Dict Json → Option QuotaDecision
    resolve_info d = elim (count_of "free_questions_used" (pos 0) d) [
      | none ↦ none
      | some used ↦ elim (count_of "free_questions_quota" r.default_quota d) [
        | none ↦ none
        | some quota ↦ some (decide used quota)
      ]
    ]

    abbrev pub degraded : String → QuotaDecision
    degraded reason = decision r.fallback_provider (some r.fallback_model) (pos 0) reason

    unfoldable pub resolve_fetched : Fetched → Option QuotaDecision
    resolve_fetched lookup_raised = none
    resolve_fetched nothing = some (degraded "java_unavailable")
    resolve_fetched other_value = none
    resolve_fetched (info d) = resolve_info d

    abbrev pub override : Option String → String
    override none = ""
    override (some s) = s

    -- `resolve`: none where it raises.
    unfoldable pub resolve : Option String → Option String → Reply → Option QuotaDecision
    resolve config_override none reply =
        if truthy? config_override
        then some (decision (override config_override) none (negsuc 0) "config_override")
        else some (degraded "anonymous")
    resolve config_override (some user_id) reply =
        if truthy? config_override
        then some (decision (override config_override) none (negsuc 0) "config_override")
        else resolve_fetched (fetch_java_quota reply)
