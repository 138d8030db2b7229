-- ===== src/Quota/Tests.antt =====
-- Runs of the resolver, and the theorems at those.
use agentcook.Prelude.{
  String, ℕ, ◌≡◌, ◌≢◌, refl, false, [], ◌∷◌, Option, none, some, ◌==◌, if◌then◌else◌,
}
use agentcook.Prelude.Integers.{ℤ, pos}
use agentcook.Prelude.Strings.{truthy?}
use agentcook.Prelude.Dict
use agentcook.Prelude.Dict.{Dict}
use agentcook.Quota.Resolver.{
  QuotaDecision, QuotaResolver, null, object, Reply, replied, fetch_java_quota, decide,
  resolve_info, resolve_fetched, resolve,
}
use agentcook.Quota.Laws.{IsWithin, resolve-IsWithin, Raises, resolve-Raises}

-- The JSON values are numbers here, and 99 stands for one that `int` does not read.
abbrev int : ℕ → Option ℤ
int n = if n == 99 then none else some (pos n)

abbrev resolver : QuotaResolver
resolver = record {
  default_quota = pos 2;
  primary_provider = "qwen";
  primary_model = "qwen-turbo";
  fallback_provider = "zhipu";
  fallback_model = "glm-4-flash";
}

abbrev reply : Reply ℕ
reply = replied 200 (object (("free_questions_used", 1) ∷ []))

abbrev within : QuotaDecision
within = record {
  provider = "qwen";
  model = some "qwen-turbo";
  remaining = pos 1;
  reason = "within_quota";
}

resolve_run : resolve ℕ int resolver none (some "ada") reply ≡ some within
unfolding resolve resolve_fetched resolve_info fetch_java_quota decide Dict.get
resolve_run = refl

resolve-IsWithin_example :
    (truthy? none ≡ false)
    × (◌≢◌ {A = Option String} (some "ada") none)
    × IsWithin ℕ int resolver reply within
resolve-IsWithin_example =
    resolve-IsWithin ℕ int resolver none (some "ada") reply within resolve_run refl

abbrev odd_reply : Reply ℕ
odd_reply = replied 200 (object (("free_questions_quota", 99) ∷ []))

odd_run : resolve ℕ int resolver none (some "ada") odd_reply ≡ none
unfolding resolve resolve_fetched resolve_info fetch_java_quota decide Dict.get
odd_run = refl

resolve-Raises_example :
    (truthy? none ≡ false)
    × (◌≢◌ {A = Option String} (some "ada") none)
    × Raises ℕ int resolver odd_reply
resolve-Raises_example = resolve-Raises ℕ int resolver none (some "ada") odd_reply odd_run

-- A body that is null degrades.
null_run :
    resolve ℕ int resolver none (some "ada") (replied 200 null)
    ≡ some (record {
      provider = "zhipu";
      model = some "glm-4-flash";
      remaining = pos 0;
      reason = "java_unavailable";
    })
unfolding resolve resolve_fetched fetch_java_quota
null_run = refl
