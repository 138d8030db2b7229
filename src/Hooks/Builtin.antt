-- ===== src/Hooks/Builtin.antt =====
-- `LoggingHook` and `MetricsHook` of hook_runtime.py. A log line changes no state; the readings of
-- `perf_counter_ns` are arguments, and durations stay in nanoseconds.
use agentcook.Prelude.{String, ℕ, ◌+◌, ◌-◌, List, [], ◌∷◌, ◌++◌, none, some}
use agentcook.Prelude.Dict
use agentcook.Prelude.Dict.{Dict}
use agentcook.Chat.{num}
use agentcook.Hooks.Context.{HookContext, event_value, Hook}

abbrev pub logging_hook : {Output World : Type 0} → Hook Output World
logging_hook = record {
  name = "logging_hook";
  pre_execute = λ context world. (none, context, world);
  post_execute = λ context result world. (none, context, world);
}

pub record MetricsHook : Type 0 where
  pub counts : Dict ℕ
  pub durations : Dict (List ℕ)

abbrev count_at : String → Dict ℕ → ℕ
count_at key d = elim (Dict.get key d) [ none ↦ 0 | some n ↦ n ]

abbrev durations_at : String → Dict (List ℕ) → List ℕ
durations_at key d = elim (Dict.get key d) [ none ↦ [] | some l ↦ l ]

unfoldable pub pre_metrics : ℕ → HookContext → HookContext
pre_metrics now context = record context {
  metadata = Dict.put "_metrics_start_ns" (num now) context.metadata;
}

-- Only this hook writes the start time, so it is a number.
unfoldable pub post_metrics : ℕ → HookContext → MetricsHook → MetricsHook
post_metrics now context hook =
    let event_key = event_value context.event in
    let counts' = Dict.put event_key (count_at event_key hook.counts + 1) hook.counts in
    elim (Dict.get "_metrics_start_ns" context.metadata) [
      | some (num start) ↦ record {
        counts = counts';
        durations =
            Dict.put event_key (durations_at event_key hook.durations ++ (now - start) ∷ [])
              hook.durations;
      }
      | _ ↦ record hook { counts = counts' }
    ]

unfoldable pub reset_metrics : MetricsHook → MetricsHook
reset_metrics hook = record { counts = []; durations = [] }
