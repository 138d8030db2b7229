-- ===== src/Hooks/Tests.antt =====
-- Runs of the pipeline that write a trace, and the theorems at those.
use agentcook.Prelude.{
  String, ℕ, ◌+◌, ◌≡◌, refl, true, false, not, List, [], ◌∷◌, ◌++◌, none, length, inr,
  if◌then◌else◌,
}
use agentcook.Prelude.Dict
use agentcook.Prelude.Strings.{fmt, truthy?}
use agentcook.Hooks.Context.{HookContext, Hook, agent_run, cancel, new_context}
use agentcook.Hooks.Registry.{HookRegistry, register, get_hooks}
use agentcook.Hooks.Pipeline.{
  Core, returned, raised, raises, output_of, error_of, run_pre, run_post, run_core, finish,
  execute_inner,
}
use agentcook.Hooks.Pipeline.Laws.{execute-cancelled}
use agentcook.Hooks.Pipeline.Onion.{IsQuiet, onion, execute-onion}

abbrev Trace : Type 0
Trace = List String

abbrev hook : String → Hook ℕ Trace
hook name = record {
  name = name;
  pre_execute = λ c w. (none, c, w ++ fmt (name ∷ " in" ∷ []) ∷ []);
  post_execute = λ c o w. (none, c, w ++ fmt (name ∷ " out" ∷ []) ∷ []);
}

abbrev guard : Hook ℕ Trace
guard = record {
  name = "guard";
  pre_execute = λ c w. (none, cancel "no" c, w ++ "guard in" ∷ []);
  post_execute = λ c o w. (none, c, w ++ "guard out" ∷ []);
}

abbrev core : Core ℕ Trace
core values w = (returned 7, values, w ++ "core" ∷ [])

abbrev broken : Core ℕ Trace
broken values w = (raised "bug", values, w)

abbrev hooks : List (Hook ℕ Trace)
hooks = hook "a" ∷ hook "b" ∷ []

abbrev context : HookContext
context = new_context agent_run []

hook-IsQuiet : (name : String) → IsQuiet (hook name)
hook-IsQuiet name = record {
  pre_returns = λ c w. refl;
  pre_runs = λ c w h. h;
  post_returns = λ c o w. refl;
  post_runs = λ c o w h. h;
}

trace_run :
    (execute_inner false core hooks 3 context []).2
    ≡ "a in" ∷ "b in" ∷ "core" ∷ "b out" ∷ "a out" ∷ []
unfolding execute_inner run_pre run_core finish run_post
trace_run = refl

-- The hook behind the one that cancels runs on the way out, though it never ran on the way in.
cancelled_run :
    (execute_inner false core (guard ∷ hook "b" ∷ []) 3 context []).2
    ≡ "guard in" ∷ "b out" ∷ "guard out" ∷ []
unfolding execute_inner run_pre run_core finish run_post cancel
cancelled_run = refl

execute-onion_example : execute_inner false core hooks 3 context [] ≡ (
  record {
    success = not (raises (error_of (onion core hooks context []).0));
    output = output_of (onion core hooks context []).0;
    error =
        if truthy? (error_of (onion core hooks context []).0)
        then error_of (onion core hooks context []).0
        else (onion core hooks context []).1.cancel_reason;
    duration_ns = 3;
    hooks_executed = length hooks + length hooks;
  },
  (onion core hooks context []).1,
  (onion core hooks context []).2,
)
execute-onion_example =
    execute-onion false core hooks 3 context [] (hook-IsQuiet "a", (hook-IsQuiet "b", tt)) refl refl

execute-cancelled_example :
    (execute_inner false core (guard ∷ hook "b" ∷ []) 3 context []
      ≡ execute_inner false broken (guard ∷ hook "b" ∷ []) 3 context [])
    × ((execute_inner false core (guard ∷ hook "b" ∷ []) 3 context []).0.output ≡ none)
execute-cancelled_example =
    execute-cancelled false core (guard ∷ hook "b" ∷ []) 3 broken context []
      (inr (unfold run_pre cancel in refl))

abbrev registry : HookRegistry ℕ Trace
registry = record {
  hooks = ("agent_run", hook "a" ∷ hook "b" ∷ []) ∷ [];
  global_hooks = hook "a" ∷ [];
}

get_hooks_run :
    get_hooks ℕ Trace agent_run (register ℕ Trace agent_run (hook "c") true registry)
    ≡ hook "a" ∷ hook "c" ∷ hook "a" ∷ hook "b" ∷ []
unfolding get_hooks register Dict.get
get_hooks_run = refl
