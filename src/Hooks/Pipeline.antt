-- ===== src/Hooks/Pipeline.antt =====
-- `HookPipeline` of hook_runtime.py. The readings of the clock at the start and at the end of a run
-- are arguments; the duration stays in nanoseconds.
pub mod Laws
pub mod Onion
use agentcook.Prelude.{
  String, ℕ, ◌+◌, ◌-◌, Bool, true, false, not, ◌&&◌, List, [], ◌∷◌, Option, none, some, reverse,
  if◌then◌else◌,
}
use agentcook.Prelude.Strings.{fmt, truthy?}
use agentcook.Chat.{Metadata}
use agentcook.Hooks.Context.{HookEvent, HookContext, new_context, Hook}
use agentcook.Hooks.Registry.{HookRegistry, get_hooks}

pub record HookResult (Output : Type 0) : Type 0 where
  pub success : Bool
  pub output : Option Output
  pub error : Option String
  pub duration_ns : ℕ
  pub hooks_executed : ℕ

-- What the core callable does: it returns, or it raises with a message.
pub data Outcome (Output : Type 0) : Type 0 where
  returned : Output → Outcome Output
  raised : String → Outcome Output

abbrev pub raises : Option String → Bool
raises none = false
raises (some e) = true

abbrev pub count_one : Option String → ℕ → ℕ
count_one none n = n + 1
count_one (some e) n = n

abbrev pub output_of : {Output : Type 0} → Outcome Output → Option Output
output_of (returned x) = some x
output_of (raised e) = none

abbrev pub error_of : {Output : Type 0} → Outcome Output → Option String
error_of (returned x) = none
error_of (raised e) = some e

abbrev pub message : Option String → String
message none = ""
message (some e) = e

-- Where a phase of hooks ends: the error that ended the run, if one did, the context, the world and
-- the number of hook calls that returned.
pub record Phase (World : Type 0) : Type 0 where
  pub aborted : Option String
  pub context : HookContext
  pub world : World
  pub executed : ℕ

abbrev pub failed : {Output : Type 0} → ℕ → Option String → ℕ → HookResult Output
failed elapsed e n = record {
  success = false;
  output = none;
  error = e;
  duration_ns = elapsed;
  hooks_executed = n;
}

-- The core may change the dict that was given as data, and the world.
abbrev pub Core : Type 0 → Type 0 → Type 0
Core Output World = Metadata → World → Outcome Output × Metadata × World

module _ {Output World : Type 0} where
  unfoldable pub run_pre : Bool → List (Hook Output World) → HookContext → World → ℕ → Phase World
  run_pre fail_fast [] context world n = record {
    aborted = none;
    context = context;
    world = world;
    executed = n;
  }
  run_pre fail_fast (hook ∷ hooks) context world n =
      let (e, context', world') = hook.pre_execute context world in
      let n' = count_one e n in
      let rest = run_pre fail_fast hooks context' world' n' in
      if fail_fast && raises e
      then record {
        aborted = some (fmt ("pre_execute failed in " ∷ hook.name ∷ ": " ∷ message e ∷ []));
        context = context';
        world = world';
        executed = n';
      }
      else if context'.cancelled
      then record { aborted = none; context = context'; world = world'; executed = n' }
      else rest

  -- The loop over the hooks on the way out; the caller reverses them.
  unfoldable pub run_post :
      Bool → List (Hook Output World) → Option Output → HookContext → World → ℕ → Phase World
  run_post fail_fast [] output context world n = record {
    aborted = none;
    context = context;
    world = world;
    executed = n;
  }
  run_post fail_fast (hook ∷ hooks) output context world n =
      let (e, context', world') = hook.post_execute context output world in
      let n' = count_one e n in
      let rest = run_post fail_fast hooks output context' world' n' in
      if fail_fast && raises e
      then record {
        aborted = some (fmt ("post_execute failed in " ∷ hook.name ∷ ": " ∷ message e ∷ []));
        context = context';
        world = world';
        executed = n';
      }
      else rest

  -- The hooks on the way out after the core raised under `fail_fast`: no error counts, and no call.
  unfoldable pub run_quiet : List (Hook Output World) → HookContext → World → HookContext × World
  run_quiet [] context world = (context, world)
  run_quiet (hook ∷ hooks) context world =
      let (_, context', world') = hook.post_execute context none world in
      run_quiet hooks context' world'

  -- From the core's result on: the hooks on the way out and the answer.
  unfoldable pub finish :
      Bool
      → List (Hook Output World)
      → ℕ
      → Option Output
      → Option String
      → HookContext
      → World
      → ℕ
      → HookResult Output × HookContext × World
  finish fail_fast hooks elapsed output error context world n =
      let post = run_post fail_fast (reverse hooks) output context world n in
      (
        elim post.aborted [
          | some e ↦ failed elapsed (some e) post.executed
          | none ↦ record {
            success = not (raises error) && not post.context.cancelled;
            output = output;
            error = if truthy? error then error else post.context.cancel_reason;
            duration_ns = elapsed;
            hooks_executed = post.executed;
          }
        ],
        post.context,
        post.world,
      )

  -- The core and all that follows it.
  unfoldable pub run_core :
      Bool
      → Core Output World
      → List (Hook Output World)
      → ℕ
      → HookContext
      → World
      → ℕ
      → HookResult Output × HookContext × World
  run_core fail_fast core hooks elapsed context world n =
      let (outcome, values, world') = core context.data_values world in
      let context' = record context { data_values = values } in
      let quiet = run_quiet (reverse hooks) context' world' in
      if fail_fast && raises (error_of outcome)
      then (failed elapsed (error_of outcome) n, quiet.0, quiet.1)
      else finish fail_fast hooks elapsed (output_of outcome) (error_of outcome) context' world' n

  unfoldable pub execute_inner :
      Bool
      → Core Output World
      → List (Hook Output World)
      → ℕ
      → HookContext
      → World
      → HookResult Output × HookContext × World
  execute_inner fail_fast core hooks elapsed context world =
      let pre = run_pre fail_fast hooks context world 0 in
      elim pre.aborted [
        | some e ↦ (failed elapsed (some e) pre.executed, pre.context, pre.world)
        | none ↦
            if pre.context.cancelled
            then finish fail_fast hooks elapsed none none pre.context pre.world pre.executed
            else run_core fail_fast core hooks elapsed pre.context pre.world pre.executed
      ]

  unfoldable pub execute :
      HookRegistry Output World
      → Bool
      → ℕ
      → ℕ
      → HookEvent
      → Core Output World
      → Metadata
      → World
      → HookResult Output × HookContext × World
  execute registry fail_fast start end event core values world =
      execute_inner fail_fast core (get_hooks Output World event registry) (end - start)
        (new_context event values) world
