-- ===== src/Hooks/Pipeline/Laws.antt =====
-- Runs in which a hook cancels or fails.
use agentcook.Prelude.{
  String, ℕ, ◌+◌, ◌≤◌, ◌≡◌, refl, Bool, true, ◌&&◌, List, [], ◌∷◌, Option, none, some, length,
  length-reverse, reverse, ◌⊎◌, inl, inr, Bool-cases, Option-cases, arith,
}
use agentcook.Hooks.Context.{HookContext, Hook}
use agentcook.Hooks.Pipeline.{
  raises, count_one, Core, run_pre, run_post, finish, run_core, execute_inner, output_of, error_of,
}

count_one-le : (e : Option String) (n : ℕ) → count_one e n ≤ n + 1
count_one-le none n = omega arith
count_one-le (some e) n = omega arith

module _ {Output World : Type 0} (fail_fast : Bool) where
  executed-run_pre :
      (hooks : List (Hook Output World)) (context : HookContext) (world : World) (n : ℕ)
      → (run_pre fail_fast hooks context world n).executed ≤ n + length hooks
  unfolding run_pre
  executed-run_pre [] context world n = omega arith
  executed-run_pre (hook ∷ hooks) context world n =
      let (e, context', world') = hook.pre_execute context world in
      ground (arith, count_one-le e n, executed-run_pre hooks context' world' (count_one e n))

  executed-run_post :
      (hooks : List (Hook Output World)) (output : Option Output) (context : HookContext)
      (world : World) (n : ℕ)
      → (run_post fail_fast hooks output context world n).executed ≤ n + length hooks
  unfolding run_post
  executed-run_post [] output context world n = omega arith
  executed-run_post (hook ∷ hooks) output context world n =
      let (e, context', world') = hook.post_execute context output world in
      ground
        (arith, count_one-le e n, executed-run_post hooks output context' world' (count_one e n))

  executed-finish :
      (hooks : List (Hook Output World)) (elapsed : ℕ) (output : Option Output)
      (error : Option String) (context : HookContext) (world : World) (n : ℕ)
      → (finish fail_fast hooks elapsed output error context world n).0.hooks_executed
        ≤ n + length hooks
  unfolding finish
  executed-finish hooks elapsed output error context world n =
      let post = run_post fail_fast (reverse hooks) output context world n in
      let bound = executed-run_post (reverse hooks) output context world n in
      elim (Option-cases post.aborted) [
        | inl e ↦ rw (e, finish) (omega (arith, bound, length-reverse hooks))
        | inr (x, e) ↦ rw (e, finish) (omega (arith, bound, length-reverse hooks))
      ]

  module _ (core : Core Output World) (hooks : List (Hook Output World)) (elapsed : ℕ) where
    executed-run_core :
        (context : HookContext) (world : World) (n : ℕ)
        → (run_core fail_fast core hooks elapsed context world n).0.hooks_executed
          ≤ n + length hooks
    unfolding run_core
    executed-run_core context world n =
        let (outcome, values, world') = core context.data_values world in
        elim (Bool-cases (fail_fast && raises (error_of outcome))) [
          | inl e ↦ rw e (omega arith)
          | inr e ↦ rw e (
              executed-finish hooks elapsed (output_of outcome) (error_of outcome)
                (record context { data_values = values }) world' n)
        ]

    -- No run counts more calls than each hook being called on the way in and on the way out.
    pub execute-hooks_executed :
        (context : HookContext) (world : World)
        → (execute_inner fail_fast core hooks elapsed context world).0.hooks_executed
          ≤ length hooks + length hooks
    unfolding execute_inner
    execute-hooks_executed context world =
        let pre = run_pre fail_fast hooks context world 0 in
        let bound = executed-run_pre hooks context world 0 in
        elim (Option-cases pre.aborted) [
          | inr (x, e) ↦ rw (e, execute_inner) (omega (arith, bound))
          | inl e ↦ elim (Bool-cases pre.context.cancelled) [
            | inl c ↦
                rw (e, c, execute_inner)
                  (omega (
                    arith,
                    bound,
                    executed-finish hooks elapsed none none pre.context pre.world pre.executed,
                  ))
            | inr c ↦
                rw (e, c, execute_inner)
                  (omega (arith, bound, executed-run_core pre.context pre.world pre.executed))
          ]
        ]

    output-finish :
        (context : HookContext) (world : World) (n : ℕ)
        → (finish fail_fast hooks elapsed none none context world n).0.output ≡ none
    unfolding finish
    output-finish context world n =
        elim (Option-cases (run_post fail_fast (reverse hooks) none context world n).aborted) [
          | inl e ↦ rw (e, finish) refl
          | inr (x, e) ↦ rw (e, finish) refl
        ]

    -- Where a hook on the way in cancels or ends the run, the core is not called: the answer, the
    -- context and the world are the same with any other core, and there is no output.
    pub execute-cancelled :
        (other : Core Output World) (context : HookContext) (world : World)
        → (raises (run_pre fail_fast hooks context world 0).aborted ≡ true)
          ⊎ ((run_pre fail_fast hooks context world 0).context.cancelled ≡ true)
        → (execute_inner fail_fast core hooks elapsed context world
            ≡ execute_inner fail_fast other hooks elapsed context world)
          × ((execute_inner fail_fast core hooks elapsed context world).0.output ≡ none)
    unfolding execute_inner
    execute-cancelled other context world h =
        let pre = run_pre fail_fast hooks context world 0 in
        elim (Option-cases pre.aborted) [
          | inr (x, e) ↦ (rw (e, execute_inner) refl, rw (e, execute_inner) refl)
          | inl e ↦ elim h [
            | inl bad ↦ absurd (ground (arith, e, bad))
            | inr c ↦ (
              rw (e, c, execute_inner) refl,
              rw (e, c, execute_inner) (output-finish pre.context pre.world pre.executed),
            )
          ]
        ]
