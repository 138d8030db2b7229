-- ===== src/Hooks/Pipeline/Onion.antt =====
-- The onion: each hook wraps those registered after it, and the core is in the middle.
use mathlib.Core.List.{reverse-append}
use agentcook.Prelude.{
  ℕ, ◌+◌, ◌≡◌, refl, ap, sym, subst, ◌∙◌, Bool, false, not, ◌&&◌, List, [], ◌∷◌, ◌++◌, Option, none,
  length, length-reverse, reverse, All, if◌then◌else◌, arith,
}
use agentcook.Prelude.Strings.{truthy?}
use agentcook.Hooks.Context.{HookContext, Hook}
use agentcook.Hooks.Pipeline.{
  Outcome, raises, Core, run_pre, run_post, finish, run_core, execute_inner, output_of, error_of,
}

module _ {Output World : Type 0} where
  -- A hook that never raises and never cancels.
  pub record IsQuiet (h : Hook Output World) : Type 0 where
    pub pre_returns : (c : HookContext) (w : World) → (h.pre_execute c w).0 ≡ none
    pub pre_runs :
        (c : HookContext) (w : World)
        → c.cancelled ≡ false
        → (h.pre_execute c w).1.cancelled ≡ false
    pub post_returns :
        (c : HookContext) (o : Option Output) (w : World) → (h.post_execute c o w).0 ≡ none
    pub post_runs :
        (c : HookContext) (o : Option Output) (w : World)
        → c.cancelled ≡ false
        → (h.post_execute c o w).1.cancelled ≡ false

  -- The first hook's way in, all that is inside it, and its way out.
  unfoldable pub onion :
      Core Output World
      → List (Hook Output World)
      → HookContext
      → World
      → Outcome Output × HookContext × World
  onion core [] context world =
      let (outcome, values, world') = core context.data_values world in
      (outcome, record context { data_values = values }, world')
  onion core (hook ∷ hooks) context world =
      let (_, context', world') = hook.pre_execute context world in
      let inner = onion core hooks context' world' in
      let (_, context'', world'') = hook.post_execute inner.1 (output_of inner.0) inner.2 in
      (inner.0, context'', world'')

  way_in : List (Hook Output World) → HookContext → World → HookContext × World
  way_in [] c w = (c, w)
  way_in (h ∷ hs) c w = way_in hs (h.pre_execute c w).1 (h.pre_execute c w).2

  way_out : List (Hook Output World) → Option Output → HookContext × World → HookContext × World
  way_out [] o s = s
  way_out (h ∷ hs) o s = way_out hs o ((h.post_execute s.0 o s.1).1, (h.post_execute s.0 o s.1).2)

  way_out-append :
      (xs : List (Hook Output World)) (h : Hook Output World) (o : Option Output)
      (s : HookContext × World)
      → way_out (xs ++ h ∷ []) o s ≡ way_out (h ∷ []) o (way_out xs o s)
  unfolding way_out
  way_out-append [] h o s = refl
  way_out-append (x ∷ xs) h o s =
      way_out-append xs h o ((x.post_execute s.0 o s.1).1, (x.post_execute s.0 o s.1).2)

  module _ (fail_fast : Bool) where
    run_pre-eq :
        (hooks : List (Hook Output World)) (c : HookContext) (w : World) (n : ℕ)
        → All IsQuiet hooks
        → c.cancelled ≡ false
        → (run_pre fail_fast hooks c w n ≡ record {
          aborted = none;
          context = (way_in hooks c w).0;
          world = (way_in hooks c w).1;
          executed = n + length hooks;
        })
          × ((way_in hooks c w).0.cancelled ≡ false)
    unfolding way_in run_pre
    run_pre-eq [] c w n q h = (ground arith, h)
    run_pre-eq (x ∷ xs) c w n q h =
        let runs = q.0.pre_runs c w h in
        let rest = run_pre-eq xs (x.pre_execute c w).1 (x.pre_execute c w).2 (n + 1) q.1 runs in
        (ground (arith, q.0.pre_returns c w, runs, rest.0), rest.1)

    run_post-eq :
        (hooks : List (Hook Output World)) (o : Option Output) (c : HookContext) (w : World) (n : ℕ)
        → All IsQuiet hooks
        → c.cancelled ≡ false
        → (run_post fail_fast hooks o c w n ≡ record {
          aborted = none;
          context = (way_out hooks o (c, w)).0;
          world = (way_out hooks o (c, w)).1;
          executed = n + length hooks;
        })
          × ((way_out hooks o (c, w)).0.cancelled ≡ false)
    unfolding way_out run_post
    run_post-eq [] o c w n q h = (ground arith, h)
    run_post-eq (x ∷ xs) o c w n q h =
        let runs = q.0.post_runs c o w h in
        let rest =
          run_post-eq xs o (x.post_execute c o w).1 (x.post_execute c o w).2 (n + 1) q.1 runs in
        (ground (arith, q.0.post_returns c o w, runs, rest.0), rest.1)

  All-snoc :
      (xs : List (Hook Output World)) (x : Hook Output World)
      → All IsQuiet xs
      → IsQuiet x
      → All IsQuiet (xs ++ x ∷ [])
  All-snoc [] x h q = (q, tt)
  All-snoc (y ∷ ys) x h q = (h.0, All-snoc ys x h.1 q)

  All-reverse : (xs : List (Hook Output World)) → All IsQuiet xs → All IsQuiet (reverse xs)
  All-reverse [] h = tt
  All-reverse (x ∷ xs) h =
      subst (All IsQuiet) (sym (reverse-append (x ∷ []) xs))
        (All-snoc (reverse xs) x (All-reverse xs h.1) h.0)

  -- The core between the ways in and out.
  around :
      Core Output World
      → List (Hook Output World)
      → HookContext
      → World
      → Outcome Output × HookContext × World
  unfolding way_in way_out
  around core hooks c w =
      let inside = way_in hooks c w in
      let (outcome, values, world') = core inside.0.data_values inside.1 in
      let outside =
        way_out (reverse hooks) (output_of outcome)
          (record (inside.0) { data_values = values }, world') in
      (outcome, outside.0, outside.1)

  onion-around :
      (core : Core Output World) (hooks : List (Hook Output World)) (c : HookContext) (w : World)
      → onion core hooks c w ≡ around core hooks c w
  unfolding onion around way_in way_out
  onion-around core [] c w = refl
  onion-around core (x ∷ xs) c w =
      let c' = (x.pre_execute c w).1 in
      let w' = (x.pre_execute c w).2 in
      let outer : Outcome Output × HookContext × World → Outcome Output × HookContext × World = λ i.
        (
          i.0,
          (x.post_execute i.1 (output_of i.0) i.2).1,
          (x.post_execute i.1 (output_of i.0) i.2).2,
        ) in
      let inside = way_in xs c' w' in
      let middle = core inside.0.data_values inside.1 in
      let turn : HookContext × World = (record (inside.0) { data_values = middle.1 }, middle.2) in
      let whole : HookContext × World → Outcome Output × HookContext × World =
        λ s. (middle.0, s.0, s.1) in
      ap outer (onion-around core xs c' w')
      ∙ sym (
          ap whole (
            ap (λ hs. way_out hs (output_of middle.0) turn) (reverse-append (x ∷ []) xs)
            ∙ way_out-append (reverse xs) x (output_of middle.0) turn))

  -- With hooks that neither raise nor cancel, a run is the onion: each hook's way in, the run of those
  -- registered after it around the core, each hook's way out. Every hook counts twice, success and
  -- output are the core's. The core returns, or `fail_fast` is off.
  pub execute-onion :
      (fail_fast : Bool) (core : Core Output World) (hooks : List (Hook Output World)) (elapsed : ℕ)
      (c : HookContext) (w : World)
      → All IsQuiet hooks
      → c.cancelled ≡ false
      → (fail_fast && raises (error_of (onion core hooks c w).0)) ≡ false
      → execute_inner fail_fast core hooks elapsed c w ≡ (
        record {
          success = not (raises (error_of (onion core hooks c w).0));
          output = output_of (onion core hooks c w).0;
          error =
              if truthy? (error_of (onion core hooks c w).0)
              then error_of (onion core hooks c w).0
              else (onion core hooks c w).1.cancel_reason;
          duration_ns = elapsed;
          hooks_executed = length hooks + length hooks;
        },
        (onion core hooks c w).1,
        (onion core hooks c w).2,
      )
  unfolding around execute_inner run_core finish
  execute-onion fail_fast core hooks elapsed c w quiet runs going =
      let inside = way_in hooks c w in
      let middle = core inside.0.data_values inside.1 in
      let inward = run_pre-eq fail_fast hooks c w 0 quiet runs in
      let outward =
        run_post-eq fail_fast (reverse hooks) (output_of middle.0)
          (record (inside.0) { data_values = middle.1 }) middle.2 (length hooks)
          (All-reverse hooks quiet) inward.1 in
      let go = rw (onion-around core hooks c w) at going in
      rw (onion-around core hooks c w)
        (ground (arith, inward.0, inward.1, outward.0, outward.1, go, length-reverse hooks))
