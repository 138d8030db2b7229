-- ===== src/Sandbox/Executor/Laws.antt =====
-- What both executors promise of a result, and what Docker's leaves behind.
use agentcook.Prelude.{
  ℕ, ◌≡◌, refl, ap, subst, Bool, true, false, not, ◌&&◌, [], Option, some, inl, inr, Bool-cases,
  Option-cases, arith,
}
use agentcook.Prelude.Chars.{Chars, codes, same, strip}
use agentcook.Prelude.Integers.{negsuc, is_zero}
use agentcook.Sandbox.Command.{SandboxConfig}
use agentcook.Sandbox.Executor.{
  SandboxResult, success, Process, Outcome, completed, expired, not_found, broken, Ran, finished,
  sandbox_error, propagated, inspect, is_oom, removal, check_oom, force_remove, after_process,
  docker_process, docker_run, of_outcome, python_process, subprocess_run,
}

-- The promise of an executor: how a result follows from what the plugin's process came to. A failure
-- of the infrastructure has no result.
abbrev pub Reports : Outcome → SandboxResult → Type 0
Reports (completed code out err) r =
    (r.exit_code ≡ code)
    × (r.stdout ≡ out)
    × (r.stderr ≡ err)
    × (success r ≡ (is_zero code && not r.oom_killed))
Reports expired r =
    (r.exit_code ≡ negsuc 0) × (r.timed_out ≡ true) × (r.stdout ≡ []) × (success r ≡ false)
Reports not_found r = ⊥
Reports broken r = ⊥

abbrev result_in : SandboxResult → Ran → SandboxResult
result_in d (finished r) = r
result_in d (sandbox_error e) = d
result_in d propagated = d

-- What `docker inspect` says: the result has a kill for memory exactly where the inspection ended and
-- its text, without white space and in lower case, is `true`. Another exception has no result.
abbrev pub Inspected : (Chars → Chars) → Outcome → Bool → Type 0
Inspected lower (completed code out err) oom = oom ≡ same (lower (strip out)) (codes "true")
Inspected lower expired oom = oom ≡ false
Inspected lower not_found oom = oom ≡ false
Inspected lower broken oom = ⊥

some_inj : {a b : Bool} → some a ≡ some b → b ≡ a
some_inj e = ground (arith, e)

-- The results are the same where both runs finished.
result_eq : (r s : SandboxResult) → finished r ≡ finished s → r ≡ s
result_eq r s e = ap (result_in r) e

module _ {World : Type 0} (spawn : Process → World → Outcome × World) (docker : Chars)
    (lower : Chars → Chars) where
  -- What Docker's executor adds to the promise: the container is inspected behind a process that ended,
  -- and the result has its kill for memory; behind a time-out the container is removed. Nothing else
  -- is called.
  abbrev pub Handled : Chars → Outcome → World → World → SandboxResult → Type 0
  Handled container_name (completed code out err) world world' r =
      Inspected lower (spawn (inspect docker container_name) world).0 r.oom_killed
      × (world' ≡ (spawn (inspect docker container_name) world).1)
  Handled container_name expired world world' r =
      (r.oom_killed ≡ false) × (world' ≡ (spawn (removal docker container_name) world).1)
  Handled container_name not_found world world' r = ⊥
  Handled container_name broken world world' r = ⊥

  Inspected-is_oom :
      (outcome : Outcome) (oom : Bool)
      → is_oom spawn docker lower outcome ≡ some oom
      → Inspected lower outcome oom
  Inspected-is_oom (completed code out err) oom h = some_inj h
  Inspected-is_oom expired oom h = some_inj h
  Inspected-is_oom not_found oom h = some_inj h
  Inspected-is_oom broken oom h = absurd (ground (arith, h))

  after_process-Reports :
      (container_name : Chars) (timeout duration_ms : ℕ) (outcome : Outcome) (world : World)
      (r : SandboxResult)
      → (after_process spawn docker lower container_name timeout duration_ms outcome world).0
        ≡ finished r
      → Reports outcome r
        × Handled container_name outcome world
            (after_process spawn docker lower container_name timeout duration_ms outcome world).1
            r
  unfolding after_process success force_remove check_oom
  after_process-Reports name timeout d (completed code out err) world r h =
      elim (Option-cases (is_oom spawn docker lower (spawn (inspect docker name) world).0)) [
        | inl e ↦ absurd (ground (arith, (rw (e, after_process, check_oom) at h)))
        | inr (oom, e) ↦
            subst
              (λ r.
                Reports (completed code out err) r
                × Handled name (completed code out err) world
                    (after_process spawn docker lower name timeout d (completed code out err)
                      world).1
                    r)
              (result_eq _ r (rw (e, after_process, check_oom) at h))
              (
                (refl, refl, refl, ground arith),
                (
                  Inspected-is_oom (spawn (inspect docker name) world).0 oom e,
                  rw (e, after_process, check_oom) refl,
                ),
              )
      ]
  after_process-Reports name timeout d expired world r h =
      elim (Bool-cases (force_remove spawn docker lower name world).0) [
        | inr e ↦ absurd (ground (arith, h, e))
        | inl e ↦
            subst
              (λ r.
                Reports expired r
                × Handled name expired world
                    (after_process spawn docker lower name timeout d expired world).1 r)
              (result_eq _ r (rw (e, after_process) at h)) ((refl, refl, refl, refl), (refl, refl))
      ]
  after_process-Reports name timeout d not_found world r h = absurd (ground (arith, h))
  after_process-Reports name timeout d broken world r h = absurd (ground (arith, h))

  module _ {Float : Type 0} (half : Float) (str_float : Float → Chars) (container_name : Chars)
      (duration_ms : ℕ) (code : Chars) (config : Option (SandboxConfig Float)) (script_name : Chars)
      (plugin_dir : Option Chars) (world : World) where
    -- A result of the Docker executor reports what the container's process came to: its exit code and
    -- its texts, with success just for code 0 and no kill for memory, or the time-out, with exit code
    -- -1 and no success. After a process that ended the container is inspected, and the kill for
    -- memory is what the inspection says; after a time-out the container is removed by force.
    pub docker_run-Reports :
        (r : SandboxResult)
        → (docker_run spawn docker lower half str_float container_name duration_ms code config
            script_name plugin_dir world).0
          ≡ finished r
        → let (outcome, world') =
            spawn
              (docker_process spawn docker lower half str_float container_name code config
                script_name plugin_dir)
              world in
          Reports outcome r
          × Handled container_name outcome world'
              (docker_run spawn docker lower half str_float container_name duration_ms code config
                script_name plugin_dir world).1
              r
    unfolding docker_run
    docker_run-Reports r h = after_process-Reports container_name _ duration_ms _ _ r h

module _ {Float World : Type 0} (spawn : Process → World → Outcome × World) (python : Chars)
    (half : Float) where
  of_outcome-Reports :
      (timeout duration_ms : ℕ) (outcome : Outcome) (r : SandboxResult)
      → of_outcome python timeout duration_ms outcome ≡ finished r
      → Reports outcome r
  unfolding success
  of_outcome-Reports timeout d (completed code out err) r h =
      subst (Reports (completed code out err)) (result_eq _ r h) (refl, refl, refl, ground arith)
  of_outcome-Reports timeout d expired r h =
      subst (Reports expired) (result_eq _ r h) (refl, refl, refl, refl)
  of_outcome-Reports timeout d not_found r h = absurd (ground (arith, h))
  of_outcome-Reports timeout d broken r h = absurd (ground (arith, h))

  -- The subprocess executor keeps the same promise, with one process and no container.
  pub subprocess_run-Reports :
      (duration_ms : ℕ) (code : Chars) (config : Option (SandboxConfig Float)) (world : World)
      (r : SandboxResult)
      → (subprocess_run spawn python half duration_ms code config world).0 ≡ finished r
      → Reports (spawn (python_process spawn python half code config) world).0 r
        × ((subprocess_run spawn python half duration_ms code config world).1
            ≡ (spawn (python_process spawn python half code config) world).1)
  unfolding subprocess_run
  subprocess_run-Reports d code config world r h = (of_outcome-Reports _ d _ r h, refl)
