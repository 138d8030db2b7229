-- ===== src/Router/Select/Turns.antt =====
-- Round robin: every available model has its turn.
use native.Mathlib.Nat.{mod-lt, mod-eq_of_lt, add-mod-mod, add-mul-mod_self_left, div-add-mod}
use agentcook.Prelude.{
  String, ℕ, zero, suc, ◌+◌, ◌-◌, ◌%◌, ◌/◌, ◌*◌, ◌<◌, ◌≡◌, refl, ap, sym, subst, ◌∙◌, List, arith,
  length,
}
use agentcook.Prelude.Floats.{Floats}
use agentcook.Prelude.Results.{ok}
use agentcook.Prelude.Sorting.{str_le, length-sort_by}
use agentcook.Prelude.Members.{In, In-sort_by, get_elem?_of_In}
use agentcook.Router.Registry.{ModelConfig, round_robin}
use agentcook.Router.Choice.{apply_policy, by_name}
use agentcook.Router.Select.{
  RoutingResult, ModelRouter, Request, active_policy, available, candidates, select,
}
use agentcook.Router.Select.Laws.{
  IsEligible, IsEligible-of_In, In-available, select_chosen, select_total, select-inv,
}

-- From any counter, some number of steps below `n` leads to the residue `i`.
steps_to : ℕ → ℕ → ℕ → ℕ
steps_to n c i = (i + n - c % n) % n

steps_to-lt : (n c i : ℕ) → i < n → steps_to n c i < n
unfolding steps_to
steps_to-lt n c i h = omega arith

mod-steps_to : (n c i : ℕ) → i < n → (c + steps_to n c i) % n ≡ i
unfolding steps_to
mod-steps_to n c i h =
    let whole : c + (i + n - c % n) ≡ i + n * (c / n + 1) =
      omega (arith, div-add-mod c n, mod-lt c {m = n} (omega arith)) in
    add-mod-mod c (i + n - c % n) n
    ∙ ap (λ k. k % n) whole
    ∙ add-mul-mod_self_left i n (c / n + 1)
    ∙ mod-eq_of_lt h

module _ (fl : Floats) (repr : List String → String) (q : Request fl) where
  open fl use {Float}

  abbrev at_counter : ModelRouter fl → ℕ → ModelRouter fl
  at_counter r c = record r { counter = c }

  -- The router after a number of calls with the same request.
  abbrev pub turns : ℕ → ModelRouter fl → ModelRouter fl
  turns zero r = r
  turns (suc k) r = turns k (select fl repr r q).1

  available-at_counter :
      (r : ModelRouter fl) (c : ℕ) → available fl (at_counter r c) q ≡ available fl r q
  unfolding available candidates
  available-at_counter r c = refl

  -- A call moves the counter on by one, and leaves the rest of the router.
  select-at_counter :
      (r : ModelRouter fl) (m : ModelConfig Float)
      → active_policy fl r q ≡ round_robin
      → In m (available fl r q)
      → (select fl repr r q).1 ≡ at_counter r (r.counter + 1)
  unfolding apply_policy
  select-at_counter r m robin i =
      let (a, e) = select_total fl r q repr m (IsEligible-of_In fl r q m i) in
      let (_, _, after) = select-inv fl r q repr a e in rw robin at after

  turns_lem :
      (k : ℕ) (r : ModelRouter fl) (m : ModelConfig Float)
      → active_policy fl r q ≡ round_robin
      → In m (available fl r q)
      → turns k r ≡ at_counter r (r.counter + k)
  turns_lem zero r m robin i = ap (at_counter r) (omega arith)
  turns_lem (suc k) r m robin i =
      ap (turns k) (select-at_counter r m robin i)
      ∙ turns_lem k (at_counter r (r.counter + 1)) m robin
          (subst (λ l. In m l) (sym (available-at_counter r (r.counter + 1))) i)
      ∙ ap (at_counter r) (omega arith)

  -- Round robin is fair. As long as registry, probe and request stay the same, each eligible model is
  -- the answer of one of the next calls, as many as there are available models; the number of calls
  -- before it is below that.
  pub select-turns :
      (r : ModelRouter fl) (m : ModelConfig Float)
      → active_policy fl r q ≡ round_robin
      → IsEligible fl r q m
      → (k : ℕ) × (k < length (available fl r q))
        × (a : RoutingResult fl) × ((select fl repr (turns k r) q).0 ≡ ok a)
        × (a.model ≡ m)
  unfolding apply_policy
  select-turns r m robin h =
      let i = In-available fl r q m h in
      let le = λ (a b : ModelConfig Float). str_le a.name b.name in
      let (place, lt, found) =
        get_elem?_of_In m (by_name fl (available fl r q)) (In-sort_by le m (available fl r q) i) in
      let n = length (available fl r q) in
      let small : place < n = omega (arith, length-sort_by le (available fl r q)) in
      let k = steps_to n r.counter place in
      let r' = at_counter r (r.counter + k) in
      let same = available-at_counter r (r.counter + k) in
      let there = subst (λ l. In m l) (sym same) i in
      let (a, e, model) =
        select_chosen fl r' q repr m (λ none_left. subst (λ l. In m l) none_left there)
          (rw (robin, same) (rw (mod-steps_to n r.counter place small) found)) in
      (k, steps_to-lt n r.counter place small, a, rw (turns_lem k r m robin i) e, model)
