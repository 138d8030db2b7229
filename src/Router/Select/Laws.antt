-- ===== src/Router/Select/Laws.antt =====
-- What a call of `select` answers.
use mathlib.Core.List.{map}
use agentcook.Prelude.{
  String, ◌≡◌, ◌≢◌, refl, ap, sym, subst, ◌∙◌, Bool, true, false, not, List, [], ◌∷◌, some, arith,
  keep_if, is_empty, inl, inr, Bool-cases, str_eq, eq_iff, eq_refl,
}
use agentcook.Prelude.Floats.{Floats}
use agentcook.Prelude.Results.{ok, raise, router_error}
use agentcook.Prelude.Dict
use agentcook.Prelude.Members.{
  In, In-keep_if, In-of_keep_if, any_of_In, In-of_any, In-map, In-of_map, keep_if-cong,
}
use agentcook.Router.Registry.{ModelConfig, contains, is_listed, list_enabled}
use agentcook.Router.Choice.{apply_policy}
use agentcook.Router.Choice.Laws.{
  IsOrder, IsBest, apply_policy-IsBest, IsBest-mono, In-apply_policy, apply_policy_total,
}
use agentcook.Router.Select.{
  RoutingResult, ModelRouter, Request, active_policy, excluded, candidates, available,
  tried_unavailable, select, policy_value,
}
use agentcook.Prelude.Strings.{fmt}

not-eq-true : (b : Bool) → not b ≡ true → b ≡ false
not-eq-true b h = ground arith

nil_of_empty : {A : Type 0} (xs : List A) → is_empty xs ≡ true → xs ≡ []
nil_of_empty [] h = refl
nil_of_empty (x ∷ xs) h = absurd (ground arith)

pub not_empty_of_ne : {A : Type 0} (xs : List A) → xs ≢ [] → is_empty xs ≡ false
not_empty_of_ne [] h = absurd (h refl)
not_empty_of_ne (x ∷ xs) h = refl

empty_of_none : {A : Type 0} (xs : List A) → ((x : A) → ¬ In x xs) → is_empty xs ≡ true
empty_of_none [] h = refl
empty_of_none (x ∷ xs) h = absurd (h x (inl refl))

module _ (fl : Floats) (r : ModelRouter fl) (q : Request fl) where
  open fl use {Float}

  -- A model that a call may answer with: registered, enabled, let through by the filters, not
  -- excluded, and answering the probe.
  pub record IsEligible (m : ModelConfig Float) : Type 0 where
    pub registered : In m (Dict.values r.registry)
    pub listed : is_listed q.provider q.tag m ≡ true
    pub not_excluded : contains (excluded fl q) m.name ≡ false
    pub answers : r.is_available m.name ≡ true

  pub In-available : (m : ModelConfig Float) → IsEligible m → In m (available fl r q)
  unfolding available candidates list_enabled
  In-available m h =
      In-keep_if _ m _
        (In-keep_if _ m _ (In-keep_if _ m _ h.registered h.listed) (rw h.not_excluded refl))
        h.answers

  pub IsEligible-of_In : (m : ModelConfig Float) → In m (available fl r q) → IsEligible m
  unfolding available candidates list_enabled
  IsEligible-of_In m i =
      let (i', answers) = In-of_keep_if (λ c. r.is_available c.name) m (candidates fl r q) i in
      let (i'', kept) = In-of_keep_if (λ c. not (contains (excluded fl q) c.name)) m _ i' in
      let (registered, listed) = In-of_keep_if (is_listed q.provider q.tag) m _ i'' in
      record {
        registered = registered;
        listed = listed;
        not_excluded = not-eq-true (contains (excluded fl q) m.name) kept;
        answers = answers;
      }

  probe_of_contains :
      (m : ModelConfig Float)
      → In m (candidates fl r q)
      → contains (map (λ a. a.name) (available fl r q)) m.name ≡ r.is_available m.name
  probe_of_contains m i = elim (Bool-cases (r.is_available m.name)) [
    | inl up ↦
        any_of_In (λ n. str_eq n m.name) m.name (map (λ a. a.name) (available fl r q))
          (In-map (λ a. a.name) m (available fl r q)
            (unfold available in
              In-keep_if (λ c. r.is_available c.name) m (candidates fl r q) i up))
          (eq_refl m.name)
        ∙ sym up
    | inr down ↦ elim (Bool-cases (contains (map (λ a. a.name) (available fl r q)) m.name)) [
      | inl found ↦
          let (n, n_in, same) =
            In-of_any (λ n. str_eq n m.name) (map (λ a. a.name) (available fl r q)) found in
          let (a, a_in, named) =
            In-of_map (λ (a : ModelConfig Float). a.name) n (available fl r q) n_in in
          let up = (IsEligible-of_In a a_in).answers in
          absurd (cc ((eq_iff n m.name).0 same, named, up, down))
      | inr missing ↦ missing ∙ sym down
    ]
  ]

  -- `alternatives_tried` names, in their order, the candidates that the probe turned down.
  pub tried_unavailable-eq :
      tried_unavailable fl r q
      ≡ map (λ m. m.name) (keep_if (λ m. not (r.is_available m.name)) (candidates fl r q))
  unfolding tried_unavailable
  tried_unavailable-eq =
      ap (map (λ m. m.name))
        (keep_if-cong _ _ (candidates fl r q) (λ m i. ap not (probe_of_contains m i)))

  module _ (repr : List String → String) where
    pub select-inv :
        (a : RoutingResult fl)
        → (select fl repr r q).0 ≡ ok a
        → ((apply_policy fl (active_policy fl r q) r.counter (available fl r q)).0 ≡ some a.model)
          × (a.alternatives_tried ≡ tried_unavailable fl r q)
          × ((select fl repr r q).1 ≡ record r {
            counter = (apply_policy fl (active_policy fl r q) r.counter (available fl r q)).1;
          })
    unfolding select
    select-inv a h = ground arith

    candidates-ne-nil : available fl r q ≢ [] → is_empty (candidates fl r q) ≡ false
    unfolding available
    candidates-ne-nil some_left = elim (Bool-cases (is_empty (candidates fl r q))) [
      | inl e ↦ absurd (some_left (ap (keep_if (λ m. r.is_available m.name)) (nil_of_empty _ e)))
      | inr f ↦ f
    ]

    pub select_chosen :
        (m : ModelConfig Float)
        → available fl r q ≢ []
        → (apply_policy fl (active_policy fl r q) r.counter (available fl r q)).0 ≡ some m
        → (a : RoutingResult fl) × ((select fl repr r q).0 ≡ ok a) × (a.model ≡ m)
    unfolding select
    select_chosen m some_left h =
        let some_candidate = candidates-ne-nil some_left in
        let some_available = not_empty_of_ne (available fl r q) some_left in
        (
          record {
            model = m;
            reason = fmt ("policy=" ∷ policy_value (active_policy fl r q) ∷ []);
            alternatives_tried = tried_unavailable fl r q;
          },
          ground arith,
          refl,
        )

    -- A call of `select` that returns answers with a model that is registered, enabled, let through
    -- by both filters, not excluded and available, and that is the best of all such by the policy:
    -- none is cheaper, none has a higher quality score, or none stands earlier in the fallback order.
    -- The comparison of costs is an order.
    pub select-IsEligible :
        (order : IsOrder (λ (a b : Float). fl.lt a b)) (a : RoutingResult fl)
        → (select fl repr r q).0 ≡ ok a
        → IsEligible a.model × IsBest fl (active_policy fl r q) IsEligible a.model
    select-IsEligible order a h =
        let (chosen, _, _) = select-inv a h in
        let policy = active_policy fl r q in
        (
          IsEligible-of_In a.model
              (In-apply_policy fl policy r.counter (available fl r q) a.model chosen),
          IsBest-mono fl policy (λ y. In y (available fl r q)) IsEligible a.model In-available
              (apply_policy-IsBest fl order policy r.counter (available fl r q) a.model chosen),
        )

    -- If some model is eligible, `select` returns.
    pub select_total :
        (m : ModelConfig Float)
        → IsEligible m
        → (a : RoutingResult fl) × ((select fl repr r q).0 ≡ ok a)
    select_total m h =
        let some_left : available fl r q ≢ [] = λ e. subst (λ l. In m l) e (In-available m h) in
        let (x, chosen) =
          apply_policy_total fl (active_policy fl r q) r.counter (available fl r q) some_left in
        let (a, e, _) = select_chosen x some_left chosen in (a, e)

    -- If no model is eligible, `select` raises a ModelRouterError and leaves the router as it is.
    pub select-router_error :
        ((m : ModelConfig Float) → ¬ IsEligible m)
        → (message : String) × ((select fl repr r q).0 ≡ raise (router_error message))
          × ((select fl repr r q).1 ≡ r)
    unfolding select
    select-router_error none_left =
        let e : is_empty (available fl r q) ≡ true =
          empty_of_none (available fl r q) (λ m i. none_left m (IsEligible-of_In m i)) in
        elim (Bool-cases (is_empty (candidates fl r q))) [
          | inl nobody ↦ ("No eligible models found in registry", rw nobody refl, rw nobody refl)
          | inr some_left ↦ (
            fmt (
                "All candidate models unavailable: "
                ∷ repr (map (λ m. m.name) (candidates fl r q))
                ∷ []),
            rw (some_left, e) refl,
            rw (some_left, e) refl,
          )
        ]
