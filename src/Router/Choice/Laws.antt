-- ===== src/Router/Choice/Laws.antt =====
-- What `_apply_policy` chooses: a member of the list, and the best one by the policy.
use agentcook.Prelude.{
  ℕ, ◌≤◌, ◌≡◌, refl, sym, subst, Bool, true, false, List, [], ◌∷◌, some, arith, ltb, inl, inr,
  Bool-cases, ◌⊎◌, ◌≢◌,
}
use mathlib.Core.Option.{some-injective}
use agentcook.Prelude.Floats.{Floats}
use agentcook.Prelude.Sorting.{str_le, length-sort_by}
use agentcook.Prelude.Members.{In, In-of_get_elem?, In-of_sort_by, get_elem?_total}
use agentcook.Router.Registry.{
  RoutingPolicy, cost_optimized, quality_first, round_robin, fallback_chain, ModelConfig,
}
use agentcook.Router.Choice.{least_from, least, by_name, apply_policy}

-- `x < x` never holds, and what is not less than the less is not less than the greater.
pub record IsOrder {A : Type 0} (less : A → A → Bool) : Type 0 where
  pub irrefl : (a : A) → less a a ≡ false
  pub trans : (a b c : A) → less b a ≡ false → less c b ≡ false → less c a ≡ false
  pub asym : (a b : A) → less a b ≡ true → less b a ≡ false

module _ {A : Type 0} (less : A → A → Bool) where
  least_from_less :
      (best x : A) (xs : List A)
      → less x best ≡ true
      → least_from less best (x ∷ xs) ≡ least_from less x xs
  unfolding least_from
  least_from_less best x xs h = rw h

  least_from_not_less :
      (best x : A) (xs : List A)
      → less x best ≡ false
      → least_from less best (x ∷ xs) ≡ least_from less best xs
  unfolding least_from
  least_from_not_less best x xs h = rw h

  In-least_from : (best : A) (xs : List A) → In (least_from less best xs) (best ∷ xs)
  In-least_from best [] = inl (unfold least_from in refl)
  In-least_from best (x ∷ xs) = elim (Bool-cases (less x best)) [
    | inl t ↦
        subst (λ z. In z (best ∷ x ∷ xs)) (sym (least_from_less best x xs t))
          (inr (In-least_from x xs))
    | inr f ↦
        subst (λ z. In z (best ∷ x ∷ xs)) (sym (least_from_not_less best x xs f))
          (elim (member (In-least_from best xs)) [ inl e ↦ inl e | inr i ↦ inr (inr i) ])
  ]
    where
      member :
          In (least_from less best xs) (best ∷ xs)
          → (least_from less best xs ≡ best) ⊎ In (least_from less best xs) xs
      member i = i

  In-least : (xs : List A) (x : A) → least less xs ≡ some x → In x xs
  unfolding least
  In-least [] x e = absurd (ground arith)
  In-least (y ∷ ys) x e = subst (λ r. In r (y ∷ ys)) (some-injective _ _ e) (In-least_from y ys)

  module _ (order : IsOrder less) where
    least_from-best :
        (best : A) (xs : List A) (x : A)
        → (x ≡ best) ⊎ In x xs
        → less x (least_from less best xs) ≡ false
    least_from-best best [] x (inl e) = unfold least_from in rw e (order.irrefl best)
    least_from-best best [] x (inr i) = elim i [ ]
    least_from-best best (y ∷ ys) x i = elim (Bool-cases (less y best)) [
      | inl t ↦ rw (least_from_less best y ys t) (elim i [
        | inl e ↦ rw e (
            order.trans (least_from less y ys) y best (least_from-best y ys y (inl refl))
              (order.asym y best t))
        | inr j ↦ least_from-best y ys x j
      ])
      | inr f ↦ rw (least_from_not_less best y ys f) (elim i [
        | inl e ↦ least_from-best best ys x (inl e)
        | inr j ↦ elim (member j) [
          | inl e ↦ rw e (
              order.trans (least_from less best ys) best y (least_from-best best ys best (inl refl))
                f)
          | inr k ↦ least_from-best best ys x (inr k)
        ]
      ])
    ]
      where
        member : In x (y ∷ ys) → (x ≡ y) ⊎ In x ys
        member j = j

    least-best : (xs : List A) (x y : A) → least less xs ≡ some x → In y xs → less y x ≡ false
    unfolding least
    least-best [] x y e i = elim i [ ]
    least-best (z ∷ zs) x y e i =
        subst (λ r. less y r ≡ false) (some-injective _ _ e) (least_from-best z zs y i)

IsOrder-by : {A : Type 0} (key : A → ℕ) → IsOrder (λ (a b : A). ltb (key a) (key b))
IsOrder-by key = record {
  irrefl = λ a. ground arith;
  trans = λ a b c h k. ground arith;
  asym = λ a b h. ground arith;
}

IsOrder-flip : {A : Type 0} (key : A → ℕ) → IsOrder (λ (a b : A). ltb (key b) (key a))
IsOrder-flip key = record {
  irrefl = λ a. ground arith;
  trans = λ a b c h k. ground arith;
  asym = λ a b h. ground arith;
}

module _ (fl : Floats) where
  open fl use {Float}

  -- What it means for `x` to be the best by a policy among the models with `P`. For round robin see
  -- the turns.
  abbrev pub IsBest : RoutingPolicy → (ModelConfig Float → Type 0) → ModelConfig Float → Type 0
  IsBest cost_optimized P x =
      (y : ModelConfig Float) → P y → fl.lt y.cost_per_1k x.cost_per_1k ≡ false
  IsBest quality_first P x = (y : ModelConfig Float) → P y → y.quality_score ≤ x.quality_score
  IsBest round_robin P x = Unit
  IsBest fallback_chain P x = (y : ModelConfig Float) → P y → x.fallback_order ≤ y.fallback_order

  pub apply_policy-IsBest :
      (order : IsOrder (λ (a b : Float). fl.lt a b)) (policy : RoutingPolicy) (counter : ℕ)
      (models : List (ModelConfig Float)) (x : ModelConfig Float)
      → (apply_policy fl policy counter models).0 ≡ some x
      → IsBest policy (λ y. In y models) x
  unfolding apply_policy
  apply_policy-IsBest order cost_optimized counter models x e = λ y i.
      least-best _
        (record {
          irrefl = λ a. order.irrefl a.cost_per_1k;
          trans = λ a b c h k. order.trans a.cost_per_1k b.cost_per_1k c.cost_per_1k h k;
          asym = λ a b h. order.asym a.cost_per_1k b.cost_per_1k h;
        })
        models x y e i
  apply_policy-IsBest order quality_first counter models x e = λ y i.
      let h = least-best _ (IsOrder-flip (λ m. m.quality_score)) models x y e i in ground arith
  apply_policy-IsBest order round_robin counter models x e = tt
  apply_policy-IsBest order fallback_chain counter models x e = λ y i.
      let h = least-best _ (IsOrder-by (λ m. m.fallback_order)) models x y e i in ground arith

  pub IsBest-mono :
      (policy : RoutingPolicy) (P Q : ModelConfig Float → Type 0) (x : ModelConfig Float)
      → ((y : ModelConfig Float) → Q y → P y)
      → IsBest policy P x
      → IsBest policy Q x
  IsBest-mono cost_optimized P Q x f h = λ y q. h y (f y q)
  IsBest-mono quality_first P Q x f h = λ y q. h y (f y q)
  IsBest-mono round_robin P Q x f h = tt
  IsBest-mono fallback_chain P Q x f h = λ y q. h y (f y q)

  -- The choice is one of the models.
  pub In-apply_policy :
      (policy : RoutingPolicy) (counter : ℕ) (models : List (ModelConfig Float))
      (x : ModelConfig Float)
      → (apply_policy fl policy counter models).0 ≡ some x
      → In x models
  unfolding apply_policy
  In-apply_policy cost_optimized counter models x e = In-least _ models x e
  In-apply_policy quality_first counter models x e = In-least _ models x e
  In-apply_policy round_robin counter models x e =
      In-of_sort_by _ x models (In-of_get_elem? x (by_name fl models) _ e)
  In-apply_policy fallback_chain counter models x e = In-least _ models x e

  -- A list that is not empty has a choice.
  pub apply_policy_total :
      (policy : RoutingPolicy) (counter : ℕ) (models : List (ModelConfig Float))
      → models ≢ []
      → (x : ModelConfig Float) × ((apply_policy fl policy counter models).0 ≡ some x)
  unfolding apply_policy least
  apply_policy_total policy counter [] h = absurd (h refl)
  apply_policy_total cost_optimized counter (m ∷ ms) h = (_, refl)
  apply_policy_total quality_first counter (m ∷ ms) h = (_, refl)
  apply_policy_total round_robin counter (m ∷ ms) h =
      get_elem?_total (by_name fl (m ∷ ms)) _
        (omega (arith, length-sort_by (λ (a b : ModelConfig Float). str_le a.name b.name) (m ∷ ms)))
  apply_policy_total fallback_chain counter (m ∷ ms) h = (_, refl)
