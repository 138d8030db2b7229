-- ===== src/MultiAgent/Route/Laws.antt =====
-- To whom a task goes.
use agentcook.Prelude.{
  String, ◌≡◌, ◌⊎◌, refl, ap, subst, ◌∙◌, Bool, true, false, List, [], ◌∷◌, ◌++◌, Option, none,
  some, All, inl, inr, Bool-cases, Option-cases, arith,
}
use agentcook.Prelude.Members.{First, here, there}
use agentcook.Prelude.Results.{Error, Result, ok, raise, index_error}
use agentcook.MultiAgent.Route.{
  AgentNodeConfig, some_pattern, is_triggered, find_triggered, find_fallback, last, route,
}

module _ (lower : String → String) (search : String → String → Option Bool) where
  module _ (text : String) where
    abbrev pub Triggered : AgentNodeConfig → Type 0
    Triggered a = is_triggered lower search text a ≡ ok true

    abbrev pub Untriggered : AgentNodeConfig → Type 0
    Untriggered a = is_triggered lower search text a ≡ ok false

    Result-cases :
        (r : Result Bool) → (r ≡ ok true) ⊎ ((r ≡ ok false) ⊎ ((e : Error) × (r ≡ raise e)))
    Result-cases (ok true) = inl refl
    Result-cases (ok false) = inr (inl refl)
    Result-cases (raise e) = inr (inr (e, refl))

    find_triggered-First :
        (agents : List AgentNodeConfig) (a : AgentNodeConfig)
        → find_triggered lower search text agents ≡ ok (some a)
        → First Triggered Untriggered a agents
    unfolding find_triggered
    find_triggered-First [] a h = absurd (ground (arith, h))
    find_triggered-First (x ∷ xs) a h = elim (Result-cases (is_triggered lower search text x)) [
      | inl t ↦
          let same : x ≡ a = ground (arith, h, t) in
          subst (λ y. First Triggered Untriggered y (x ∷ xs)) same (here xs t)
      | inr (inl f) ↦ there x f (find_triggered-First xs a (ground (arith, h, f)))
      | inr (inr (e, r)) ↦ absurd (ground (arith, h, r))
    ]

    find_triggered-All :
        (agents : List AgentNodeConfig)
        → find_triggered lower search text agents ≡ ok none
        → All Untriggered agents
    unfolding find_triggered
    find_triggered-All [] h = tt
    find_triggered-All (x ∷ xs) h = elim (Result-cases (is_triggered lower search text x)) [
      | inl t ↦ absurd (ground (arith, h, t))
      | inr (inl f) ↦ (f, find_triggered-All xs (ground (arith, h, f)))
      | inr (inr (e, r)) ↦ absurd (ground (arith, h, r))
    ]

  abbrev pub IsFallback : AgentNodeConfig → Type 0
  IsFallback a = a.is_fallback ≡ true

  abbrev pub IsSpecialist : AgentNodeConfig → Type 0
  IsSpecialist a = a.is_fallback ≡ false

  find_fallback-First :
      (agents : List AgentNodeConfig) (a : AgentNodeConfig)
      → find_fallback agents ≡ some a
      → First IsFallback IsSpecialist a agents
  unfolding find_fallback
  find_fallback-First [] a h = absurd (ground (arith, h))
  find_fallback-First (x ∷ xs) a h = elim (Bool-cases x.is_fallback) [
    | inl t ↦
        let same : x ≡ a = ground (arith, h, t) in
        subst (λ y. First IsFallback IsSpecialist y (x ∷ xs)) same (here xs t)
    | inr f ↦ there x f (find_fallback-First xs a (ground (arith, h, f)))
  ]

  find_fallback-All :
      (agents : List AgentNodeConfig) → find_fallback agents ≡ none → All IsSpecialist agents
  unfolding find_fallback
  find_fallback-All [] h = tt
  find_fallback-All (x ∷ xs) h = elim (Bool-cases x.is_fallback) [
    | inl t ↦ absurd (ground (arith, h, t))
    | inr f ↦ (f, find_fallback-All xs (ground (arith, h, f)))
  ]

  last-append :
      (agents : List AgentNodeConfig) (a : AgentNodeConfig)
      → last agents ≡ ok a
      → (front : List AgentNodeConfig) × (agents ≡ front ++ a ∷ [])
  unfolding last
  last-append [] a h = absurd (ground (arith, h))
  last-append (x ∷ []) a h = ([], ground (arith, h))
  last-append (x ∷ y ∷ ys) a h =
      let (front, e) = last-append (y ∷ ys) a h in (x ∷ front, ap (λ l. x ∷ l) e)

  -- An agent to whom a task may go: the first specialist one of whose patterns is in the lowered task;
  -- where there is none, the first fallback; and where there is none of these either, the last agent.
  abbrev pub IsRouted : String → List AgentNodeConfig → AgentNodeConfig → Type 0
  IsRouted text agents a =
      First (Triggered text) (Untriggered text) a agents
      ⊎ (All (Untriggered text) agents
          × (First IsFallback IsSpecialist a agents
              ⊎ (All IsSpecialist agents
                  × (front : List AgentNodeConfig) × (agents ≡ front ++ a ∷ []))))

  find-cases :
      (r : Result (Option AgentNodeConfig))
      → ((a : AgentNodeConfig) × (r ≡ ok (some a)))
        ⊎ ((r ≡ ok none) ⊎ ((e : Error) × (r ≡ raise e)))
  find-cases (ok (some a)) = inl (a, refl)
  find-cases (ok none) = inr (inl refl)
  find-cases (raise e) = inr (inr (e, refl))

  -- `pattern_match_route`, if it returns, chooses the first specialist one of whose patterns is in the
  -- lowered task; where there is none, the first fallback; and where there is none of these either,
  -- the last agent.
  pub route-IsRouted :
      (task : String) (agents : List AgentNodeConfig) (a : AgentNodeConfig)
      → route lower search task agents ≡ ok a
      → IsRouted (lower task) agents a
  unfolding route
  route-IsRouted task agents a h =
      elim (find-cases (find_triggered lower search (lower task) agents)) [
        | inl (b, f) ↦ inl (
            find_triggered-First (lower task) agents a
              (f ∙ ap (λ x. ok (some x)) (ground (arith, h, f))))
        | inr (inr (e, r)) ↦ absurd (ground (arith, h, r))
        | inr (inl f) ↦ inr (
          find_triggered-All (lower task) agents f,
          (elim (Option-cases (find_fallback agents)) [
            | inr (b, g) ↦
                inl (find_fallback-First agents a (g ∙ ap some (ground (arith, h, f, g))))
            | inl g ↦
                let (front, e) = last-append agents a (ground (arith, h, f, g)) in
                inr (find_fallback-All agents g, front, e)
          ]),
        )
      ]

  total_pattern :
      ((p t : String) → (b : Bool) × (search p t ≡ some b))
      → (text : String) (patterns : List String)
      → (b : Bool) × (some_pattern lower search text patterns ≡ ok b)
  unfolding some_pattern
  total_pattern valid text [] = (false, refl)
  total_pattern valid text (p ∷ ps) =
      let (found, e) = valid p text in
      elim (Bool-cases found) [
        | inl t ↦ (true, ground (arith, e, t))
        | inr f ↦ let (b, h) = total_pattern valid text ps in (b, ground (arith, e, f, h))
      ]

  triggered_total :
      ((p t : String) → (b : Bool) × (search p t ≡ some b))
      → (text : String) (a : AgentNodeConfig)
      → (b : Bool) × (is_triggered lower search text a ≡ ok b)
  unfolding is_triggered
  triggered_total valid text a = elim (Bool-cases a.is_fallback) [
    | inl e ↦ (false, rw e refl)
    | inr e ↦ let (b, h) = total_pattern valid text a.trigger_patterns in (b, rw e h)
  ]

  find_total :
      ((p t : String) → (b : Bool) × (search p t ≡ some b))
      → (text : String) (agents : List AgentNodeConfig)
      → (o : Option AgentNodeConfig) × (find_triggered lower search text agents ≡ ok o)
  unfolding find_triggered
  find_total valid text [] = (none, refl)
  find_total valid text (x ∷ xs) =
      let (found, e) = triggered_total valid text x in
      elim (Bool-cases found) [
        | inl t ↦ (some x, ground (arith, e, t))
        | inr f ↦ let (o, h) = find_total valid text xs in (o, ground (arith, e, f, h))
      ]

  last_total :
      (x : AgentNodeConfig) (xs : List AgentNodeConfig)
      → (a : AgentNodeConfig) × (last (x ∷ xs) ≡ ok a)
  unfolding last
  last_total x [] = (x, refl)
  last_total x (y ∷ ys) = last_total y ys

  module _ (task : String) (agents : List AgentNodeConfig) (a : AgentNodeConfig) where
    route_found :
        find_triggered lower search (lower task) agents ≡ ok (some a)
        → route lower search task agents ≡ ok a
    unfolding route
    route_found e = ground (arith, e)

    route_fallback :
        find_triggered lower search (lower task) agents ≡ ok none
        → find_fallback agents ≡ some a
        → route lower search task agents ≡ ok a
    unfolding route
    route_fallback e f = ground (arith, e, f)

    route_last :
        find_triggered lower search (lower task) agents ≡ ok none
        → find_fallback agents ≡ none
        → last agents ≡ ok a
        → route lower search task agents ≡ ok a
    unfolding route
    route_last e f h = ground (arith, e, f, h)

  -- If every pattern is a regular expression and there is an agent, `pattern_match_route` returns; if
  -- there is none, it raises an IndexError.
  pub route_total :
      (task : String) (agents : List AgentNodeConfig)
      → ((p t : String) → (b : Bool) × (search p t ≡ some b))
      → ((a : AgentNodeConfig) × (route lower search task agents ≡ ok a))
        ⊎ ((agents ≡ [])
            × (route lower search task agents ≡ raise (index_error "tuple index out of range")))
  unfolding route find_triggered find_fallback last
  route_total task [] valid = inr (refl, refl)
  route_total task (x ∷ xs) valid =
      let (o, e) = find_total valid (lower task) (x ∷ xs) in
      elim (Option-cases o) [
        | inr (a, t) ↦ inl (a, route_found task (x ∷ xs) a (e ∙ ap ok t))
        | inl t ↦ elim (Option-cases (find_fallback (x ∷ xs))) [
          | inr (a, f) ↦ inl (a, route_fallback task (x ∷ xs) a (e ∙ ap ok t) f)
          | inl f ↦
              let (a, h) = last_total x xs in inl (a, route_last task (x ∷ xs) a (e ∙ ap ok t) f h)
        ]
      ]
