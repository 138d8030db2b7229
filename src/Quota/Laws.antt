-- ===== src/Quota/Laws.antt =====
-- What `resolve` chooses, and when it raises.
use agentcook.Prelude.{
  String, ℕ, ◌≤◌, ◌≡◌, ◌≢◌, ◌⊎◌, refl, ap, sym, subst, ◌∙◌, eq_iff, false, Option, none, some, inl,
  inr, Bool-cases, Option-cases, arith, str_eq, ltb→lt,
}
use agentcook.Prelude.Integers.{ℤ, pos, ltb_ℤ, Below, excess, IsSum}
use agentcook.Prelude.Strings.{truthy?}
use agentcook.Prelude.Dict
use agentcook.Prelude.Dict.{Dict}
use agentcook.Quota.Resolver.{
  QuotaDecision, QuotaResolver, malformed, null, not_object, object, Reply, unreachable, broken,
  replied, Fetched, lookup_raised, nothing, other_value, info, fetch_java_quota, count_of, decide,
  resolve_info, resolve_fetched, resolve, decision,
}

other_text : (a b : String) → str_eq a b ≡ false → a ≢ b
other_text a b ne e = ground (arith, ne, (eq_iff a b).1 e)

some_inj : {c d : QuotaDecision} → some c ≡ some d → c ≡ d
some_inj e = ground (arith, e)

reason_of : {c d : QuotaDecision} {t : String} → some c ≡ some d → d.reason ≡ t → c.reason ≡ t
reason_of e w = ap (λ x. x.reason) (some_inj e) ∙ w

excess-IsSum : (a b : ℤ) → Below a b → IsSum a (excess b a) b × (1 ≤ excess b a)
excess-IsSum a b h = (omega arith, omega arith)

module _ (Json : Type 0) (int : Json → Option ℤ) (r : QuotaResolver) where
  -- That the quota service answered with an object and that less than the quota is used by it. What
  -- remains is positive, and with what is used the quota.
  pub record IsWithin (reply : Reply Json) (d : QuotaDecision) : Type 0 where
    pub d_info : Dict Json
    pub used : ℤ
    pub quota : ℤ
    pub left : ℕ
    pub answered : reply ≡ replied 200 (object d_info)
    pub used_of : count_of Json int r "free_questions_used" (pos 0) d_info ≡ some used
    pub quota_of : count_of Json int r "free_questions_quota" r.default_quota d_info ≡ some quota
    pub below : Below used quota
    pub provider : d.provider ≡ r.primary_provider
    pub model : d.model ≡ some r.primary_model
    pub remaining : d.remaining ≡ pos left
    pub rest : IsSum used left quota
    pub some_left : 1 ≤ left

  decide_within :
      (used quota : ℤ)
      → (decide Json int r used quota).reason ≡ "within_quota"
      → Below used quota
        × (decide Json int r used quota
            ≡ decision Json r.primary_provider
                (some r.primary_model)
                (pos (excess quota used))
                "within_quota")
  unfolding decide
  decide_within used quota h = elim (Bool-cases (ltb_ℤ used quota)) [
    | inl e ↦ (ltb→lt _ _ e, rw e refl)
    | inr e ↦ absurd (other_text "exhausted" "within_quota" refl (rw e at h))
  ]

  resolve_info-IsWithin :
      (reply : Reply Json) (d_info : Dict Json) (d : QuotaDecision)
      → reply ≡ replied 200 (object d_info)
      → resolve_info Json int r d_info ≡ some d
      → d.reason ≡ "within_quota"
      → IsWithin reply d
  unfolding resolve_info
  resolve_info-IsWithin reply d_info d answered h w =
      elim (Option-cases (count_of Json int r "free_questions_used" (pos 0) d_info)) [
        | inl e ↦ absurd (ground (arith, h, e))
        | inr (used, e) ↦
            elim (Option-cases
              (count_of Json int r "free_questions_quota" r.default_quota d_info)) [
                | inl e' ↦ absurd (ground (arith, h, e, e'))
                | inr (quota, e') ↦
                    let same : decide Json int r used quota ≡ d =
                      some_inj (rw (e, e', resolve_info) at h) in
                    let (lt, decided) = decide_within used quota (ap (λ x. x.reason) same ∙ w) in
                    let is_d = sym same ∙ decided in
                    let (rest, some_left) = excess-IsSum used quota lt in
                    record {
                      d_info = d_info;
                      used = used;
                      quota = quota;
                      left = excess quota used;
                      answered = answered;
                      used_of = e;
                      quota_of = e';
                      below = lt;
                      provider = ap (λ x. x.provider) is_d;
                      model = ap (λ x. x.model) is_d;
                      remaining = ap (λ x. x.remaining) is_d;
                      rest = rest;
                      some_left = some_left;
                    }
              ]
      ]

  -- How an object, or another value, was fetched.
  fetched_info :
      (reply : Reply Json) (d : Dict Json)
      → fetch_java_quota Json reply ≡ info d
      → reply ≡ replied 200 (object d)
  unfolding fetch_java_quota
  fetched_info unreachable d h = absurd (ground (arith, h))
  fetched_info broken d h = absurd (ground (arith, h))
  fetched_info (replied status malformed) d h = absurd (ground (arith, h))
  fetched_info (replied status null) d h = absurd (ground (arith, h))
  fetched_info (replied status not_object) d h = absurd (ground (arith, h))
  fetched_info (replied status (object x)) d h = ground (arith, h)

  fetched_other :
      (reply : Reply Json)
      → fetch_java_quota Json reply ≡ other_value
      → reply ≡ replied 200 not_object
  unfolding fetch_java_quota
  fetched_other unreachable h = absurd (ground (arith, h))
  fetched_other broken h = absurd (ground (arith, h))
  fetched_other (replied status malformed) h = absurd (ground (arith, h))
  fetched_other (replied status null) h = absurd (ground (arith, h))
  fetched_other (replied status not_object) h = ground (arith, h)
  fetched_other (replied status (object x)) h = absurd (ground (arith, h))

  fetched_raised :
      (reply : Reply Json) → fetch_java_quota Json reply ≡ lookup_raised → reply ≡ broken
  unfolding fetch_java_quota
  fetched_raised unreachable h = absurd (ground (arith, h))
  fetched_raised broken h = refl
  fetched_raised (replied status malformed) h = absurd (ground (arith, h))
  fetched_raised (replied status null) h = absurd (ground (arith, h))
  fetched_raised (replied status not_object) h = absurd (ground (arith, h))
  fetched_raised (replied status (object x)) h = absurd (ground (arith, h))

  resolve_fetched-IsWithin :
      (reply : Reply Json) (f : Fetched Json) (d : QuotaDecision)
      → fetch_java_quota Json reply ≡ f
      → resolve_fetched Json int r f ≡ some d
      → d.reason ≡ "within_quota"
      → IsWithin reply d
  unfolding resolve_fetched
  resolve_fetched-IsWithin reply lookup_raised d fetched h w = absurd (ground (arith, h))
  resolve_fetched-IsWithin reply nothing d fetched h w =
      absurd (other_text "java_unavailable" "within_quota" refl (reason_of h w))
  resolve_fetched-IsWithin reply other_value d fetched h w = absurd (ground (arith, h))
  resolve_fetched-IsWithin reply (info x) d fetched h w =
      resolve_info-IsWithin reply x d (fetched_info reply x fetched) h w

  -- `resolve` gives the primary provider within the quota only to a user who is known, where no
  -- override is set and the quota service answered with an object by which less than the quota is
  -- used; what remains is the difference.
  pub resolve-IsWithin :
      (config_override user_id : Option String) (reply : Reply Json) (d : QuotaDecision)
      → resolve Json int r config_override user_id reply ≡ some d
      → d.reason ≡ "within_quota"
      → (truthy? config_override ≡ false) × (user_id ≢ none) × IsWithin reply d
  unfolding resolve
  resolve-IsWithin config_override none reply d h w = elim (Bool-cases (truthy? config_override)) [
    | inl e ↦ absurd (other_text "config_override" "within_quota" refl (reason_of (rw e at h) w))
    | inr e ↦ absurd (other_text "anonymous" "within_quota" refl (reason_of (rw e at h) w))
  ]
  resolve-IsWithin config_override (some user) reply d h w =
      elim (Bool-cases (truthy? config_override)) [
        | inl e ↦
            absurd (other_text "config_override" "within_quota" refl (reason_of (rw e at h) w))
        | inr e ↦ (
          e,
          λ n. ground (arith, n),
          resolve_fetched-IsWithin reply (fetch_java_quota Json reply) d refl (rw e at h) w,
        )
      ]

  -- A count of the object that `int` does not read.
  pub record Unreadable (d : Dict Json) : Type 0 where
    pub key : String
    pub count : Json
    pub is_read : (key ≡ "free_questions_used") ⊎ (key ≡ "free_questions_quota")
    pub there : Dict.get key d ≡ some count
    pub raises : int count ≡ none

  count_of-Unreadable :
      (key : String) (default : ℤ) (d : Dict Json)
      → (key ≡ "free_questions_used") ⊎ (key ≡ "free_questions_quota")
      → count_of Json int r key default d ≡ none
      → Unreadable d
  count_of-Unreadable key default d k h = elim (Option-cases (Dict.get key d)) [
    | inl e ↦ absurd (ground (arith, h, e))
    | inr (v, e) ↦ record {
      key = key;
      count = v;
      is_read = k;
      there = e;
      raises = ground (arith, h, e);
    }
  ]

  resolve_info-Unreadable : (d : Dict Json) → resolve_info Json int r d ≡ none → Unreadable d
  unfolding resolve_info
  resolve_info-Unreadable d h =
      elim (Option-cases (count_of Json int r "free_questions_used" (pos 0) d)) [
        | inl e ↦ count_of-Unreadable _ _ d (inl refl) e
        | inr (used, e) ↦
            elim (Option-cases (count_of Json int r "free_questions_quota" r.default_quota d)) [
              | inl e' ↦ count_of-Unreadable _ _ d (inr refl) e'
              | inr (quota, e') ↦ absurd (ground (arith, h, e, e'))
            ]
      ]

  -- What makes `resolve` raise: an exception of the request that is not caught, a body that is JSON but
  -- neither an object nor null, or a count that `int` does not read.
  pub data Raises : Reply Json → Type 0 where
    uncaught : Raises broken
    no_object : Raises (replied 200 not_object)
    no_count : (d : Dict Json) → Unreadable d → Raises (replied 200 (object d))

  resolve_fetched-Raises :
      (reply : Reply Json) (f : Fetched Json)
      → fetch_java_quota Json reply ≡ f
      → resolve_fetched Json int r f ≡ none
      → Raises reply
  unfolding resolve_fetched
  resolve_fetched-Raises reply lookup_raised fetched h =
      subst Raises (sym (fetched_raised reply fetched)) uncaught
  resolve_fetched-Raises reply nothing fetched h = absurd (ground (arith, h))
  resolve_fetched-Raises reply other_value fetched h =
      subst Raises (sym (fetched_other reply fetched)) no_object
  resolve_fetched-Raises reply (info d) fetched h =
      subst Raises (sym (fetched_info reply d fetched)) (no_count d (resolve_info-Unreadable d h))

  -- `resolve` raises only for a user who is known and without an override, and only where the request
  -- ends in an exception that is not caught, or is answered with status 200 and a body that is JSON but
  -- neither an object nor null, or with an object one of whose counts `int` does not read. In all other
  -- cases it returns.
  pub resolve-Raises :
      (config_override user_id : Option String) (reply : Reply Json)
      → resolve Json int r config_override user_id reply ≡ none
      → (truthy? config_override ≡ false) × (user_id ≢ none) × Raises reply
  unfolding resolve
  resolve-Raises config_override none reply h = elim (Bool-cases (truthy? config_override)) [
    | inl e ↦ absurd (ground (arith, h, e))
    | inr e ↦ absurd (ground (arith, h, e))
  ]
  resolve-Raises config_override (some user) reply h = elim (Bool-cases (truthy? config_override)) [
    | inl e ↦ absurd (ground (arith, h, e))
    | inr e ↦ (
      e,
      λ n. ground (arith, n),
      resolve_fetched-Raises reply (fetch_java_quota Json reply) refl (rw e at h),
    )
  ]
