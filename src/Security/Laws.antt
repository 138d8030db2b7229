-- ===== src/Security/Laws.antt =====
-- Who is let in.
use agentcook.Prelude.{
  false, String, ◌≡◌, refl, ap, sym, ◌∙◌, true, Option, none, some, any, inl, inr, Bool-cases,
  Option-cases, arith,
}
use agentcook.Prelude.Chars.{Chars}
use agentcook.Security.Token.{
  ScopeValue, one_text, many, other, is_unhashable, is_truthy, is_scope, Claims, Decoded, expired,
  invalid, broken, decoded, UserContext, Access, unauthorized, forbidden, raised, granted,
  second_part, scopes_raw, scopes_of, user_of, access_of, decoded_of, is_bearer, verify_header,
  verify_access_token, check_scope, require_scope,
}

-- A user as the claims of a token say.
pub record IsOf (claims : Claims) (user : UserContext) : Type 0 where
  pub user_id : user.user_id ≡ claims.sub
  pub scopes : scopes_of (scopes_raw claims) ≡ some user.scopes

user_in : UserContext → Access → UserContext
user_in d (granted user) = user
user_in d (unauthorized code) = d
user_in d forbidden = d
user_in d raised = d

user_of-IsOf :
    (claims : Claims) (user : UserContext) → user_of claims ≡ granted user → IsOf claims user
unfolding user_of user_in
user_of-IsOf claims user h = elim (Option-cases (scopes_of (scopes_raw claims))) [
  | inl e ↦ absurd (ground (arith, (rw (e, user_of) at h)))
  | inr (scopes, e) ↦
      let same_user = ap (user_in user) (rw (e, user_of) at h) in
      record {
        user_id = sym (ap (λ u. u.user_id) same_user);
        scopes = e ∙ ap (λ u. some u.scopes) same_user;
      }
]

access_of-IsOf :
    (d : Decoded) (user : UserContext)
    → access_of d ≡ granted user
    → (claims : Claims) × (d ≡ decoded claims) × IsOf claims user
unfolding access_of
access_of-IsOf expired user h = absurd (ground (arith, h))
access_of-IsOf invalid user h = absurd (ground (arith, h))
access_of-IsOf broken user h = absurd (ground (arith, h))
access_of-IsOf (decoded claims) user h = (claims, refl, user_of-IsOf claims user h)

-- Claims whose scopes make no set: they are no text, and no collection of hashable members. The claim
-- `scopes` comes first, and `scope` stands in where it is falsy.
abbrev pub NoSet : ScopeValue → Type 0
NoSet (one_text s) = ⊥
NoSet (many items) = any is_unhashable items ≡ true
NoSet (other b) = Unit

pub data Unusable (claims : Claims) : Type 0 where
  by_scopes :
      (v : ScopeValue)
      → claims.scopes ≡ some v
      → is_truthy claims.scopes ≡ true
      → NoSet v
      → Unusable claims
  by_scope :
      (v : ScopeValue)
      → is_truthy claims.scopes ≡ false
      → claims.scope ≡ some v
      → is_truthy claims.scope ≡ true
      → NoSet v
      → Unusable claims

check_scope-granted :
    (required : Chars) (access : Access) (user : UserContext)
    → check_scope required access ≡ granted user
    → (access ≡ granted user) × (any (is_scope required) user.scopes ≡ true)
unfolding check_scope user_in
check_scope-granted required (unauthorized code) user h = absurd (ground (arith, h))
check_scope-granted required forbidden user h = absurd (ground (arith, h))
check_scope-granted required raised user h = absurd (ground (arith, h))
check_scope-granted required (granted u) user h =
    elim (Bool-cases (any (is_scope required) u.scopes)) [
      | inr e ↦ absurd (ground (arith, (rw (e, check_scope) at h)))
      | inl e ↦
          let g = rw (e, check_scope) at h in
          (g, sym (ap (λ u. any (is_scope required) u.scopes) (ap (user_in user) g)) ∙ e)
    ]

module _ (environ : String → Option Chars) (lower : Chars → Chars)
    (decode : Chars → Chars → Chars → Decoded) where
  -- A header with a token that the decoder accepts under the key and the algorithm of the
  -- environment, and the user of its claims.
  pub record IsVerified (authorization : Option Chars) (user : UserContext) : Type 0 where
    pub header : Chars
    pub token : Chars
    pub claims : Claims
    pub present : authorization ≡ some header
    pub bearer : is_bearer environ lower decode header ≡ true
    pub split_off : second_part header ≡ some token
    pub accepted : decoded_of environ lower decode token ≡ decoded claims
    pub user_of_claims : IsOf claims user

  verify_access_token-IsVerified :
      (authorization : Option Chars) (user : UserContext)
      → verify_access_token environ lower decode authorization ≡ granted user
      → IsVerified authorization user
  unfolding verify_access_token verify_header
  verify_access_token-IsVerified none user h = absurd (ground (arith, h))
  verify_access_token-IsVerified (some header) user h =
      elim (Bool-cases (is_bearer environ lower decode header)) [
        | inr b ↦ absurd (ground (arith, (rw (b, verify_access_token, verify_header) at h)))
        | inl b ↦ elim (Option-cases (second_part header)) [
          | inl e ↦ absurd (ground (arith, (rw (b, e, verify_access_token, verify_header) at h)))
          | inr (token, e) ↦
              let (claims, accepted, of_claims) =
                access_of-IsOf (decoded_of environ lower decode token) user
                  (rw (b, e, verify_access_token, verify_header) at h) in
              record {
                header = header;
                token = token;
                claims = claims;
                present = refl;
                bearer = b;
                split_off = e;
                accepted = accepted;
                user_of_claims = of_claims;
              }
        ]
      ]

  -- Only a request with a bearer token that the decoder accepts, under the key and the algorithm of
  -- the environment, and whose claims have the required scope, passes `require_scope`; the user is
  -- the one that the claims name, with their scopes.
  pub require_scope-IsVerified :
      (required : Chars) (authorization : Option Chars) (user : UserContext)
      → require_scope environ lower decode required authorization ≡ granted user
      → IsVerified authorization user × (any (is_scope required) user.scopes ≡ true)
  unfolding require_scope
  require_scope-IsVerified required authorization user h =
      let (access, scoped) =
        check_scope-granted required (verify_access_token environ lower decode authorization) user
          h in
      (verify_access_token-IsVerified authorization user access, scoped)
