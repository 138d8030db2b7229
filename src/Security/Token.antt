-- ===== src/Security/Token.antt =====
-- `verify_access_token` and `require_scope` of security.py. `decode` is `jwt.decode`, with the options
-- that the code passes; the environment is a look-up, and `lower` Python's `str.lower`.
use agentcook.Prelude.{
  String, Bool, false, not, List, [], ◌∷◌, ◌++◌, Option, none, some, any, map, is_empty,
  if◌then◌else◌,
}
use agentcook.Prelude.Chars.{after, Chars, codes, same, is_space, strip, strip_left}

-- A member of a collection of scopes: a text, or another value, which a set takes if it is hashable.
pub data ScopeItem : Type 0 where
  scope_text : Chars → ScopeItem
  other_item : (hashable : Bool) → ScopeItem

-- A claim with scopes: a text, a value whose members can be walked through, or another value, which
-- may be truthy.
pub data ScopeValue : Type 0 where
  one_text : Chars → ScopeValue
  many : List ScopeItem → ScopeValue
  other : Bool → ScopeValue

-- The claims that are read; `sub` as its text.
pub record Claims : Type 0 where
  pub sub : Chars
  pub scopes : Option ScopeValue
  pub scope : Option ScopeValue

-- An `ExpiredSignatureError`, another `InvalidTokenError`, another exception, such as an
-- `InvalidKeyError`, or the claims.
pub data Decoded : Type 0 where
  expired invalid broken : Decoded
  decoded : Claims → Decoded

pub record UserContext : Type 0 where
  pub user_id : Chars
  pub scopes : List ScopeItem
  pub raw_claims : Claims

-- What a dependency comes to: 401 with a code, 403, another exception, or the user.
pub data Access : Type 0 where
  unauthorized : String → Access
  forbidden raised : Access
  granted : UserContext → Access

-- `header.split(None, 1)[1]`, none where it raises an IndexError.
unfoldable pub after_word : Chars → Chars
after_word [] = []
after_word (c ∷ s) = let rest = after_word s in if is_space c then s else rest

abbrev filled : Chars → Option Chars
filled s = if is_empty s then none else some s

unfoldable pub second_part : Chars → Option Chars
second_part s = filled (strip_left is_space (after_word (strip_left is_space s)))

abbrev flush : Chars → List Chars → List Chars
flush word words = if is_empty word then words else word ∷ words

-- `text.split()`, behind a word that has begun.
unfoldable pub words_from : Chars → Chars → List Chars
words_from word [] = flush word []
words_from word (c ∷ s) =
    let ended = words_from [] s in
    let longer = words_from (word ++ c ∷ []) s in if is_space c then flush word ended else longer

abbrev pub is_truthy : Option ScopeValue → Bool
is_truthy none = false
is_truthy (some (one_text s)) = not (is_empty s)
is_truthy (some (many l)) = not (is_empty l)
is_truthy (some (other b)) = b

-- `claims.get("scopes") or claims.get("scope") or ""`.
unfoldable pub scopes_raw : Claims → Option ScopeValue
scopes_raw claims =
    if is_truthy claims.scopes
    then claims.scopes
    else if is_truthy claims.scope
    then claims.scope
    else none

abbrev pub is_unhashable : ScopeItem → Bool
is_unhashable (scope_text s) = false
is_unhashable (other_item hashable) = not hashable

-- The set of scopes, as a list; none where `frozenset` raises: the value cannot be walked through, or
-- has a member that is not hashable.
unfoldable pub scopes_of : Option ScopeValue → Option (List ScopeItem)
scopes_of none = some []
scopes_of (some (one_text s)) = some (map scope_text (words_from [] s))
scopes_of (some (many items)) = if any is_unhashable items then none else some items
scopes_of (some (other b)) = none

unfoldable pub user_of : Claims → Access
user_of claims = elim (scopes_of (scopes_raw claims)) [
  | none ↦ raised
  | some scopes ↦ granted (record { user_id = claims.sub; scopes = scopes; raw_claims = claims })
]

unfoldable pub access_of : Decoded → Access
access_of expired = unauthorized "AUTH_TOKEN_EXPIRED"
access_of invalid = unauthorized "AUTH_INVALID_TOKEN"
access_of broken = raised
access_of (decoded claims) = user_of claims

abbrev or_text : Chars → Option Chars → Chars
or_text d none = d
or_text d (some s) = s

abbrev pub is_scope : Chars → ScopeItem → Bool
is_scope required (scope_text s) = same required s
is_scope required (other_item b) = false

-- The check of a scope, on what the token comes to.
unfoldable pub check_scope : Chars → Access → Access
check_scope required (granted user) =
    if any (is_scope required) user.scopes then granted user else forbidden
check_scope required (unauthorized code) = unauthorized code
check_scope required forbidden = forbidden
check_scope required raised = raised

module _ (environ : String → Option Chars) (lower : Chars → Chars)
    (decode : Chars → Chars → Chars → Decoded) where
  -- The key and the algorithm.
  unfoldable pub signing_config : Chars × Chars
  signing_config =
      let pubkey = or_text [] (environ "AGENTCOOK_JWT_PUBLIC_KEY") in
      if is_empty pubkey
      then (
        or_text (codes "dev-only-do-not-use-in-prod") (environ "AGENTCOOK_JWT_SECRET"),
        or_text (codes "HS256") (environ "AGENTCOOK_JWT_ALG"),
      )
      else (pubkey, or_text (codes "RS256") (environ "AGENTCOOK_JWT_ALG"))

  abbrev pub decoded_of : Chars → Decoded
  decoded_of token = decode (strip token) signing_config.0 signing_config.1

  abbrev pub is_bearer : Chars → Bool
  is_bearer authorization = elim (after (codes "bearer ") (lower authorization)) [
    | none ↦ false
    | some s ↦ not (is_empty authorization)
  ]

  -- The empty header is no header.
  unfoldable pub verify_header : Chars → Access
  verify_header authorization =
      if is_bearer authorization
      then (elim (second_part authorization) [
        | none ↦ raised
        | some token ↦ access_of (decoded_of token)
      ])
      else unauthorized "AUTH_MISSING_TOKEN"

  unfoldable pub verify_access_token : Option Chars → Access
  verify_access_token none = unauthorized "AUTH_MISSING_TOKEN"
  verify_access_token (some authorization) = verify_header authorization

  unfoldable pub require_scope : Chars → Option Chars → Access
  require_scope required authorization = check_scope required (verify_access_token authorization)
