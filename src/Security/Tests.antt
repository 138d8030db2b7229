-- ===== src/Security/Tests.antt =====
-- Requests with and without a token, and the theorems at those.
use agentcook.Prelude.{
  false, String, ◌≡◌, refl, true, [], ◌∷◌, Option, none, some, any, if◌then◌else◌,
}
use agentcook.Prelude.Chars.{Chars, after, codes, same, strip_by, strip_left, strip_right}
use agentcook.Security.Token.{
  scope_text, other_item, many, is_scope, Claims, one_text, Decoded, invalid, decoded, UserContext,
  raised, granted, after_word, second_part, words_from, scopes_raw, scopes_of, user_of, access_of,
  signing_config, verify_header, verify_access_token, check_scope, require_scope,
}
use agentcook.Security.Laws.{IsVerified, require_scope-IsVerified}

abbrev environ : String → Option Chars
environ name = none

abbrev lower : Chars → Chars
lower s = if same s (codes "Bearer abc") then codes "bearer abc" else s

abbrev claims : Claims
claims = record { sub = codes "u1"; scopes = none; scope = some (one_text (codes "chat admin")) }

-- One token is valid.
abbrev decode : Chars → Chars → Chars → Decoded
decode token key alg = if same token (codes "abc") then decoded claims else invalid

abbrev user : UserContext
user = record {
  user_id = codes "u1";
  scopes = scope_text (codes "chat") ∷ scope_text (codes "admin") ∷ [];
  raw_claims = claims;
}

abbrev header : Option Chars
header = some (codes "Bearer abc")

require_scope_run : require_scope environ lower decode (codes "admin") header ≡ granted user
unfolding require_scope check_scope verify_access_token verify_header second_part after_word
    words_from scopes_raw scopes_of user_of access_of signing_config after same strip_by strip_left
    strip_right
require_scope_run = refl

require_scope-IsVerified_example :
    IsVerified environ lower decode header user
    × (any (is_scope (codes "admin")) user.scopes ≡ true)
require_scope-IsVerified_example =
    require_scope-IsVerified environ lower decode (codes "admin") header user require_scope_run

-- A bearer header without a token is not answered with 401.
abbrev blank_header : Option Chars
blank_header = some (codes "bearer  ")

blank_run : verify_access_token environ lower decode blank_header ≡ raised
unfolding verify_access_token verify_header second_part after_word after same strip_by strip_left
    strip_right
blank_run = refl

-- A list of objects has members that are not hashable.
abbrev odd_claims : Claims
odd_claims = record { sub = codes "u1"; scopes = some (many (other_item false ∷ [])); scope = none }

abbrev odd_decode : Chars → Chars → Chars → Decoded
odd_decode token key alg = decoded odd_claims
