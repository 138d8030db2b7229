-- ===== src/Prelude/Strings.antt =====
-- Text: f-strings, truth of a text, the decimal form of a number.
use Prim.Native.Nat.{ℕ, zero, suc, ◌/◌, ◌%◌}
use Prim.Native.String
use Prim.Native.String.{String}
use mathlib.Core.Bool.{Bool, false, not}
use mathlib.Core.List.{List, [], ◌∷◌}
use mathlib.Core.Option.{Option, none, some}
use text.Mathlib.Text.{◌==◌ as str_eq}
use agentcook.Prelude.Tests.{◌==◌, if◌then◌else◌}
use agentcook.Prelude.Lists.{get_elem?}

-- An f-string: its pieces in order.
abbrev pub fmt : List String → String
fmt [] = ""
fmt (s ∷ parts) = String.◌++◌ s (fmt parts)

-- `if text:`.
abbrev pub truthy : String → Bool
truthy s = not (str_eq s "")

-- `text or other` for an optional text.
abbrev pub truthy? : Option String → Bool
truthy? none = false
truthy? (some s) = truthy s

-- `sep.join(parts)`.
unfoldable pub join : String → List String → String
join sep [] = ""
join sep (s ∷ parts) = elim parts [ [] ↦ s | _ ∷ _ ↦ fmt (s ∷ sep ∷ join sep parts ∷ []) ]

abbrev digits : List String
digits = "0" ∷ "1" ∷ "2" ∷ "3" ∷ "4" ∷ "5" ∷ "6" ∷ "7" ∷ "8" ∷ "9" ∷ []

digit : ℕ → String
digit n = elim (get_elem? digits n) [ none ↦ "" | some s ↦ s ]

-- The number has at most as many digits as its value and one more.
decimal : ℕ → ℕ → String
decimal zero n = ""
decimal (suc f) n =
    let rest = decimal f (n / 10) in
    if n / 10 == 0 then digit (n % 10) else fmt (rest ∷ digit (n % 10) ∷ [])

-- `str(n)` of a number from 0.
unfoldable pub show : ℕ → String
unfolding digit decimal
show n = decimal (suc n) n
