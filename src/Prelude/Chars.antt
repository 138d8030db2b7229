-- ===== src/Prelude/Chars.antt =====
-- Texts as lists of code points, for the code that walks them: `split`, `join`, `strip`.
use Prim.Native.Char.{code}
use Prim.Native.Nat.{ℕ}
use Prim.Native.String.{String}
use mathlib.Core.Path.{◌≡◌, refl}
use mathlib.Core.Logic.{◌↔◌, inl, inr}
use mathlib.Core.Bool.{Bool, true, false, ◌&&◌, ◌||◌}
use mathlib.Core.Option.{Option, none, some}
use mathlib.Core.List.{List, [], ◌∷◌, ◌++◌}
use native.Mathlib.Omega.{arith}
use agentcook.Prelude.Tests.{◌==◌, leb, if◌then◌else◌, Bool-cases}
use agentcook.Prelude.Lists.{is_empty}

abbrev pub Chars : Type 0
Chars = List ℕ

abbrev pub codes : String → Chars
codes String.[] = []
codes (String.◌∷◌ c s) = code c ∷ codes s

unfoldable pub same : Chars → Chars → Bool
same [] [] = true
same [] (d ∷ t) = false
same (c ∷ s) [] = false
same (c ∷ s) (d ∷ t) = c == d && same s t

pub same_iff : (s t : Chars) → (same s t ≡ true) ↔ (s ≡ t)
unfolding same
same_iff [] [] = ground arith
same_iff [] (d ∷ t) = ground arith
same_iff (c ∷ s) [] = ground arith
same_iff (c ∷ s) (d ∷ t) = ground (arith, same_iff s t)

-- `text.startswith(prefix)`, and what stands behind it.
unfoldable pub after : Chars → Chars → Option Chars
after [] s = some s
after (c ∷ p) [] = none
after (c ∷ p) (d ∷ s) = let rest = after p s in if c == d then rest else none

-- Python's white space.
abbrev pub is_space : ℕ → Bool
is_space c =
    leb 9 c && leb c 13
    || leb 28 c && leb c 32
    || c == 133
    || c == 160
    || c == 5760
    || leb 8192 c && leb c 8202
    || c == 8232
    || c == 8233
    || c == 8239
    || c == 8287
    || c == 12288

module _ (p : ℕ → Bool) where
  unfoldable pub strip_left : Chars → Chars
  strip_left [] = []
  strip_left (c ∷ s) = let rest = strip_left s in if p c then rest else c ∷ s

  unfoldable pub strip_right : Chars → Chars
  strip_right [] = []
  strip_right (c ∷ s) = let rest = strip_right s in if p c && is_empty rest then [] else c ∷ rest

  unfoldable pub strip_by : Chars → Chars
  strip_by s = strip_right (strip_left s)

  -- A text that ends outside of `p`, or nowhere.
  pub strip_right-append :
      (s : Chars) (c : ℕ) (t : Chars)
      → p c ≡ false
      → strip_right t ≡ t
      → strip_right (s ++ c ∷ t) ≡ s ++ c ∷ t
  unfolding strip_right
  strip_right-append [] c t out h = ground (arith, out, h)
  strip_right-append (d ∷ s) c t out h = ground (arith, strip_right-append s c t out h, not_empty s)
    where
      not_empty : (s : Chars) → is_empty (s ++ c ∷ t) ≡ false
      not_empty [] = refl
      not_empty (d ∷ s) = refl

-- `text.strip()`.
abbrev pub strip : Chars → Chars
strip s = strip_by is_space s

abbrev prepend : ℕ → List Chars → List Chars
prepend c [] = (c ∷ []) ∷ []
prepend c (l ∷ ls) = (c ∷ l) ∷ ls

-- `text.split(sep)` and `sep.join(texts)` for one character.
module _ (sep : ℕ) where
  unfoldable pub split : Chars → List Chars
  split [] = [] ∷ []
  split (c ∷ s) = let rest = split s in if c == sep then [] ∷ rest else prepend c rest

  unfoldable pub join : List Chars → Chars
  join [] = []
  join (l ∷ []) = l
  join (l ∷ m ∷ ls) = l ++ sep ∷ join (m ∷ ls)

  unfoldable pub has : Chars → Bool
  has [] = false
  has (c ∷ s) = c == sep || has s

  -- The first piece ends at the first separator.
  pub split-append : (l s : Chars) → has l ≡ false → split (l ++ sep ∷ s) ≡ l ∷ split s
  unfolding split has
  split-append [] s h = ground arith
  split-append (c ∷ l) s h = ground (arith, split-append l s)

  join-prepend : (c : ℕ) (ls : List Chars) → join (prepend c ls) ≡ c ∷ join ls
  unfolding join
  join-prepend c [] = refl
  join-prepend c (l ∷ []) = refl
  join-prepend c (l ∷ m ∷ ls) = refl

  split-cons : (s : Chars) → (l : Chars) × (ls : List Chars) × (split s ≡ l ∷ ls)
  unfolding split
  split-cons [] = ([], [], refl)
  split-cons (c ∷ s) = elim (Bool-cases (c == sep)) [
    | inl e ↦ ([], split s, ground (arith, e))
    | inr e ↦ let (l, ls, h) = split-cons s in (c ∷ l, ls, ground (arith, e, h))
  ]

  join_nil :
      (ls : List Chars)
      → (l : Chars) (ms : List Chars) → ls ≡ l ∷ ms
      → join ([] ∷ ls) ≡ sep ∷ join ls
  unfolding join
  join_nil [] l ms e = ground (arith, e)
  join_nil (m ∷ ls) l ms e = refl

  -- Joining what was split gives the text back.
  pub join-split : (s : Chars) → join (split s) ≡ s
  unfolding split
  join-split [] = unfold join in refl
  join-split (c ∷ s) = elim (Bool-cases (c == sep)) [
    | inl e ↦
        let (l, ls, h) = split-cons s in ground (arith, e, join_nil (split s) l ls h, join-split s)
    | inr e ↦ ground (arith, e, join-prepend c (split s), join-split s)
  ]
