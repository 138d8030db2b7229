-- ===== src/Media/Cards/Laws.antt =====
-- The number that stands before a unit.
use agentcook.Prelude.{
  ℕ, ◌*◌, ◌≡◌, ◌≤◌, ◌<◌, ◌⊎◌, refl, false, List, [], ◌∷◌, ◌++◌, ◌==◌, ltb, ltb→lt, if◌then◌else◌,
  inl, inr, Bool-cases, arith,
}
use agentcook.Prelude.Chars.{Chars, codes}
use agentcook.Prelude.Integers.{pos}
use agentcook.Prelude.Strings.{show}
use agentcook.Media.Cards.{size_loop, units, format_size}

ltb→le : (a b : ℕ) → ltb a b ≡ false → b ≤ a
ltb→le a b h = ground (arith, h)

ne_test : (n : ℕ) → 1 ≤ n → (n == 0) ≡ false
ne_test n h = ground (arith, h)

-- The units of a size, with their bytes.
pub data IsUnit : ℕ → Chars → Type 0 where
  bytes : IsUnit 1 (codes "B")
  kilobytes : IsUnit 1024 (codes "KB")
  megabytes : IsUnit 1048576 (codes "MB")
  gigabytes : IsUnit 1073741824 (codes "GB")
  terabytes : IsUnit 1099511627776 (codes "TB")

-- That the names that are left belong to the scale and those after it.
abbrev Aligned : ℕ → List Chars → Type 0
Aligned d [] = IsUnit d (codes "TB")
Aligned d (unit ∷ names) = IsUnit d unit × Aligned (1024 * d) names

units-Aligned : (fixed : ℕ → ℕ → Chars) → Aligned 1 (units fixed)
units-Aligned fixed = (bytes, (kilobytes, (megabytes, (gigabytes, terabytes))))

module _ (fixed : ℕ → ℕ → Chars) where
  -- A text that is a size over the bytes of a unit, and the unit. The number is at least one of that unit, and
  -- fewer than 1024 but for terabytes.
  pub record IsScaled (size : ℕ) (result : Chars) : Type 0 where
    pub scale : ℕ
    pub number : Chars
    pub unit : Chars
    pub unit_of_scale : IsUnit scale unit
    pub whole : result ≡ number ++ b' ' ∷ unit
    pub counted : ((scale ≡ 1) × (number ≡ codes (show size))) ⊎ (number ≡ fixed size scale)
    pub low : scale ≤ size
    pub high : (size < 1024 * scale) ⊎ (unit ≡ codes "TB")

  number-cases :
      (size d : ℕ)
      → ((d ≡ 1) × ((if d == 1 then codes (show size) else fixed size d) ≡ codes (show size)))
        ⊎ ((if d == 1 then codes (show size) else fixed size d) ≡ fixed size d)
  number-cases size d = elim (Bool-cases (d == 1)) [
    | inl e ↦ inl (ground (arith, e), rw e refl)
    | inr e ↦ inr (rw e refl)
  ]

  size_loop-IsScaled :
      (size d : ℕ) (names : List Chars)
      → Aligned d names
      → d ≤ size
      → IsScaled size (size_loop fixed size d names)
  unfolding size_loop
  size_loop-IsScaled size d [] u h = record {
    scale = d;
    number = fixed size d;
    unit = codes "TB";
    unit_of_scale = u;
    whole = refl;
    counted = inr refl;
    low = h;
    high = inr refl;
  }
  size_loop-IsScaled size d (unit ∷ names) u h = elim (Bool-cases (ltb size (1024 * d))) [
    | inl e ↦ rw e (record {
      scale = d;
      number = if d == 1 then codes (show size) else fixed size d;
      unit = unit;
      unit_of_scale = u.0;
      whole = refl;
      counted = number-cases size d;
      low = h;
      high = inl (ltb→lt size (1024 * d) e);
    })
    | inr e ↦ rw e (size_loop-IsScaled size (1024 * d) names u.1 (ltb→le size (1024 * d) e))
  ]

  -- The size of a file that is not empty is shown over the bytes of the unit behind it, bytes to
  -- terabytes in powers of 1024, of which it has at least one, and fewer than 1024 but for terabytes.
  pub format_size-IsScaled : (size : ℕ) → 1 ≤ size → IsScaled size (format_size fixed (pos size))
  unfolding format_size
  format_size-IsScaled size h =
      rw (ne_test size h) (size_loop-IsScaled size 1 (units fixed) (units-Aligned fixed) h)
