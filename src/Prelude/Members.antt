-- ===== src/Prelude/Members.antt =====
-- Membership in a list, by recursion, and what filtering, sorting and indexing do to it.
use Prim.Native.Nat.{ℕ, zero, suc, ◌<◌}
use mathlib.Core.Path.{◌≡◌, refl, ap, sym}
use mathlib.Core.Logic.{◌⊎◌, inl, inr}
use mathlib.Core.Bool.{Bool, true}
use mathlib.Core.List.{List, [], ◌∷◌, map}
use mathlib.Core.Option.{some}
use native.Mathlib.Omega.{arith}
use agentcook.Prelude.Tests.{Bool-cases}
use agentcook.Prelude.Lists.{length, get_elem?, keep_if, any}
use agentcook.Prelude.Sorting.{insert_by, sort_by}

-- `x in xs`.
abbrev pub In : {A : Type 0} → A → List A → Type 0
In x [] = ⊥
In x (y ∷ ys) = (x ≡ y) ⊎ In x ys

module _ {A : Type 0} where
  In-cons : {x y : A} (ys : List A) → In x (y ∷ ys) → (x ≡ y) ⊎ In x ys
  In-cons ys i = i

  pub In-keep_if : (p : A → Bool) (x : A) (xs : List A) → In x xs → p x ≡ true → In x (keep_if p xs)
  In-keep_if p x [] i h = elim i [ ]
  In-keep_if p x (y ∷ ys) (inl e) h = rw (← e) (rw h (inl refl))
  In-keep_if p x (y ∷ ys) (inr i) h = elim (Bool-cases (p y)) [
    | inl t ↦ rw t (inr (In-keep_if p x ys i h))
    | inr f ↦ rw f (In-keep_if p x ys i h)
  ]

  pub In-of_keep_if :
      (p : A → Bool) (x : A) (xs : List A) → In x (keep_if p xs) → In x xs × (p x ≡ true)
  In-of_keep_if p x [] i = elim i [ ]
  In-of_keep_if p x (y ∷ ys) i = elim (Bool-cases (p y)) [
    | inl t ↦ elim (In-cons (keep_if p ys) (rw t at i)) [
      | inl e ↦ (inl e, rw e t)
      | inr j ↦ let (i', h) = In-of_keep_if p x ys j in (inr i', h)
    ]
    | inr f ↦ let (i', h) = In-of_keep_if p x ys (rw f at i) in (inr i', h)
  ]

  -- Each member stands at some place.
  pub get_elem?_of_In :
      (x : A) (xs : List A) → In x xs → (i : ℕ) × (i < length xs) × (get_elem? xs i ≡ some x)
  get_elem?_of_In x [] i = elim i [ ]
  get_elem?_of_In x (y ∷ ys) (inl e) = (0, omega arith, ap some (sym e))
  get_elem?_of_In x (y ∷ ys) (inr h) =
      let (i, lt, e) = get_elem?_of_In x ys h in (suc i, omega arith, e)

  pub In-of_get_elem? : (x : A) (xs : List A) (i : ℕ) → get_elem? xs i ≡ some x → In x xs
  In-of_get_elem? x [] i e = absurd (ground arith)
  In-of_get_elem? x (y ∷ ys) zero e = inl (ground arith)
  In-of_get_elem? x (y ∷ ys) (suc i) e = inr (In-of_get_elem? x ys i e)

  pub get_elem?_total : (xs : List A) (i : ℕ) → i < length xs → (x : A) × (get_elem? xs i ≡ some x)
  get_elem?_total [] i h = absurd (omega arith)
  get_elem?_total (x ∷ xs) zero h = (x, refl)
  get_elem?_total (x ∷ xs) (suc i) h = get_elem?_total xs i (omega arith)

  In-insert_by :
      (le : A → A → Bool) (x y : A) (xs : List A) → (x ≡ y) ⊎ In x xs → In x (insert_by le y xs)
  In-insert_by le x y [] i = i
  In-insert_by le x y (z ∷ zs) i = elim (Bool-cases (le y z)) [
    | inl t ↦ rw t i
    | inr f ↦ rw f (elim i [
      | inl e ↦ inr (In-insert_by le x y zs (inl e))
      | inr j ↦ elim (In-cons zs j) [ inl e ↦ inl e | inr k ↦ inr (In-insert_by le x y zs (inr k)) ]
    ])
  ]

  pub In-sort_by : (le : A → A → Bool) (x : A) (xs : List A) → In x xs → In x (sort_by le xs)
  In-sort_by le x [] i = i
  In-sort_by le x (y ∷ ys) (inl e) = In-insert_by le x y (sort_by le ys) (inl e)
  In-sort_by le x (y ∷ ys) (inr i) =
      In-insert_by le x y (sort_by le ys) (inr (In-sort_by le x ys i))

  In-of_insert_by :
      (le : A → A → Bool) (x y : A) (xs : List A) → In x (insert_by le y xs) → (x ≡ y) ⊎ In x xs
  In-of_insert_by le x y [] i = i
  In-of_insert_by le x y (z ∷ zs) i = elim (Bool-cases (le y z)) [
    | inl t ↦ rw t at i
    | inr f ↦ elim (In-cons (insert_by le y zs) (rw f at i)) [
      | inl e ↦ inr (inl e)
      | inr j ↦ elim (In-of_insert_by le x y zs j) [ inl e ↦ inl e | inr k ↦ inr (inr k) ]
    ]
  ]

  pub In-of_sort_by : (le : A → A → Bool) (x : A) (xs : List A) → In x (sort_by le xs) → In x xs
  In-of_sort_by le x [] i = i
  In-of_sort_by le x (y ∷ ys) i = elim (In-of_insert_by le x y (sort_by le ys) i) [
    | inl e ↦ inl e
    | inr j ↦ inr (In-of_sort_by le x ys j)
  ]

  -- `any(p(x) for x in xs)`, both ways.
  pub any_of_In : (p : A → Bool) (x : A) (xs : List A) → In x xs → p x ≡ true → any p xs ≡ true
  any_of_In p x [] i h = elim i [ ]
  any_of_In p x (y ∷ ys) (inl e) h = rw (← e) (ground arith)
  any_of_In p x (y ∷ ys) (inr i) h = ground (arith, any_of_In p x ys i h)

  pub In-of_any : (p : A → Bool) (xs : List A) → any p xs ≡ true → (x : A) × In x xs × (p x ≡ true)
  In-of_any p [] h = absurd (ground arith)
  In-of_any p (y ∷ ys) h = elim (Bool-cases (p y)) [
    | inl t ↦ (y, inl refl, t)
    | inr f ↦ let (x, i, e) = In-of_any p ys (ground arith) in (x, inr i, e)
  ]

pub In-map : {A B : Type 0} (f : A → B) (x : A) (xs : List A) → In x xs → In (f x) (map f xs)
In-map f x [] i = elim i [ ]
In-map f x (y ∷ ys) (inl e) = inl (ap f e)
In-map f x (y ∷ ys) (inr i) = inr (In-map f x ys i)

pub In-of_map :
    {A B : Type 0} (f : A → B) (y : B) (xs : List A)
    → In y (map f xs)
    → (x : A) × In x xs × (y ≡ f x)
In-of_map f y [] i = elim i [ ]
In-of_map f y (x ∷ xs) (inl e) = (x, inl refl, e)
In-of_map f y (x ∷ xs) (inr i) = let (x', i', e) = In-of_map f y xs i in (x', inr i', e)

pub keep_if-cong :
    {A : Type 0} (p q : A → Bool) (xs : List A)
    → ((x : A) → In x xs → p x ≡ q x)
    → keep_if p xs ≡ keep_if q xs
keep_if-cong p q [] h = refl
keep_if-cong p q (x ∷ xs) h = cc (h x (inl refl), keep_if-cong p q xs (λ y i. h y (inr i)))

-- The first element with one property, where all before it have another.
pub data First {A : Type 0} (Hit Miss : A → Type 0) (a : A) : List A → Type 0 where
  here : (xs : List A) → Hit a → First Hit Miss a (a ∷ xs)
  there : {xs : List A} (x : A) → Miss x → First Hit Miss a xs → First Hit Miss a (x ∷ xs)

pub In-First :
    {A : Type 0} {Hit Miss : A → Type 0} {a : A} {xs : List A} → First Hit Miss a xs → In a xs
In-First (here xs h) = inl refl
In-First (there x m f) = inr (In-First f)
