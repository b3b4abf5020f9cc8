-- ===== src/Prelude/Lists.antt =====
-- Lists measured by native numbers, and Python's `any`, `all`, `in` and list comprehensions.
use Prim.Native.Nat.{ℕ, zero, suc, ◌+◌}
use mathlib.Core.Path.{◌≡◌, refl, subst}
use mathlib.Core.Logic.{◌⊎◌, inl, inr}
use mathlib.Core.Bool.{Bool, true, false, ◌&&◌, ◌||◌}
use mathlib.Core.List.{List, [], ◌∷◌, ◌++◌}
use native.Mathlib.Omega.{arith}
use open_weave.Prelude.Tests.{if◌then◌else◌, Bool-cases}
use open_weave.Prelude.Keys.{Key, ◌==◌}

module _ {ℓ} {A : Type ℓ} where
  abbrev pub length : List A → ℕ
  length [] = 0
  length (x ∷ xs) = suc (length xs)

  abbrev pub take : ℕ → List A → List A
  take zero xs = []
  take (suc n) [] = []
  take (suc n) (x ∷ xs) = x ∷ take n xs

  abbrev pub drop : ℕ → List A → List A
  drop zero xs = xs
  drop (suc n) [] = []
  drop (suc n) (x ∷ xs) = drop n xs

  abbrev pub any : (A → Bool) → List A → Bool
  any p [] = false
  any p (x ∷ xs) = p x || any p xs

  abbrev pub all : (A → Bool) → List A → Bool
  all p [] = true
  all p (x ∷ xs) = p x && all p xs

  -- `[x for x in xs if p(x)]`
  abbrev pub keep : (A → Bool) → List A → List A
  keep p [] = []
  keep p (x ∷ xs) = let rest = keep p xs in if p x then x ∷ rest else rest

  pub length-append : (xs ys : List A) → length (xs ++ ys) ≡ length xs + length ys
  length-append [] ys = omega arith
  length-append (x ∷ xs) ys = omega (arith, length-append xs ys)

-- `All P xs`: every element has `P`.
abbrev pub All {ℓ κ} : {A : Type ℓ} → (A → Type κ) → List A → Type κ
All P [] = Unit
All P (x ∷ xs) = P x × All P xs

module _ {ℓ} {K : Type ℓ} ⦃key : Key K⦄ where
  -- `a in xs`
  abbrev pub contains : K → List K → Bool
  contains a [] = false
  contains a (x ∷ xs) = x == a || contains a xs

  -- Adding to a Python set, kept as a list with no repetition.
  abbrev pub add_new : K → List K → List K
  add_new a xs = if contains a xs then xs else xs ++ a ∷ []

  pub contains-append :
      (a : K) (xs ys : List K) → contains a (xs ++ ys) ≡ (contains a xs || contains a ys)
  contains-append a [] ys = refl
  contains-append a (x ∷ xs) ys = ground (arith, contains-append a xs ys)

-- `In x xs`: an element of `xs` is `x`.
abbrev pub In : {A : Type 0} → A → List A → Type 0
In x [] = ⊥
In x (y ∷ ys) = (y ≡ x) ⊎ In x ys

module _ {A : Type 0} (p : A → Bool) where
  pub keep-append : (xs ys : List A) → keep p (xs ++ ys) ≡ keep p xs ++ keep p ys
  keep-append [] ys = refl
  keep-append (x ∷ xs) ys = ground (arith, keep-append xs ys)

  pub All-keep : (P : A → Type 0) (xs : List A) → All P (keep p xs) → All (λ x. p x ≡ true → P x) xs
  All-keep P [] h = tt
  All-keep P (x ∷ xs) h = elim (Bool-cases (p x)) [
    | inl e ↦ let g : All P (x ∷ keep p xs) = rw e at h in (λ _. g.0, All-keep P xs g.1)
    | inr e ↦ let g : All P (keep p xs) = rw e at h in (λ t. cc, All-keep P xs g)
  ]

  pub In-keep : (x : A) (xs : List A) → In x (keep p xs) → In x xs × (p x ≡ true)
  In-keep x [] h = elim h [ ]
  In-keep x (y ∷ ys) h = ground (arith, In-keep x ys)

pub In-All : {A : Type 0} (P : A → Type 0) (x : A) (xs : List A) → In x xs → All P xs → P x
In-All P x [] i h = elim i [ ]
In-All P x (y ∷ ys) (inl q) h = subst P q h.0
In-All P x (y ∷ ys) (inr i) h = In-All P x ys i h.1

pub any-append :
    {A : Type 0} (p : A → Bool) (xs ys : List A) → any p (xs ++ ys) ≡ (any p xs || any p ys)
any-append p [] ys = refl
any-append p (x ∷ xs) ys = ground (arith, any-append p xs ys)
