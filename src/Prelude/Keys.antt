-- ===== src/Prelude/Keys.antt =====
-- Types with a Boolean equality: the keys of dictionaries, and what `==` compares.
use Prim.Native.Nat.{ℕ}
use Prim.Native.String.{String}
use mathlib.Core.Path.{◌≡◌, refl}
use mathlib.Core.Logic.{◌↔◌}
use mathlib.Core.Bool.{Bool, true, ◌&&◌}
use native.Mathlib.Omega.{arith}
use text.Mathlib.Text.{◌==◌ as text_eq}
use text.Mathlib.TextEquality.{eq_iff}
use open_weave.Prelude.Tests.{nat_eq}

pub record Key {ℓ} (K : Type ℓ) : Type ℓ where
  pub same : K → K → Bool
  pub same_iff : (a b : K) → (same a b ≡ true) ↔ (a ≡ b)

infix 50 ◌==◌
abbrev pub ◌==◌ {ℓ} : {K : Type ℓ} ⦃key : Key K⦄ → K → K → Bool
◌==◌ ⦃key⦄ = key.same

pub nat_eq_iff : (a b : ℕ) → (nat_eq a b ≡ true) ↔ (a ≡ b)
nat_eq_iff a b = ground arith

instance abbrev pub nat_key : Key ℕ
nat_key = record { same = nat_eq; same_iff = nat_eq_iff }

instance abbrev pub text_key : Key String
text_key = record { same = text_eq; same_iff = eq_iff }

-- The primary keys of the tables: a project and an id.
abbrev pub RowKey : Type 0
RowKey = String × String

abbrev pub pair_eq : RowKey → RowKey → Bool
pair_eq (a, b) (c, d) = text_eq a c && text_eq b d

pub pair_eq_iff : (p q : RowKey) → (pair_eq p q ≡ true) ↔ (p ≡ q)
pair_eq_iff (a, b) (c, d) = ground (arith, eq_iff a c, eq_iff b d)

instance abbrev pub row_key : Key RowKey
row_key = record { same = pair_eq; same_iff = pair_eq_iff }

module _ {ℓ} {K : Type ℓ} ⦃key : Key K⦄ where
  pub same_self : (a : K) → (a == a) ≡ true
  same_self a = (key.same_iff a a).1 refl
