-- ===== src/Common/Classes.antt =====
-- Equality of keys as an instance, for numbers, texts and pairs.
use Prim.Native.Nat.{ℕ}
use Prim.Native.String.{String}
use mathlib.Core.Path.{◌≡◌}
use mathlib.Core.Logic.{◌↔◌}
use mathlib.Core.Bool.{Bool, true, ◌&&◌}
use native.Mathlib.Omega.{arith}
use text.Mathlib.Text.{◌==◌ as str_eq}
use text.Mathlib.TextEquality.{eq_iff}
use predictive_autoscaling_k.Common.Tests.{nat_eq, nat_eq_iff}

pub record Eq {ℓ} (A : Type ℓ) : Type ℓ where
  pub same : A → A → Bool
  pub same_iff : (a b : A) → (same a b ≡ true) ↔ (a ≡ b)

infix 50 ◌==◌
abbrev pub ◌==◌ {ℓ} : {A : Type ℓ} ⦃keys : Eq A⦄ → A → A → Bool
◌==◌ ⦃keys⦄ = keys.same

pub ==_iff {ℓ} : {A : Type ℓ} ⦃keys : Eq A⦄ (a b : A) → ((a == b) ≡ true) ↔ (a ≡ b)
==_iff ⦃keys⦄ a b = keys.same_iff a b

instance abbrev pub nat_Eq : Eq ℕ
nat_Eq = record { same = nat_eq; same_iff = nat_eq_iff }

instance abbrev pub string_Eq : Eq String
string_Eq = record { same = str_eq; same_iff = eq_iff }

module _ {ℓ κ} {A : Type ℓ} {B : Type κ} ⦃eA : Eq A⦄ ⦃eB : Eq B⦄ where
  abbrev pub pair_eq : A × B → A × B → Bool
  pair_eq p q = eA.same p.0 q.0 && eB.same p.1 q.1

  pub pair_eq_iff : (p q : A × B) → (pair_eq p q ≡ true) ↔ (p ≡ q)
  pair_eq_iff p q = ground (arith, eA.same_iff p.0 q.0, eB.same_iff p.1 q.1)

  instance abbrev pub pair_Eq : Eq (A × B)
  pair_Eq = record { same = pair_eq; same_iff = pair_eq_iff }
