-- ===== src/Base/Keys.antt =====
-- The equality `===` of keys, as an interface, with numbers and texts.
use Prim.Native.Nat.{ℕ}
use Prim.Native.String.{String}
use mathlib.Core.Path.{◌≡◌}
use mathlib.Core.Logic.{◌↔◌}
use mathlib.Core.Bool.{Bool, true, false, ◌||◌}
use mathlib.Core.List.{List, [], ◌∷◌}
use text.Mathlib.Text.{◌==◌ as text_same}
use text.Mathlib.TextEquality.{eq_iff}
use zendesk_mcp_server.Base.Tests.{nat_beq, nat_beq_iff}

-- A type whose values the program compares or keeps as keys of a `Map`.
pub record JsKey {ℓ} (K : Type ℓ) : Type ℓ where
  pub same : K → K → Bool
  pub same_iff : (j k : K) → (same j k ≡ true) ↔ (j ≡ k)

instance abbrev pub text_key : JsKey String
text_key = record { same_iff = eq_iff; same = text_same }

instance abbrev pub number_key : JsKey ℕ
number_key = record { same_iff = nat_beq_iff; same = nat_beq }

module _ {ℓ} {K : Type ℓ} ⦃key : JsKey K⦄ where
  infix 50 ◌==◌
  abbrev pub ◌==◌ : K → K → Bool
  j == k = key.same j k

  pub ==_iff : (j k : K) → ((j == k) ≡ true) ↔ (j ≡ k)
  ==_iff j k = key.same_iff j k

  -- `xs.includes(x)`
  abbrev pub includes : List K → K → Bool
  includes [] x = false
  includes (y ∷ ys) x = (y == x) || includes ys x
