-- ===== src/Base/Sets.antt =====
-- The built-in `Set` made of a list: each value once, at its first place.
use mathlib.Core.Path.{◌≡◌, refl}
use mathlib.Core.Bool.{true, false}
use mathlib.Core.Logic.{inl, inr}
use mathlib.Core.List.{List, [], ◌∷◌}
use native.Mathlib.Omega.{arith}
use zendesk_mcp_server.Base.Tests.{if◌then◌else◌, Bool-cases}
use zendesk_mcp_server.Base.Keys.{JsKey, includes}

module _ {K : Type 0} ⦃key : JsKey K⦄ where
  -- without those seen before
  abbrev pub unique_from : List K → List K → List K
  unique_from seen [] = []
  unique_from seen (x ∷ xs) =
      let rest = unique_from (x ∷ seen) xs in if includes seen x then rest else x ∷ rest

  -- `[...new Set(xs)]`
  unfoldable pub unique : List K → List K
  unique xs = unique_from [] xs

  -- no value stands twice
  abbrev pub IsUnique : List K → Type 0
  IsUnique [] = Unit
  IsUnique (x ∷ xs) = (includes xs x ≡ false) × IsUnique xs

  not_seen :
      (xs seen : List K) (x : K) → includes seen x ≡ true → includes (unique_from seen xs) x ≡ false
  not_seen [] seen x h = refl
  not_seen (y ∷ ys) seen x h = ground (arith, not_seen ys (y ∷ seen) x, key.same_iff y x)

  unique_from-IsUnique : (xs seen : List K) → IsUnique (unique_from seen xs)
  unique_from-IsUnique [] seen = tt
  unique_from-IsUnique (x ∷ xs) seen = elim (Bool-cases (includes seen x)) [
    | inl old ↦ ground (arith, unique_from-IsUnique xs (x ∷ seen))
    | inr new ↦
        ground
          (arith, unique_from-IsUnique xs (x ∷ seen), not_seen xs (x ∷ seen) x, key.same_iff x x)
  ]

  pub unique-IsUnique : (xs : List K) → IsUnique (unique xs)
  unfolding unique
  unique-IsUnique xs = unique_from-IsUnique xs []

  includes-unique_from :
      (xs seen : List K) (x : K)
      → includes seen x ≡ false
      → includes (unique_from seen xs) x ≡ includes xs x
  includes-unique_from [] seen x h = refl
  includes-unique_from (y ∷ ys) seen x h =
      ground
        (arith, includes-unique_from ys (y ∷ seen) x, not_seen ys (y ∷ seen) x, key.same_iff y x)

  -- The same values are in it.
  pub includes-unique : (xs : List K) (x : K) → includes (unique xs) x ≡ includes xs x
  unfolding unique
  includes-unique xs x = includes-unique_from xs [] x refl
