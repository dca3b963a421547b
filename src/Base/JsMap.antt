-- ===== src/Base/JsMap.antt =====
-- The built-in `Map` as its entries in insertion order: `set` on a present key keeps the key's
-- place, on a new key appends. A `Set` is a list without repetitions.
use mathlib.Core.Path.{◌≡◌, refl}
use mathlib.Core.Bool.{false}
use mathlib.Core.Logic.{◌⊎◌, inl, inr}
use mathlib.Core.Option.{Option, none, some, some_inj, none-ne-some}
use mathlib.Core.List.{List, [], ◌∷◌}
use native.Mathlib.Omega.{arith}
use zendesk_mcp_server.Base.Tests.{if◌then◌else◌, Bool-cases}
use zendesk_mcp_server.Base.Keys.{JsKey, ◌==◌}

abbrev pub JsMap {ℓ κ} : Type ℓ → Type κ → Type (ℓ ⊔ κ)
JsMap K V = List (K × V)

module _ {ℓ κ} {K : Type ℓ} {V : Type κ} ⦃e : JsKey K⦄ where
  unfoldable pub get : JsMap K V → K → Option V
  get [] k = none
  get ((j, v) ∷ m) k = if j == k then some v else get m k

  unfoldable pub put : JsMap K V → K → V → JsMap K V
  put [] k v = (k, v) ∷ []
  put ((j, w) ∷ m) k v = if j == k then (j, v) ∷ m else (j, w) ∷ put m k v

  unfoldable pub delete : JsMap K V → K → JsMap K V
  delete [] k = []
  delete ((j, v) ∷ m) k = let rest = delete m k in if j == k then rest else (j, v) ∷ rest

  pub get-put :
      (m : JsMap K V) (k j : K) (v : V) → get (put m k v) j ≡ (if k == j then some v else get m j)
  unfolding get put
  get-put [] k j v = refl
  get-put ((i, w) ∷ m) k j v =
      ground (arith, get-put m k j v, e.same_iff i k, e.same_iff i j, e.same_iff k j)

  pub get-delete :
      (m : JsMap K V) (k j : K) → get (delete m k) j ≡ (if k == j then none else get m j)
  unfolding get delete
  get-delete [] k j = ground arith
  get-delete ((i, w) ∷ m) k j =
      ground (arith, get-delete m k j, e.same_iff i k, e.same_iff i j, e.same_iff k j)

pub ruleset map_laws = (get-put, get-delete)

-- No key stands twice, as in any `Map`.
module _ {ℓ κ} {K : Type ℓ} {V : Type κ} ⦃e : JsKey K⦄ where
  abbrev pub IsKeyed : JsMap K V → Type κ
  IsKeyed [] = Unit
  IsKeyed ((k, v) ∷ m) = (get m k ≡ none) × IsKeyed m

  pub IsKeyed-put : (m : JsMap K V) (k : K) (v : V) → IsKeyed m → IsKeyed (put m k v)
  unfolding put get
  IsKeyed-put [] k v h = (refl, tt)
  IsKeyed-put ((j, w) ∷ m) k v h =
      ground (arith, IsKeyed-put m k v h.1, get-put m k j v, e.same_iff j k, e.same_iff k j)

  pub IsKeyed-delete : (m : JsMap K V) (k : K) → IsKeyed m → IsKeyed (delete m k)
  unfolding delete
  IsKeyed-delete [] k h = tt
  IsKeyed-delete ((j, w) ∷ m) k h = ground (arith, IsKeyed-delete m k h.1, get-delete m k j)

  pub delete_absent : (m : JsMap K V) (k : K) → get m k ≡ none → delete m k ≡ m
  unfolding get delete
  delete_absent [] k h = refl
  delete_absent ((j, w) ∷ m) k h = ground (arith, delete_absent m k)

-- What is found after a write, by its key.
module _ {ℓ κ} {K : Type ℓ} {V : Type κ} ⦃e : JsKey K⦄ where
  pub get-put_cases :
      (m : JsMap K V) (k j : K) (v w : V)
      → get (put m k v) j ≡ some w
      → ((k ≡ j) × (v ≡ w)) ⊎ (((k == j) ≡ false) × (get m j ≡ some w))
  get-put_cases m k j v w h = elim (Bool-cases (k == j)) [
    | inl same ↦ inl ((e.same_iff k j).0 same, some_inj.0 (rw (get-put m k j v, same) at h))
    | inr other ↦ inr (other, rw (get-put m k j v, other) at h)
  ]

  pub get-delete_kept :
      (m : JsMap K V) (k j : K) (w : V)
      → get (delete m k) j ≡ some w
      → ((k == j) ≡ false) × (get m j ≡ some w)
  get-delete_kept m k j w h = elim (Bool-cases (k == j)) [
    | inl same ↦ absurd (none-ne-some w (rw (get-delete m k j, same) at h))
    | inr other ↦ (other, rw (get-delete m k j, other) at h)
  ]

  pub get-put_self : (m : JsMap K V) (k : K) (v : V) → get (put m k v) k ≡ some v
  get-put_self m k v = ground (arith, get-put m k k v, e.same_iff k k)

  pub get-put_other :
      (m : JsMap K V) (k j : K) (v : V) → (k == j) ≡ false → get (put m k v) j ≡ get m j
  get-put_other m k j v h = rw (get-put m k j v, h)
