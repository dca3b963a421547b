-- ===== src/ArticleOrder/Normalize.antt =====
-- `computePositionWrites` of utils/article-order.ts with `normalize`.
use zendesk_mcp_server.Base.{
  ℕ, zero, suc, ◌+◌, ◌≡◌, refl, true, List, [], ◌∷◌, arith, get_elem?, number_key, text_key,
}
use mathlib.Core.Option
use zendesk_mcp_server.Base.Int.{pos, eq_of_parts}
use zendesk_mcp_server.ArticleOrder.{OrderedArticle, normalize_writes, compute_position_writes}
use zendesk_mcp_server.ArticleOrder.Applied.{
  Avoids, IsUnique, apply_writes, NoWrite, moved_by-NoWrite, apply_writes_skip,
}

abbrev renumbered : ℕ → List OrderedArticle → List OrderedArticle
renumbered index [] = []
renumbered index (a ∷ order) = record a { position = pos index } ∷ renumbered (index + 1) order

normalize_writes-NoWrite :
    (k index : ℕ) (order : List OrderedArticle)
    → Avoids k order
    → NoWrite k (normalize_writes index order)
unfolding normalize_writes
normalize_writes-NoWrite k index [] h = tt
normalize_writes-NoWrite k index (a ∷ order) h =
    ground (arith, normalize_writes-NoWrite k (index + 1) order h.1)

apply-normalize_writes :
    (index : ℕ) (order : List OrderedArticle)
    → IsUnique order
    → apply_writes (normalize_writes index order) order ≡ renumbered index order
unfolding normalize_writes
apply-normalize_writes index [] h = refl
apply-normalize_writes index (a ∷ order) h =
    let rest = normalize_writes (index + 1) order in
    ground (
      arith,
      moved_by-NoWrite rest a,
      normalize_writes-NoWrite a.id (index + 1) order h.0,
      apply-normalize_writes (index + 1) order h.1,
      apply_writes_skip (record { id = a.id; position = pos index }) rest order h.0,
      eq_of_parts a.position (pos index),
    )

get_elem?-renumbered :
    (index i : ℕ) (order : List OrderedArticle)
    → get_elem? (renumbered index order) i
      ≡ Option.map
          (λ (a : OrderedArticle). record a { position = pos (index + i) })
          (get_elem? order i)
get_elem?-renumbered index i [] = refl
get_elem?-renumbered index zero (a ∷ order) = let e : index + 0 ≡ index = omega arith in rw e
get_elem?-renumbered index (suc i) (a ∷ order) =
    let e : index + suc i ≡ index + 1 + i = omega arith in
    rw e (get_elem?-renumbered (index + 1) i order)

normalize_writes-renumbered :
    (index : ℕ) (order : List OrderedArticle) → normalize_writes index (renumbered index order) ≡ []
unfolding normalize_writes
normalize_writes-renumbered index [] = refl
normalize_writes-renumbered index (a ∷ order) =
    ground (arith, normalize_writes-renumbered (index + 1) order)

-- Where no two articles share an id, the writes of a normalising call leave every article in its
-- place of the desired order with that place, counted from 0, as its position.
pub normalize-renumbers :
    (desired : List OrderedArticle) (moved_id i : ℕ)
    → IsUnique desired
    → get_elem? (apply_writes (compute_position_writes desired moved_id true) desired) i
      ≡ Option.map (λ (a : OrderedArticle). record a { position = pos i }) (get_elem? desired i)
unfolding compute_position_writes
normalize-renumbers desired moved_id i h =
    let e : 0 + i ≡ i = omega arith in
    rw (apply-normalize_writes 0 desired h, get_elem?-renumbered 0 i desired, e)

-- A second normalising call after the writes of the first writes nothing.
pub normalize_idempotent :
    (desired : List OrderedArticle) (moved_id : ℕ)
    → IsUnique desired
    → compute_position_writes
        (apply_writes (compute_position_writes desired moved_id true) desired)
        moved_id
        true
      ≡ []
unfolding compute_position_writes
normalize_idempotent desired moved_id h =
    rw (apply-normalize_writes 0 desired h) (normalize_writes-renumbered 0 desired)
