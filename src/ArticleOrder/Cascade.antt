-- ===== src/ArticleOrder/Cascade.antt =====
-- The loop of `computePositionWrites` of utils/article-order.ts that shifts articles.
use zendesk_mcp_server.Base.{
  ℕ, ◌≡◌, refl, inl, inr, Bool, false, not, ◌&&◌, List, [], ◌∷◌, arith, if◌then◌else◌, ltb→lt,
  Bool-cases, number_key, text_key, All,
}
use zendesk_mcp_server.Base.Int.{ℤ, pos, ◌+ℤ◌, ◌≤ℤ◌, ◌<ℤ◌, ltb_ℤ, int_laws, +ℤ_parts, eq_of_parts}
use zendesk_mcp_server.ArticleOrder.{OrderedArticle, cascade_writes}
use zendesk_mcp_server.ArticleOrder.Applied.{
  Avoids, IsUnique, apply_writes, NoWrite, moved_by-NoWrite, apply_writes_skip, apply_writes_none,
  Ascends, Ascends-above,
}

-- The articles after the cascade.
abbrev pub settled : Bool → ℤ → List OrderedArticle → List OrderedArticle
settled first running [] = []
settled first running (a ∷ order) =
    let rest = settled false (running +ℤ pos 1) order in
    if not first && ltb_ℤ running a.position
    then a ∷ order
    else record a { position = running +ℤ pos 1 } ∷ rest

pub cascade_writes-NoWrite :
    (k : ℕ) (first : Bool) (running : ℤ) (order : List OrderedArticle)
    → Avoids k order
    → NoWrite k (cascade_writes first running order)
unfolding cascade_writes
cascade_writes-NoWrite k first running [] h = tt
cascade_writes-NoWrite k first running (a ∷ order) h =
    ground (arith, cascade_writes-NoWrite k false (running +ℤ pos 1) order h.1)

pub apply-cascade_writes :
    (first : Bool) (running : ℤ) (order : List OrderedArticle)
    → IsUnique order
    → apply_writes (cascade_writes first running order) order ≡ settled first running order
unfolding cascade_writes
apply-cascade_writes first running [] h = refl
apply-cascade_writes first running (a ∷ order) h =
    let target = running +ℤ pos 1 in
    let rest = cascade_writes false target order in
    ground (
      arith,
      moved_by-NoWrite rest a,
      cascade_writes-NoWrite a.id false target order h.0,
      apply-cascade_writes false target order h.1,
      apply_writes_skip (record { id = a.id; position = target }) rest order h.0,
      eq_of_parts a.position target,
      apply_writes_none order,
    )

pub Ascends-settled :
    (lo running : ℤ) (order : List OrderedArticle)
    → Ascends lo order
    → Ascends running (settled false running order)
Ascends-settled lo running [] h = tt
Ascends-settled lo running (a ∷ order) h =
    ground
      (arith, +ℤ_parts running (pos 1), Ascends-settled a.position (running +ℤ pos 1) order h.1)

pub cascade_writes-settled :
    (running : ℤ) (order : List OrderedArticle)
    → cascade_writes false running (settled false running order) ≡ []
unfolding cascade_writes
cascade_writes-settled running [] = refl
cascade_writes-settled running (a ∷ order) = ground (arith, +ℤ_parts running (pos 1))

abbrev pub ids : List OrderedArticle → List ℕ
ids [] = []
ids (a ∷ order) = a.id ∷ ids order

pub ids-settled :
    (first : Bool) (running : ℤ) (order : List OrderedArticle)
    → ids (settled first running order) ≡ ids order
ids-settled first running [] = refl
ids-settled first running (a ∷ order) = ground (arith, ids-settled false (running +ℤ pos 1) order)

pub settled-above :
    (lo bound running : ℤ) (order : List OrderedArticle)
    → bound ≤ℤ running
    → Ascends lo order
    → All (λ a. bound <ℤ a.position) (settled false running order)
settled-above lo bound running [] b h = tt
settled-above lo bound running (a ∷ order) b h = elim (Bool-cases (ltb_ℤ running a.position)) [
  | inl stop ↦
      let above : bound <ℤ a.position = omega (arith, ltb→lt _ _ stop) in
      rw stop (above, Ascends-above a.position bound order above h.1)
  | inr go ↦
      rw go (
        omega int_laws,
        settled-above a.position bound (running +ℤ pos 1) order (omega int_laws) h.1,
      )
]
