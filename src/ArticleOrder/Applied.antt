-- ===== src/ArticleOrder/Applied.antt =====
-- What Zendesk holds once the writes of `computePositionWrites` of utils/article-order.ts are applied.
use zendesk_mcp_server.Base.{
  ℕ, ◌≡◌, refl, false, List, [], ◌∷◌, ◌++◌, arith, if◌then◌else◌, ◌==◌, number_key, text_key, All,
}
use zendesk_mcp_server.Base.Int.{ℤ, ◌≤ℤ◌, ◌<ℤ◌}
use zendesk_mcp_server.ArticleOrder.{OrderedArticle, ReorderWrite, has_id, has_position_inversion}

abbrev pub Avoids : ℕ → List OrderedArticle → Type 0
Avoids k = All (λ a. has_id k a ≡ false)

-- No two articles of a section share an id.
abbrev pub IsUnique : List OrderedArticle → Type 0
IsUnique [] = Unit
IsUnique (a ∷ order) = Avoids a.id order × IsUnique order

-- An article after the writes: the position of the write with its id, if there is one.
abbrev pub moved_by : List ReorderWrite → OrderedArticle → OrderedArticle
moved_by [] a = a
moved_by (w ∷ ws) a = if w.id == a.id then record a { position = w.position } else moved_by ws a

abbrev pub apply_writes : List ReorderWrite → List OrderedArticle → List OrderedArticle
apply_writes ws [] = []
apply_writes ws (a ∷ order) = moved_by ws a ∷ apply_writes ws order

abbrev pub NoWrite : ℕ → List ReorderWrite → Type 0
NoWrite k = All (λ w. (w.id == k) ≡ false)

pub moved_by-NoWrite :
    (ws : List ReorderWrite) (a : OrderedArticle) → NoWrite a.id ws → moved_by ws a ≡ a
moved_by-NoWrite [] a h = refl
moved_by-NoWrite (w ∷ ws) a h = rw h.0 (moved_by-NoWrite ws a h.1)

pub apply_writes_skip :
    (w : ReorderWrite) (ws : List ReorderWrite) (order : List OrderedArticle)
    → Avoids w.id order
    → apply_writes (w ∷ ws) order ≡ apply_writes ws order
apply_writes_skip w ws [] h = refl
apply_writes_skip w ws (a ∷ order) h = ground (arith, apply_writes_skip w ws order h.1)

pub apply_writes-append :
    (ws : List ReorderWrite) (xs ys : List OrderedArticle)
    → apply_writes ws (xs ++ ys) ≡ apply_writes ws xs ++ apply_writes ws ys
apply_writes-append ws [] ys = refl
apply_writes-append ws (x ∷ xs) ys = rw (apply_writes-append ws xs ys)

pub apply_writes_none : (order : List OrderedArticle) → apply_writes [] order ≡ order
apply_writes_none [] = refl
apply_writes_none (a ∷ order) = rw (apply_writes_none order)

-- In display order, from a lower bound on.
abbrev pub Ascends : ℤ → List OrderedArticle → Type 0
Ascends lo [] = Unit
Ascends lo (a ∷ order) = (lo ≤ℤ a.position) × Ascends a.position order

pub Ascends-no_inversion :
    (a : OrderedArticle) (order : List OrderedArticle)
    → Ascends a.position order
    → has_position_inversion (a ∷ order) ≡ false
unfolding has_position_inversion
Ascends-no_inversion a [] h = refl
Ascends-no_inversion a (b ∷ order) h = ground (arith, Ascends-no_inversion b order)

pub no_inversion-Ascends :
    (a : OrderedArticle) (order : List OrderedArticle)
    → has_position_inversion (a ∷ order) ≡ false
    → Ascends a.position order
unfolding has_position_inversion
no_inversion-Ascends a [] h = tt
no_inversion-Ascends a (b ∷ order) h = ground (arith, no_inversion-Ascends b order)

-- the last position of a list, with one for the empty list
abbrev pub last_position : ℤ → List OrderedArticle → ℤ
last_position lo [] = lo
last_position lo (a ∷ order) = last_position a.position order

pub Ascends-append :
    (lo : ℤ) (xs ys : List OrderedArticle)
    → Ascends lo xs
    → Ascends (last_position lo xs) ys
    → Ascends lo (xs ++ ys)
Ascends-append lo [] ys h k = k
Ascends-append lo (x ∷ xs) ys h k = (h.0, Ascends-append x.position xs ys h.1 k)

pub Ascends-prefix :
    (lo : ℤ) (xs ys : List OrderedArticle)
    → Ascends lo (xs ++ ys)
    → Ascends lo xs × Ascends (last_position lo xs) ys
Ascends-prefix lo [] ys h = (tt, h)
Ascends-prefix lo (x ∷ xs) ys h =
    let (left, right) = Ascends-prefix x.position xs ys h.1 in ((h.0, left), right)

pub Ascends-le-last :
    (lo : ℤ) (xs : List OrderedArticle)
    → Ascends lo xs
    → (lo ≤ℤ last_position lo xs) × All (λ a. a.position ≤ℤ last_position lo xs) xs
Ascends-le-last lo [] h = (omega arith, tt)
Ascends-le-last lo (x ∷ xs) h =
    let (first, rest) = Ascends-le-last x.position xs h.1 in (omega arith, (first, rest))

pub Ascends-above :
    (lo bound : ℤ) (xs : List OrderedArticle)
    → bound <ℤ lo
    → Ascends lo xs
    → All (λ a. bound <ℤ a.position) xs
Ascends-above lo bound [] b h = tt
Ascends-above lo bound (x ∷ xs) b h =
    (omega arith, Ascends-above x.position bound xs (omega arith) h.1)
