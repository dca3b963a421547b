-- ===== src/ArticleOrder/Settled.antt =====
-- The section after the writes of `computePositionWrites` of utils/article-order.ts.
use zendesk_mcp_server.Base.{
  ◌<◌, ◌≡◌, refl, inl, inr, false, List, [], ◌∷◌, ◌++◌, arith, ltb→lt, Bool-cases, length,
  number_key, text_key, All,
}
use zendesk_mcp_server.Base.Int.{ℤ, pos, negsuc, ◌+ℤ◌, ◌≤ℤ◌, ◌<ℤ◌, ltb_ℤ, int_laws, +ℤ_parts}
use zendesk_mcp_server.ArticleOrder.{
  OrderedArticle, has_position_inversion, max_ℤ, max_position, cascade_writes,
  compute_position_writes,
}
use zendesk_mcp_server.ArticleOrder.Applied.{
  Avoids, IsUnique, apply_writes, Ascends, Ascends-no_inversion, no_inversion-Ascends,
  last_position, Ascends-append, Ascends-prefix, Ascends-le-last,
}
use zendesk_mcp_server.ArticleOrder.Cascade.{
  settled, ids, Ascends-settled, cascade_writes-settled, ids-settled, settled-above,
}
use zendesk_mcp_server.ArticleOrder.Placement.{
  settled_between, compute-writes_between, IsUnique-prefix, Avoids-of_prefix, apply-compute,
}

max-bounds :
    (best : ℤ) (xs : List OrderedArticle)
    → (best ≤ℤ max_position best xs) × All (λ a. a.position ≤ℤ max_position best xs) xs
unfolding max_position
max-bounds best [] = (omega arith, tt)
max-bounds best (x ∷ xs) =
    let (first, rest) = max-bounds (max_ℤ best x.position) xs in
    (ground arith, (ground arith, rest))

last-le-max :
    (lo best : ℤ) (xs : List OrderedArticle)
    → lo ≤ℤ best
    → last_position lo xs ≤ℤ max_position best xs
unfolding max_position
last-le-max lo best [] h = h
last-le-max lo best (x ∷ xs) h = last-le-max x.position (max_ℤ best x.position) xs (ground arith)

All-lt_of_le :
    (lo hi : ℤ) (xs : List OrderedArticle)
    → lo <ℤ hi
    → All (λ a. a.position ≤ℤ lo) xs
    → All (λ a. a.position <ℤ hi) xs
All-lt_of_le lo hi [] h all = tt
All-lt_of_le lo hi (x ∷ xs) h all = (omega arith, All-lt_of_le lo hi xs h all.1)

no_inversion-start :
    (xs : List OrderedArticle) → has_position_inversion xs ≡ false → (lo : ℤ) × Ascends lo xs
no_inversion-start [] h = (pos 0, tt)
no_inversion-start (x ∷ xs) h = (x.position, (omega arith, no_inversion-Ascends x xs h))

start-no_inversion :
    (lo : ℤ) (xs : List OrderedArticle) → Ascends lo xs → has_position_inversion xs ≡ false
unfolding has_position_inversion
start-no_inversion lo [] h = refl
start-no_inversion lo (x ∷ xs) h = Ascends-no_inversion x xs h.1

-- A start from which the articles ascend to the last of them, or to -1 where there is none.
restart :
    (lo : ℤ) (xs : List OrderedArticle)
    → Ascends lo xs
    → (lo' : ℤ) × Ascends lo' xs × (last_position lo' xs ≡ last_position (negsuc 0) xs)
restart lo [] h = (negsuc 0, tt, refl)
restart lo (x ∷ xs) h = (lo, h, refl)

last-negsuc :
    (lo : ℤ) (xs : List OrderedArticle)
    → Ascends lo xs
    → All (λ a. a.position ≤ℤ last_position (negsuc 0) xs) xs
last-negsuc lo [] h = tt
last-negsuc lo (x ∷ xs) h = let (first, rest) = Ascends-le-last x.position xs h.1 in (first, rest)

-- The section after a call that moved `m` between `xs` and `ys`.
pub record IsSettled (xs : List OrderedArticle) (m : OrderedArticle) (ys : List OrderedArticle)
    (order : List OrderedArticle) : Type 0 where
  pub position : ℤ
  pub rest : List OrderedArticle
  pub shape : order ≡ xs ++ ((record m { position = position }) ∷ rest)
  pub same : ids rest ≡ ids ys
  pub above : All (λ a. a.position <ℤ position) xs
  pub below : All (λ a. position <ℤ a.position) rest
  pub sorted : has_position_inversion order ≡ false

settle :
    (lo p : ℤ) (xs : List OrderedArticle) (m : OrderedArticle) (ys rest order : List OrderedArticle)
    → order ≡ xs ++ ((record m { position = p }) ∷ rest)
    → ids rest ≡ ids ys
    → All (λ a. a.position <ℤ p) xs
    → All (λ a. p <ℤ a.position) rest
    → Ascends lo xs
    → last_position lo xs ≤ℤ p
    → Ascends p rest
    → IsSettled xs m ys order
settle lo p xs m ys rest order shape same above below left step right = record {
  position = p;
  rest = rest;
  shape = shape;
  same = same;
  above = above;
  below = below;
  sorted = rw shape (
      start-no_inversion lo (xs ++ ((record m { position = p }) ∷ rest))
        (Ascends-append lo xs ((record m { position = p }) ∷ rest) left (step, right)));
}

settled_between-IsSettled :
    (xs : List OrderedArticle) (m : OrderedArticle) (ys : List OrderedArticle) (lo : ℤ)
    → Ascends lo xs
    → Ascends (last_position lo xs) ys
    → IsSettled xs m ys (xs ++ settled_between xs m ys)
settled_between-IsSettled xs m [] lo left right =
    let best = max_position (negsuc 0) xs in
    let (start, ascends, end) = restart lo xs left in
    let le = last-le-max (negsuc 0) (negsuc 0) xs (omega arith) in
    let upper = (max-bounds (negsuc 0) xs).1 in
    elim (Bool-cases (ltb_ℤ best m.position)) [
      | inl high ↦
          let lt : best <ℤ m.position = omega (arith, ltb→lt _ _ high) in
          settle start m.position xs m [] [] _ (rw high) refl
            (All-lt_of_le best m.position xs lt upper) tt ascends (rw end (omega arith)) tt
      | inr low ↦
          let p = best +ℤ pos 1 in
          settle start p xs m [] [] _ (rw low) refl (All-lt_of_le best p xs (omega int_laws) upper)
            tt ascends (rw end (omega int_laws)) tt
    ]
settled_between-IsSettled xs m (y ∷ ys) lo left right =
    let running = last_position (negsuc 0) xs in
    let p = running +ℤ pos 1 in
    let (start, ascends, end) = restart lo xs left in
    settle start p xs m (y ∷ ys) (settled false p (y ∷ ys)) _ refl (ids-settled false p (y ∷ ys))
      (All-lt_of_le running p xs (omega int_laws) (last-negsuc lo xs left))
      (settled-above _ p p (y ∷ ys) (omega arith) right) ascends (rw end (omega int_laws))
      (Ascends-settled _ p (y ∷ ys) right)

-- Where ids are unique and the other articles stand in non-decreasing order, the writes of a
-- call that does not normalise leave the articles before the moved one as they are and the ids
-- after it in their order, put the moved article strictly between the two sides, and leave
-- the whole section free of inversions.
pub writes-IsSettled :
    (xs : List OrderedArticle) (m : OrderedArticle) (ys : List OrderedArticle)
    → IsUnique (xs ++ (m ∷ ys))
    → has_position_inversion (xs ++ ys) ≡ false
    → IsSettled xs m ys
        (apply_writes (compute_position_writes (xs ++ (m ∷ ys)) m.id false) (xs ++ (m ∷ ys)))
writes-IsSettled xs m ys unique sorted =
    let (lo, ascends) = no_inversion-start (xs ++ ys) sorted in
    let (left, right) = Ascends-prefix lo xs ys ascends in
    rw (apply-compute xs m ys unique) (settled_between-IsSettled xs m ys lo left right)

-- A moved article that stands one above its left neighbour, and below what follows, is not written.
no_writes :
    (xs : List OrderedArticle) (m : OrderedArticle) (rest : List OrderedArticle)
    → Avoids m.id xs
    → m.position ≡ last_position (negsuc 0) xs +ℤ pos 1
    → 0 < length rest
    → cascade_writes false m.position rest ≡ []
    → compute_position_writes (xs ++ (m ∷ rest)) m.id false ≡ []
unfolding cascade_writes
no_writes xs m [] apart place some_rest settled_rest = absurd (omega arith)
no_writes xs m (y ∷ ys) apart place some_rest settled_rest =
    rw (compute-writes_between xs m (y ∷ ys) apart) (ground arith)

length-settled :
    (p : ℤ) (y : OrderedArticle) (ys : List OrderedArticle) → 0 < length (settled false p (y ∷ ys))
length-settled p y ys = ground arith

rewrite_none :
    (xs : List OrderedArticle) (m : OrderedArticle) (ys : List OrderedArticle)
    → Avoids m.id xs
    → compute_position_writes (xs ++ settled_between xs m ys) m.id false ≡ []
rewrite_none xs m [] apart = elim (Bool-cases (ltb_ℤ (max_position (negsuc 0) xs) m.position)) [
  | inl high ↦ rw (high, compute-writes_between xs m [] apart, high)
  | inr low ↦
      let p = max_position (negsuc 0) xs +ℤ pos 1 in
      rw (low, compute-writes_between xs (record m { position = p }) [] apart)
        (ground (arith, +ℤ_parts (max_position (negsuc 0) xs) (pos 1)))
]
rewrite_none xs m (y ∷ ys) apart =
    let p = last_position (negsuc 0) xs +ℤ pos 1 in
    no_writes xs (record m { position = p }) (settled false p (y ∷ ys)) apart refl
      (length-settled p y ys) (cascade_writes-settled p (y ∷ ys))

-- A second call for the same article, after the writes of the first, writes nothing.
pub writes_idempotent :
    (xs : List OrderedArticle) (m : OrderedArticle) (ys : List OrderedArticle)
    → IsUnique (xs ++ (m ∷ ys))
    → compute_position_writes
        (apply_writes (compute_position_writes (xs ++ (m ∷ ys)) m.id false) (xs ++ (m ∷ ys)))
        m.id
        false
      ≡ []
writes_idempotent xs m ys unique =
    rw (apply-compute xs m ys unique)
      (rewrite_none xs m ys (Avoids-of_prefix m xs ys (IsUnique-prefix xs (m ∷ ys) unique).0))
