-- ===== src/ArticleOrder/Placement.antt =====
-- `computePositionWrites` of utils/article-order.ts without `normalize`, around the moved article.
use zendesk_mcp_server.Base.{
  ℕ, ◌≡◌, refl, true, false, some, List, [], ◌∷◌, ◌++◌, arith, if◌then◌else◌, nat_beq_iff, length,
  get_elem?, take, drop, length-append, number_key, text_key, All,
}
use zendesk_mcp_server.Base.Int.{pos, negsuc, ◌+ℤ◌, ltb_ℤ}
use zendesk_mcp_server.ArticleOrder.{
  OrderedArticle, ReorderWrite, has_id, find_index, max_position, cascade_writes, running_from,
  left_of, write_bottom, compute_position_writes,
}
use zendesk_mcp_server.ArticleOrder.Applied.{
  Avoids, IsUnique, apply_writes, NoWrite, moved_by-NoWrite, apply_writes-append, last_position,
}
use zendesk_mcp_server.ArticleOrder.Cascade.{settled, cascade_writes-NoWrite, apply-cascade_writes}

-- The moved article between its left and right neighbours.
module _ (m : OrderedArticle) (ys : List OrderedArticle) where
  find_index-middle :
      (xs : List OrderedArticle)
      → Avoids m.id xs
      → find_index (has_id m.id) (xs ++ (m ∷ ys)) ≡ some (length xs)
  unfolding find_index
  find_index-middle [] h = rw (nat_beq_iff m.id m.id).1 refl
  find_index-middle (x ∷ xs) h = rw (h.0, find_index-middle xs h.1)

  get_elem?-middle : (xs : List OrderedArticle) → get_elem? (xs ++ (m ∷ ys)) (length xs) ≡ some m
  get_elem?-middle [] = refl
  get_elem?-middle (x ∷ xs) = get_elem?-middle xs

  take-middle : (xs : List OrderedArticle) → take (length xs) (xs ++ (m ∷ ys)) ≡ xs
  take-middle [] = refl
  take-middle (x ∷ xs) = rw (take-middle xs)

  drop-middle : (xs : List OrderedArticle) → drop (length xs) (xs ++ (m ∷ ys)) ≡ m ∷ ys
  drop-middle [] = refl
  drop-middle (x ∷ xs) = drop-middle xs

  left-middle :
      (x : OrderedArticle) (xs : List OrderedArticle)
      → running_from (get_elem? (x ∷ (xs ++ (m ∷ ys))) (length xs)) ≡ last_position x.position xs
  left-middle x [] = refl
  left-middle x (z ∷ xs) = left-middle z xs

  running-middle :
      (xs : List OrderedArticle)
      → running_from (left_of (xs ++ (m ∷ ys)) (length xs)) ≡ last_position (negsuc 0) xs
  running-middle [] = refl
  running-middle (x ∷ xs) = left-middle x xs

-- The writes of a call for the article between `xs` and `ys`.
abbrev pub writes_between :
    List OrderedArticle → OrderedArticle → List OrderedArticle → List ReorderWrite
writes_between xs m [] = write_bottom m (max_position (negsuc 0) xs)
writes_between xs m (y ∷ ys) = cascade_writes true (last_position (negsuc 0) xs) (m ∷ (y ∷ ys))

pub compute-writes_between :
    (xs : List OrderedArticle) (m : OrderedArticle) (ys : List OrderedArticle)
    → Avoids m.id xs
    → compute_position_writes (xs ++ (m ∷ ys)) m.id false ≡ writes_between xs m ys
unfolding compute_position_writes
compute-writes_between xs m [] h =
    rw (find_index-middle m [] xs h, get_elem?-middle m [] xs, take-middle m [] xs)
      (ground (arith, length-append xs (m ∷ [])))
compute-writes_between xs m (y ∷ ys) h =
    rw
      (
        find_index-middle m (y ∷ ys) xs h,
        get_elem?-middle m (y ∷ ys) xs,
        drop-middle m (y ∷ ys) xs,
        running-middle m (y ∷ ys) xs,
      )
      (ground (arith, length-append xs (m ∷ (y ∷ ys))))

Avoids-prefix :
    (k : ℕ) (xs zs : List OrderedArticle) → Avoids k (xs ++ zs) → Avoids k xs × Avoids k zs
Avoids-prefix k [] zs h = (tt, h)
Avoids-prefix k (x ∷ xs) zs h =
    let (left, right) = Avoids-prefix k xs zs h.1 in ((h.0, left), right)

pub IsUnique-prefix :
    (xs zs : List OrderedArticle) → IsUnique (xs ++ zs) → All (λ x. Avoids x.id zs) xs × IsUnique zs
IsUnique-prefix [] zs h = (tt, h)
IsUnique-prefix (x ∷ xs) zs h =
    let (left, right) = IsUnique-prefix xs zs h.1 in
    (((Avoids-prefix x.id xs zs h.0).1, left), right)

pub Avoids-of_prefix :
    (m : OrderedArticle) (xs ys : List OrderedArticle)
    → All (λ x. Avoids x.id (m ∷ ys)) xs
    → Avoids m.id xs
Avoids-of_prefix m [] ys h = tt
Avoids-of_prefix m (x ∷ xs) ys h = (ground (arith, h.0.0), Avoids-of_prefix m xs ys h.1)

writes_between-NoWrite :
    (k : ℕ) (xs : List OrderedArticle) (m : OrderedArticle) (ys : List OrderedArticle)
    → Avoids k (m ∷ ys)
    → NoWrite k (writes_between xs m ys)
writes_between-NoWrite k xs m [] h = ground arith
writes_between-NoWrite k xs m (y ∷ ys) h =
    cascade_writes-NoWrite k true (last_position (negsuc 0) xs) (m ∷ (y ∷ ys)) h

-- The writes leave the articles before the moved one as they are.
apply_writes_prefix :
    (ws : List ReorderWrite) (xs : List OrderedArticle)
    → All (λ x. NoWrite x.id ws) xs
    → apply_writes ws xs ≡ xs
apply_writes_prefix ws [] h = refl
apply_writes_prefix ws (x ∷ xs) h = rw (moved_by-NoWrite ws x h.0, apply_writes_prefix ws xs h.1)

All-NoWrite :
    (zs xs : List OrderedArticle) (m : OrderedArticle) (ys : List OrderedArticle)
    → All (λ x. Avoids x.id (m ∷ ys)) zs
    → All (λ x. NoWrite x.id (writes_between xs m ys)) zs
All-NoWrite [] xs m ys h = tt
All-NoWrite (z ∷ zs) xs m ys h =
    (writes_between-NoWrite z.id xs m ys h.0, All-NoWrite zs xs m ys h.1)

-- The moved article and what follows it after the writes.
abbrev pub settled_between :
    List OrderedArticle → OrderedArticle → List OrderedArticle → List OrderedArticle
settled_between xs m [] =
    if ltb_ℤ (max_position (negsuc 0) xs) m.position
    then m ∷ []
    else (record m { position = max_position (negsuc 0) xs +ℤ pos 1 }) ∷ []
settled_between xs m (y ∷ ys) = settled true (last_position (negsuc 0) xs) (m ∷ (y ∷ ys))

apply-writes_between :
    (xs : List OrderedArticle) (m : OrderedArticle) (ys : List OrderedArticle)
    → IsUnique (m ∷ ys)
    → apply_writes (writes_between xs m ys) (m ∷ ys) ≡ settled_between xs m ys
apply-writes_between xs m [] h = ground arith
apply-writes_between xs m (y ∷ ys) h =
    apply-cascade_writes true (last_position (negsuc 0) xs) (m ∷ (y ∷ ys)) h

pub apply-compute :
    (xs : List OrderedArticle) (m : OrderedArticle) (ys : List OrderedArticle)
    → IsUnique (xs ++ (m ∷ ys))
    → apply_writes (compute_position_writes (xs ++ (m ∷ ys)) m.id false) (xs ++ (m ∷ ys))
      ≡ xs ++ settled_between xs m ys
apply-compute xs m ys h =
    let (apart, unique) = IsUnique-prefix xs (m ∷ ys) h in
    rw (
      compute-writes_between xs m ys (Avoids-of_prefix m xs ys apart),
      apply_writes-append (writes_between xs m ys) xs (m ∷ ys),
      apply_writes_prefix (writes_between xs m ys) xs (All-NoWrite xs xs m ys apart),
      apply-writes_between xs m ys unique,
    )
