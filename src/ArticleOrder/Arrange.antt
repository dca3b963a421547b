-- ===== src/ArticleOrder/Arrange.antt =====
-- `arrangeDesiredOrder` of utils/article-order.ts, and its check by `isPlacedAsRequested`.
use zendesk_mcp_server.Base.{
  ℕ, zero, suc, ◌≤◌, ◌<◌, ◌≡◌, refl, sym, ap, ◌∙◌, inl, inr, Bool, true, false, Option, none, some,
  List, [], ◌∷◌, ◌++◌, arith, ltb, if◌then◌else◌, Bool-cases, Option-cases, length, take, drop,
  take-append-drop, ◌==◌, number_key, text_key, All, Result, ok, err,
}
use zendesk_mcp_server.ArticleOrder.{
  ReorderTarget, top, bottom, before, after, OrderedArticle, find_index, find, has_id, is_reference,
  ArrangeError, slot_of, insert_at, without_id, place_at, arrange_desired_order,
  is_placed_as_requested,
}

abbrev Fails : (OrderedArticle → Bool) → List OrderedArticle → Type 0
Fails p = All (λ a. p a ≡ false)

Fails-without_id : (k : ℕ) (xs : List OrderedArticle) → Fails (has_id k) (without_id k xs)
Fails-without_id k [] = tt
Fails-without_id k (x ∷ xs) = ground (arith, Fails-without_id k xs)

find_index-insert_at :
    (p : OrderedArticle → Bool) (slot : ℕ) (m : OrderedArticle) (xs : List OrderedArticle)
    → Fails p xs
    → p m ≡ true
    → slot ≤ length xs
    → find_index p (insert_at slot m xs) ≡ some slot
unfolding find_index
find_index-insert_at p zero m xs h hm le = rw hm
find_index-insert_at p (suc slot) m [] h hm le = absurd (omega arith)
find_index-insert_at p (suc slot) m (x ∷ xs) h hm le =
    rw (h.0, find_index-insert_at p slot m xs h.1 hm (omega arith))

-- The inserted article moves what it precedes one place to the right.
abbrev shifted : ℕ → ℕ → ℕ
shifted slot r = if ltb r slot then r else suc r

find_index-insert_at_ne :
    (p : OrderedArticle → Bool) (slot : ℕ) (m : OrderedArticle) (xs : List OrderedArticle) (r : ℕ)
    → p m ≡ false
    → slot ≤ length xs
    → find_index p xs ≡ some r
    → find_index p (insert_at slot m xs) ≡ some (shifted slot r)
unfolding find_index
find_index-insert_at_ne p zero m xs r hm le e = rw (hm, e) (ground arith)
find_index-insert_at_ne p (suc slot) m [] r hm le e = cc
find_index-insert_at_ne p (suc slot) m (x ∷ xs) r hm le e = elim (Bool-cases (p x)) [
  | inl here ↦ rw here (ground arith)
  | inr there ↦ elim (Option-cases (find_index p xs)) [
    | inl missing ↦ ground arith
    | inr (k, found) ↦
        rw (there, find_index-insert_at_ne p slot m xs k hm (omega arith) found) (ground arith)
  ]
]

find_index-Fails :
    (p : OrderedArticle → Bool) (xs : List OrderedArticle) → Fails p xs → find_index p xs ≡ none
unfolding find_index
find_index-Fails p [] h = refl
find_index-Fails p (x ∷ xs) h = rw (h.0, find_index-Fails p xs h.1)

find_index-lt-length :
    (p : OrderedArticle → Bool) (xs : List OrderedArticle) (r : ℕ)
    → find_index p xs ≡ some r
    → r < length xs
unfolding find_index
find_index-lt-length p [] r e = cc
find_index-lt-length p (x ∷ xs) r e = elim (Option-cases (find_index p xs)) [
  | inl missing ↦ ground arith
  | inr (k, found) ↦ ground (arith, find_index-lt-length p xs k)
]

find_holds :
    (p : OrderedArticle → Bool) (xs : List OrderedArticle) (m : OrderedArticle)
    → find p xs ≡ some m
    → p m ≡ true
unfolding find
find_holds p [] m e = cc
find_holds p (x ∷ xs) m e = elim (Bool-cases (p x)) [
  | inl here ↦ ground arith
  | inr there ↦ find_holds p xs m (rw there at e)
]

length-insert_at :
    (slot : ℕ) (m : OrderedArticle) (xs : List OrderedArticle)
    → length (insert_at slot m xs) ≡ suc (length xs)
length-insert_at zero m xs = refl
length-insert_at (suc slot) m [] = refl
length-insert_at (suc slot) m (x ∷ xs) = ap suc (length-insert_at slot m xs)

-- A reference found among the articles without the moved id is not the moved article.
reference-ne-moved :
    (reference : Option ℕ) (k : ℕ) (m : OrderedArticle) (xs : List OrderedArticle) (r : ℕ)
    → has_id k m ≡ true
    → Fails (has_id k) xs
    → find_index (is_reference reference) xs ≡ some r
    → is_reference reference m ≡ false
reference-ne-moved none k m xs r hm h e = refl
reference-ne-moved (some j) k m xs r hm h e = elim (Bool-cases (m.id == j)) [
  | inl same ↦
      let eq : k ≡ j = ground arith in cc (find_index-Fails (has_id k) xs h, rw (← eq) at e)
  | inr other ↦ other
]

module _ (k : ℕ) (m : OrderedArticle) (xs : List OrderedArticle) (hm : has_id k m ≡ true)
    (h : Fails (has_id k) xs) where
  found_at : (slot : ℕ) → slot ≤ length xs → find_index (has_id k) (insert_at slot m xs) ≡ some slot
  found_at slot = find_index-insert_at (has_id k) slot m xs h hm

  reference_at :
      (reference : Option ℕ) (r slot : ℕ)
      → find_index (is_reference reference) xs ≡ some r
      → slot ≤ length xs
      → find_index (is_reference reference) (insert_at slot m xs) ≡ some (shifted slot r)
  reference_at reference r slot e le =
      find_index-insert_at_ne (is_reference reference) slot m xs r
        (reference-ne-moved reference k m xs r hm h e) le e

  insert_at-IsPlaced :
      (target : ReorderTarget) (reference : Option ℕ) (slot : ℕ)
      → slot_of xs target reference ≡ ok slot
      → is_placed_as_requested (insert_at slot m xs) k target reference ≡ true
  unfolding is_placed_as_requested slot_of
  insert_at-IsPlaced top reference slot e = ground (arith, found_at slot)
  insert_at-IsPlaced bottom reference slot e =
      ground (arith, found_at slot, length-insert_at slot m xs)
  insert_at-IsPlaced before reference slot e =
      elim (Option-cases (find_index (is_reference reference) xs)) [
        | inl missing ↦ ground arith
        | inr (r, found) ↦ ground (
          arith,
          found_at slot,
          reference_at reference r slot,
          find_index-lt-length (is_reference reference) xs r,
        )
      ]
  insert_at-IsPlaced after reference slot e =
      elim (Option-cases (find_index (is_reference reference) xs)) [
        | inl missing ↦ ground arith
        | inr (r, found) ↦ ground (
          arith,
          found_at slot,
          reference_at reference r slot,
          find_index-lt-length (is_reference reference) xs r,
        )
      ]

place_at-eq-ok :
    (m : OrderedArticle) (rest d : List OrderedArticle) (s : Result ArrangeError ℕ)
    → place_at m rest s ≡ ok d
    → (slot : ℕ) × (s ≡ ok slot) × (insert_at slot m rest ≡ d)
place_at-eq-ok m rest d (ok slot) e = (slot, refl, cc)
place_at-eq-ok m rest d (err x) e = cc

-- What a successful arrangement is made of.
arranged :
    (effective : List OrderedArticle) (k : ℕ) (target : ReorderTarget) (reference : Option ℕ)
    (d : List OrderedArticle)
    → arrange_desired_order effective k target reference ≡ ok d
    → (m : OrderedArticle) × (find (has_id k) effective ≡ some m)
      × (slot : ℕ) × (slot_of (without_id k effective) target reference ≡ ok slot)
      × (insert_at slot m (without_id k effective) ≡ d)
unfolding arrange_desired_order
arranged effective k target reference d e = elim (Option-cases (find (has_id k) effective)) [
  | inl missing ↦ absurd (ground arith)
  | inr (m, found) ↦
      let (slot, at, eq) =
        place_at-eq-ok m (without_id k effective) d
          (slot_of (without_id k effective) target reference) (rw found at e) in
      (m, found, slot, at, eq)
]

-- Whenever `arrangeDesiredOrder` returns an order, `isPlacedAsRequested` accepts that order for the
-- same article, target and reference.
pub arrange-IsPlaced :
    (effective : List OrderedArticle) (moved_id : ℕ) (target : ReorderTarget) (reference : Option ℕ)
    (desired : List OrderedArticle)
    → arrange_desired_order effective moved_id target reference ≡ ok desired
    → is_placed_as_requested desired moved_id target reference ≡ true
arrange-IsPlaced effective k target reference d e =
    let (m, found, slot, at, eq) = arranged effective k target reference d e in
    rw (← eq) (
      insert_at-IsPlaced k m (without_id k effective) (find_holds (has_id k) effective m found)
        (Fails-without_id k effective) target reference slot at)

without_id-append :
    (k : ℕ) (xs ys : List OrderedArticle)
    → without_id k (xs ++ ys) ≡ without_id k xs ++ without_id k ys
without_id-append k [] ys = refl
without_id-append k (x ∷ xs) ys = ground (arith, without_id-append k xs ys)

without_id_of_Fails :
    (k : ℕ) (xs : List OrderedArticle) → Fails (has_id k) xs → without_id k xs ≡ xs
without_id_of_Fails k [] h = refl
without_id_of_Fails k (x ∷ xs) h = rw (h.0, without_id_of_Fails k xs h.1)

without_id-insert_at :
    (k slot : ℕ) (m : OrderedArticle) (xs : List OrderedArticle)
    → has_id k m ≡ true
    → without_id k (insert_at slot m xs) ≡ without_id k xs
without_id-insert_at k slot m xs hm =
    rw (without_id-append k (take slot xs) (m ∷ drop slot xs), hm)
      (sym (without_id-append k (take slot xs) (drop slot xs))
        ∙ ap (without_id k) (take-append-drop slot xs))

-- A successful arrangement moves one article only: the others keep their order and their
-- positions, and the result has one article more than those.
pub arrange-keeps_others :
    (effective : List OrderedArticle) (moved_id : ℕ) (target : ReorderTarget) (reference : Option ℕ)
    (desired : List OrderedArticle)
    → arrange_desired_order effective moved_id target reference ≡ ok desired
    → (without_id moved_id desired ≡ without_id moved_id effective)
      × (length desired ≡ suc (length (without_id moved_id effective)))
arrange-keeps_others effective k target reference d e =
    let (m, found, slot, at, eq) = arranged effective k target reference d e in
    (
      rw (← eq) (
          without_id-insert_at k slot m (without_id k effective)
            (find_holds (has_id k) effective m found)
          ∙ without_id_of_Fails k (without_id k effective) (Fails-without_id k effective)),
      rw (← eq) (length-insert_at slot m (without_id k effective)),
    )
