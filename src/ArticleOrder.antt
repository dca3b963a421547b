-- ===== src/ArticleOrder.antt =====
-- utils/article-order.ts: the ordering logic of reorder_article, over ids and integer positions.
pub mod Arrange
pub mod Applied
pub mod Normalize
pub mod Cascade
pub mod Placement
pub mod Settled
mod Tests
use zendesk_mcp_server.Base.{
  ℕ, zero, suc, ◌+◌, Bool, true, false, not, ◌&&◌, ◌||◌, Option, none, some, List, [], ◌∷◌, ◌++◌,
  map, ltb, if◌then◌else◌, length, get_elem?, take, drop, keep, ◌==◌, number_key, text_key, Result,
  ok, err,
}
use mathlib.Core.Option
use zendesk_mcp_server.Base.Int.{ℤ, pos, negsuc, ◌+ℤ◌, ltb_ℤ, beq_ℤ}

pub data ReorderTarget : Type 0 where
  top bottom before after : ReorderTarget

pub record OrderedArticle : Type 0 where
  pub id : ℕ
  pub position : ℤ

pub record ReorderWrite : Type 0 where
  pub id : ℕ
  pub position : ℤ

-- the loop over neighbours
unfoldable pub has_position_inversion : List OrderedArticle → Bool
has_position_inversion [] = false
has_position_inversion (here ∷ []) = false
has_position_inversion (here ∷ next ∷ order) =
    ltb_ℤ next.position here.position || has_position_inversion (next ∷ order)

-- `findIndex`; -1 is `none`
unfoldable pub find_index : (OrderedArticle → Bool) → List OrderedArticle → Option ℕ
find_index p [] = none
find_index p (a ∷ order) =
    let rest = Option.map suc (find_index p order) in if p a then some 0 else rest

-- `find`
unfoldable pub find : (OrderedArticle → Bool) → List OrderedArticle → Option OrderedArticle
find p [] = none
find p (a ∷ order) = if p a then some a else find p order

abbrev pub has_id : ℕ → OrderedArticle → Bool
has_id k a = a.id == k

-- an optional id that is absent equals no article's
abbrev pub is_reference : Option ℕ → OrderedArticle → Bool
is_reference none a = false
is_reference (some k) a = a.id == k

-- the two errors that `arrangeDesiredOrder` throws
pub data ArrangeError : Type 0 where
  article_missing : ℕ → ArrangeError
  reference_missing : Option ℕ → ArrangeError

abbrev pub at_reference : (ℕ → ℕ) → Option ℕ → Option ℕ → Result ArrangeError ℕ
at_reference place reference none = err (reference_missing reference)
at_reference place reference (some index) = ok (place index)

unfoldable pub slot_of : List OrderedArticle → ReorderTarget → Option ℕ → Result ArrangeError ℕ
unfolding find_index
slot_of rest top reference = ok 0
slot_of rest bottom reference = ok (length rest)
slot_of rest before reference =
    at_reference (λ index. index) reference (find_index (is_reference reference) rest)
slot_of rest after reference =
    at_reference (λ index. index + 1) reference (find_index (is_reference reference) rest)

abbrev pub insert_at : ℕ → OrderedArticle → List OrderedArticle → List OrderedArticle
insert_at slot moved rest = take slot rest ++ (moved ∷ drop slot rest)

abbrev pub without_id : ℕ → List OrderedArticle → List OrderedArticle
without_id k = keep (λ a. not (has_id k a))

abbrev pub place_at :
    OrderedArticle
    → List OrderedArticle
    → Result ArrangeError ℕ
    → Result ArrangeError (List OrderedArticle)
place_at moved rest (ok slot) = ok (insert_at slot moved rest)
place_at moved rest (err e) = err e

abbrev pub arrange_moved :
    List OrderedArticle
    → ℕ
    → ReorderTarget
    → Option ℕ
    → Option OrderedArticle
    → Result ArrangeError (List OrderedArticle)
arrange_moved effective moved_id target reference none = err (article_missing moved_id)
arrange_moved effective moved_id target reference (some moved) =
    place_at moved (without_id moved_id effective)
      (slot_of (without_id moved_id effective) target reference)

unfoldable pub arrange_desired_order :
    List OrderedArticle → ℕ → ReorderTarget → Option ℕ → Result ArrangeError (List OrderedArticle)
unfolding find slot_of
arrange_desired_order effective moved_id target reference =
    arrange_moved effective moved_id target reference (find (has_id moved_id) effective)

-- `normalize`: position `index` for the article at `index`, written where it differs
unfoldable pub normalize_writes : ℕ → List OrderedArticle → List ReorderWrite
normalize_writes index [] = []
normalize_writes index (a ∷ desired) =
    let rest = normalize_writes (index + 1) desired in
    if beq_ℤ a.position (pos index)
    then rest
    else (record { id = a.id; position = pos index }) ∷ rest

abbrev pub max_ℤ : ℤ → ℤ → ℤ
max_ℤ a b = if ltb_ℤ a b then b else a

unfoldable pub max_position : ℤ → List OrderedArticle → ℤ
max_position best [] = best
max_position best (a ∷ others) = max_position (max_ℤ best a.position) others

-- the loop to the right of the moved article, which is the first of the list
unfoldable pub cascade_writes : Bool → ℤ → List OrderedArticle → List ReorderWrite
cascade_writes first running [] = []
cascade_writes first running (a ∷ order) =
    let target = running +ℤ pos 1 in
    let rest = cascade_writes false target order in
    if not first && ltb_ℤ running a.position
    then []
    else if beq_ℤ a.position target
    then rest
    else (record { id = a.id; position = target }) ∷ rest

abbrev pub running_from : Option OrderedArticle → ℤ
running_from none = negsuc 0
running_from (some left) = left.position

-- `desired[index - 1]`
abbrev pub left_of : List OrderedArticle → ℕ → Option OrderedArticle
left_of desired zero = none
left_of desired (suc index) = get_elem? desired index

abbrev pub write_bottom : OrderedArticle → ℤ → List ReorderWrite
write_bottom moved max_others =
    if ltb_ℤ max_others moved.position
    then []
    else (record { id = moved.id; position = max_others +ℤ pos 1 }) ∷ []

abbrev pub writes_at : List OrderedArticle → ℕ → Option OrderedArticle → List ReorderWrite
writes_at desired index none = []
writes_at desired index (some moved) =
    if index + 1 == length desired
    then write_bottom moved (max_position (negsuc 0) (take index desired))
    else cascade_writes true (running_from (left_of desired index)) (drop index desired)

abbrev pub writes_from : List OrderedArticle → Option ℕ → List ReorderWrite
writes_from desired none = []
writes_from desired (some index) = writes_at desired index (get_elem? desired index)

unfoldable pub compute_position_writes : List OrderedArticle → ℕ → Bool → List ReorderWrite
unfolding find_index normalize_writes max_position cascade_writes
compute_position_writes desired moved_id normalize =
    if normalize
    then normalize_writes 0 desired
    else writes_from desired (find_index (has_id moved_id) desired)

abbrev pub is_placed_at : List OrderedArticle → ReorderTarget → Option ℕ → ℕ → Bool
is_placed_at order top reference index = index == 0
is_placed_at order bottom reference index = index + 1 == length order
is_placed_at order before reference index = elim (find_index (is_reference reference) order) [
  | none ↦ false
  | some r ↦ ltb index r
]
is_placed_at order after reference index = elim (find_index (is_reference reference) order) [
  | none ↦ false
  | some r ↦ ltb r index
]

unfoldable pub is_placed_as_requested : List OrderedArticle → ℕ → ReorderTarget → Option ℕ → Bool
unfolding find_index
is_placed_as_requested effective_after moved_id target reference =
    elim (find_index (has_id moved_id) effective_after) [
      | none ↦ false
      | some index ↦ is_placed_at effective_after target reference index
    ]
