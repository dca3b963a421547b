-- ===== src/Pagination.antt =====
-- utils/pagination.ts: the parameters of a page, what a response says of the next one, and how a
-- cut response is resumed. Numbers are natural; a page counts from 1, as the tools' schemas demand.
mod Tests
use zendesk_mcp_server.Base.{
  ℕ, ◌+◌, ◌-◌, ◌*◌, ◌/◌, ◌%◌, ◌≤◌, ◌<◌, String, ◌≡◌, Bool, true, false, Option, none, some, List,
  [], ◌∷◌, arith, ltb, if◌then◌else◌, number_key, text_key,
}
use zendesk_mcp_server.Text.Decimal.{decimal}

pub record CursorMeta : Type 0 where
  pub has_more : Bool
  pub after_cursor : Option (List ℕ)

pub record ZendeskListResponse : Type 0 where
  pub meta : Option CursorMeta
  pub next_page : Option (List ℕ)
  pub count : Option ℕ

pub record PaginationMeta : Type 0 where
  pub has_more : Bool
  pub after_cursor : Option (List ℕ)
  pub count : ℕ
  pub next_page : Option ℕ

abbrev pub with_cursor : Option (List ℕ) → List (String × List ℕ)
with_cursor none = []
with_cursor (some []) = []
with_cursor (some (c ∷ cursor)) = ("page[after]", c ∷ cursor) ∷ []

unfoldable pub build_cursor_params : ℕ → Option (List ℕ) → List (String × List ℕ)
unfolding decimal
build_cursor_params page_size cursor = ("page[size]", decimal page_size) ∷ with_cursor cursor

abbrev pub with_page : Option ℕ → List (String × List ℕ)
with_page none = []
with_page (some page) = if ltb 1 page then ("page", decimal page) ∷ [] else []

unfoldable pub build_offset_params : ℕ → Option ℕ → List (String × List ℕ)
unfolding decimal
build_offset_params per_page page = ("per_page", decimal per_page) ∷ with_page page

-- `a ?? b`
abbrev pub or_default {ℓ} : {A : Type ℓ} → Option A → A → A
or_default none a = a
or_default (some b) a = b

abbrev pub is_given {ℓ} : {A : Type ℓ} → Option A → Bool
is_given none = false
is_given (some a) = true

abbrev pub meta_has_more : Option CursorMeta → Bool → Bool
meta_has_more none next = next
meta_has_more (some meta) next = meta.has_more

abbrev pub meta_cursor : Option CursorMeta → Option (List ℕ)
meta_cursor none = none
meta_cursor (some meta) = meta.after_cursor

unfoldable pub extract_pagination_meta : ZendeskListResponse → ℕ → PaginationMeta
extract_pagination_meta response item_count = record {
  has_more = meta_has_more response.meta (is_given response.next_page);
  after_cursor = meta_cursor response.meta;
  count = or_default response.count item_count;
  next_page = none;
}

unfoldable pub extract_search_pagination_meta : ZendeskListResponse → ℕ → ℕ → PaginationMeta
extract_search_pagination_meta response per_page page =
    let count = or_default response.count 0 in
    let has_more = ltb (page * per_page) count in
    record {
      has_more = has_more;
      after_cursor = none;
      count = count;
      next_page = if has_more then some (page + 1) else none;
    }

unfoldable pub extract_offset_pagination_meta : ZendeskListResponse → ℕ → ℕ → ℕ → PaginationMeta
unfolding extract_search_pagination_meta
extract_offset_pagination_meta response item_count per_page page =
    if is_given response.count
    then extract_search_pagination_meta response per_page page
    else record { has_more = false; after_cursor = none; count = item_count; next_page = none }

-- what the sentence of `offsetResume` tells the caller to ask for
pub record Resume : Type 0 where
  pub per_page : ℕ
  pub page : ℕ
  pub repeated : ℕ

unfoldable pub offset_resume : ℕ → ℕ → ℕ → Resume
offset_resume page per_page shown =
    let offset = (page - 1) * per_page + shown in
    record { per_page = shown; page = offset / shown + 1; repeated = offset % shown }

quotient_and_rest :
    (offset shown : ℕ)
    → 0 < shown
    → ((offset / shown + 1 - 1) * shown + offset % shown ≡ offset) × (offset % shown < shown)
quotient_and_rest offset shown some_shown =
    let same : offset / shown + 1 - 1 ≡ offset / shown = omega arith in
    (rw same (omega arith), omega arith)

-- Where a response on page `page` of `per_page` results was cut after `shown` of them, at least
-- one, the call that it names for resuming starts at or before the first result not shown: the
-- results before it in that page are the ones said to repeat, and are fewer than a page.
pub offset_resume_contiguous :
    (page per_page shown : ℕ)
    → 1 ≤ page
    → 0 < shown
    → let r = offset_resume page per_page shown in
      ((r.page - 1) * r.per_page + r.repeated ≡ (page - 1) * per_page + shown)
      × (r.repeated < r.per_page)
unfolding offset_resume
offset_resume_contiguous page per_page shown first some_shown =
    quotient_and_rest ((page - 1) * per_page + shown) shown some_shown
