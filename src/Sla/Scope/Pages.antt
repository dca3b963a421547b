-- ===== src/Sla/Scope/Pages.antt =====
-- The pages that utils/sla-scope.ts reads of a listing.
use zendesk_mcp_server.Base.{
  ℕ, zero, suc, ◌+◌, ◌-◌, ◌≤◌, ◌<◌, ◌≡◌, refl, sym, ap, ◌∙◌, inl, inr, true, false, Option, none,
  some, List, [], ◌∷◌, ◌++◌, map, arith, ltb, if◌then◌else◌, Bool-cases, length, take, drop,
  length-append, ◌==◌, number_key, text_key, All, Result, ok,
}
use zendesk_mcp_server.Sla.Scope.{
  ZendeskTicket, to_alert_ticket, OffsetPage, is_filled, Walk, after_page, walk_pages,
  snapshot_read, read_pages,
}

abbrev pub concat : List (List ZendeskTicket) → List ZendeskTicket
concat [] = []
concat (page ∷ pages) = page ++ concat pages

-- A listing of so many tickets as the API serves it, from the page asked for on: `next_page` is set
-- but on the last page, and a page past the end is empty.
abbrev pub page_at : ℕ → List (List ZendeskTicket) → OffsetPage
page_at total [] = record { tickets = []; count = some total; next_page = false }
page_at total (page ∷ []) = record { tickets = page; count = some total; next_page = false }
page_at total (page ∷ next ∷ pages) = record {
  tickets = page;
  count = some total;
  next_page = true;
}

unfoldable pub served {ℓ} : {E : Type ℓ} → ℕ → List (List ZendeskTicket) → ℕ → Result E OffsetPage
served total pages page = ok (page_at total (drop (page - 1) pages))

abbrev pub requests_for : ℕ → ℕ → ℕ
requests_for left pages = if pages == 0 then 1 else if ltb pages left then pages else left

abbrev AllFilled : List (List ZendeskTicket) → Type 0
AllFilled = All (λ page. is_filled page ≡ true)

drop-suc :
    (n : ℕ) (xs : List (List ZendeskTicket)) (x : List ZendeskTicket)
    (rest : List (List ZendeskTicket))
    → drop n xs ≡ x ∷ rest
    → drop (suc n) xs ≡ rest
drop-suc zero [] x rest h = absurd (cc)
drop-suc zero (y ∷ ys) x rest h = cc
drop-suc (suc n) [] x rest h = absurd (cc)
drop-suc (suc n) (y ∷ ys) x rest h = drop-suc n ys x rest h

append_nil : {A : Type 0} (xs : List A) → xs ++ [] ≡ xs
append_nil [] = refl
append_nil (x ∷ xs) = rw (append_nil xs)

next_drop :
    (all : List (List ZendeskTicket)) (page : ℕ) (p : List ZendeskTicket)
    (rest : List (List ZendeskTicket))
    → 1 ≤ page
    → drop (page - 1) all ≡ p ∷ rest
    → drop (page + 1 - 1) all ≡ rest
next_drop all page p rest pos at =
    let e : page + 1 - 1 ≡ suc (page - 1) = omega arith in
    ap (λ n. drop n all) e ∙ drop-suc (page - 1) all p rest at

module _ {E : Type 0} (all : List (List ZendeskTicket)) (count : ℕ) where
  -- what is read with so many pages left under the cap, from the rest of the listing
  walked : ℕ → List (List ZendeskTicket) → ℕ × Result E Walk
  walked left rest = (
    requests_for left (length rest),
    ok (record {
      tickets = concat (take left rest);
      total = some count;
      more = ltb left (length rest);
    }),
  )

  served_at :
      (page : ℕ) (rest : List (List ZendeskTicket))
      → drop (page - 1) all ≡ rest
      → served {E = E} count all page ≡ ok (page_at count rest)
  unfolding served
  served_at page rest at = ap (λ r. ok (page_at count r)) at

  walk_step :
      (fetch_page : ℕ → Result E OffsetPage) (left page : ℕ) (total : Option ℕ)
      → walk_pages fetch_page (suc left) page total
        ≡ after_page (walk_pages fetch_page left (page + 1)) total (fetch_page page)
  unfolding walk_pages
  walk_step fetch_page left page total = refl

  walk_none :
      (fetch_page : ℕ → Result E OffsetPage) (page : ℕ) (total : Option ℕ)
      → walk_pages fetch_page 0 page total
        ≡ (0, ok (record { tickets = []; total = total; more = true }))
  unfolding walk_pages
  walk_none fetch_page page total = refl

  -- one page read of the listing
  read_one :
      (left page : ℕ) (total : Option ℕ) (rest : List (List ZendeskTicket))
      → drop (page - 1) all ≡ rest
      → walk_pages (served {E = E} count all) (suc left) page total
        ≡ after_page (walk_pages (served count all) left (page + 1)) total (ok (page_at count rest))
  read_one left page total rest at =
      walk_step (served count all) left page total
      ∙ ap (after_page (walk_pages (served count all) left (page + 1)) total)
          (served_at page rest at)

  walk_rest :
      (left page : ℕ) (total : Option ℕ) (rest : List (List ZendeskTicket))
      → 1 ≤ page
      → drop (page - 1) all ≡ rest
      → AllFilled rest
      → 0 < left
      → walk_pages (served {E = E} count all) left page total ≡ walked left rest
  unfolding walked
  walk_rest zero page total rest pos at filled some_left = absurd (omega arith)
  walk_rest (suc left) page total [] pos at filled some_left =
      read_one left page total [] at ∙ ground arith
  walk_rest (suc zero) page total (p ∷ []) pos at filled some_left =
      read_one 0 page total (p ∷ []) at ∙ ground (arith, append_nil p)
  walk_rest (suc (suc left)) page total (p ∷ []) pos at filled some_left =
      read_one (suc left) page total (p ∷ []) at ∙ ground (arith, append_nil p)
  walk_rest (suc zero) page total (p ∷ q ∷ rest) pos at filled some_left =
      read_one 0 page total (p ∷ q ∷ rest) at
      ∙ rw (filled.0, walk_none (served count all) (page + 1) (some count))
          (ground (arith, append_nil p))
  walk_rest (suc (suc left)) page total (p ∷ q ∷ rest) pos at filled some_left =
      read_one (suc left) page total (p ∷ q ∷ rest) at
      ∙ rw
          (
            filled.0,
            walk_rest (suc left) (page + 1) (some count) (q ∷ rest) (omega arith)
                (next_drop all page p (q ∷ rest) pos at) filled.1 (omega arith),
          )
          (ground arith)

take_and_drop :
    (n : ℕ) (pages : List (List ZendeskTicket))
    → length (concat (take n pages)) + length (concat (drop n pages)) ≡ length (concat pages)
take_and_drop zero pages = omega arith
take_and_drop (suc n) [] = refl
take_and_drop (suc n) (p ∷ pages) = omega (
  arith,
  take_and_drop n pages,
  length-append p (concat (take n pages)),
  length-append p (concat pages),
)

nothing_dropped :
    (n : ℕ) (pages : List (List ZendeskTicket))
    → ltb n (length pages) ≡ false
    → length (concat (drop n pages)) ≡ 0
nothing_dropped zero [] h = refl
nothing_dropped zero (p ∷ pages) h = absurd (ground arith)
nothing_dropped (suc n) [] h = refl
nothing_dropped (suc n) (p ∷ pages) h = nothing_dropped n pages (ground arith)

unread_tickets :
    (n : ℕ) (pages : List (List ZendeskTicket))
    → (if ltb n (length pages) then length (concat pages) - length (concat (take n pages)) else 0)
      ≡ length (concat (drop n pages))
unread_tickets n pages = elim (Bool-cases (ltb n (length pages))) [
  | inl more ↦ rw more (omega (arith, take_and_drop n pages))
  | inr whole ↦ rw whole (sym (nothing_dropped n pages whole))
]

-- What a check reads of a listing whose pages hold tickets, and where Zendesk counts them: the first
-- five pages in order, with one request for each page and never more than five; the snapshot says
-- whether tickets were left unread, and how many.
pub read_pages-served :
    {E : Type 0} (pages : List (List ZendeskTicket))
    → AllFilled pages
    → read_pages {E = E} (served (length (concat pages)) pages) ≡ (
      requests_for 5 (length pages),
      ok (record {
        tickets = map to_alert_ticket (concat (take 5 pages));
        truncated = ltb 5 (length pages);
        unread = length (concat (drop 5 pages));
      }),
    )
unfolding read_pages walked
read_pages-served {E} pages filled =
    let count = length (concat pages) in
    ap snapshot_read
      (walk_rest {E = E} pages count 5 1 none pages (omega arith) refl filled (omega arith))
    ∙ ap
        (λ n. (
          requests_for 5 (length pages),
          ok (record {
            tickets = map to_alert_ticket (concat (take 5 pages));
            truncated = ltb 5 (length pages);
            unread = n;
          }),
        ))
        (unread_tickets 5 pages)
