-- ===== src/Domain/Pages.antt =====
-- What the pages of `list_active` hold, taken together.
use mathlib.Core.List.{append-nil}
use tech_atlas.Prelude.{
  ℕ, ◌≡◌, refl, sym, subst, ◌∙◌, ◌+◌, ◌-◌, ◌^◌, ◌≤◌, ◌<◌, true, false, Option, none, some, List, [],
  ◌∷◌, ◌++◌, leb, ltb, filter, take, length, get_elem?, All, inl, inr, ok, ◌⊎◌, arith,
}
use tech_atlas.Prelude.Text.{Text}
use tech_atlas.Crawler.Url.{Url}
use tech_atlas.Domain.Canonical.{parse_canonical}
use tech_atlas.Domain.Listing.{
  ManagedDomain, DomainListPage, is_after, is_active, row_before, active_rows, row_to_domain,
  rows_to_domains, select_active, page_of, list_active,
}
use tech_atlas.Domain.Order.{IsApart, IsStrict, All-middle}
use tech_atlas.Domain.Rows.{
  same_domain, active_rows-IsStrict, active_rows-filter, active_rows-All, active_rows-canonical,
  rows_after,
}
use tech_atlas.Scheduler.Tables.{DomainRow}

abbrev pub listed_domain : DomainRow → ManagedDomain
listed_domain row = record { id = row.id; canonical_domain = row.canonical_domain }

abbrev pub listed_domains : List DomainRow → List ManagedDomain
listed_domains [] = []
listed_domains (row ∷ rest) = listed_domain row ∷ listed_domains rest

-- What a request with this cursor still has to answer.
abbrev pub remaining : List DomainRow → Option Text → List ManagedDomain
remaining rows none = []
remaining rows (some cursor) = listed_domains (active_rows (some cursor) rows)

rows_to_domains-take :
    (parse_url : Text → Option Url) (n : ℕ) (rows : List DomainRow)
    → All (λ row. parse_canonical parse_url row.canonical_domain ≡ ok row.canonical_domain) rows
    → rows_to_domains parse_url (take n rows) ≡ ok (take n (listed_domains rows))
unfolding rows_to_domains row_to_domain
rows_to_domains-take parse_url ℕ.zero rows stored = refl
rows_to_domains-take parse_url (ℕ.suc n) [] stored = refl
rows_to_domains-take parse_url (ℕ.suc n) (row ∷ rest) stored =
    rw (stored.0, rows_to_domains-take parse_url n rest stored.1) refl

-- What is fetched for a page either is all there is, or goes on past the page's last row.
IsSplit : ℕ → List DomainRow → List ManagedDomain → Type 0
IsSplit n rows found =
    ((found ≡ listed_domains rows)
      × (take (ℕ.suc n) found ≡ found)
      × (ltb (ℕ.suc n) (length found) ≡ false))
    ⊎ ((before : List DomainRow) × (x : DomainRow) × (later : List DomainRow) × (rows
          ≡ before ++ (x ∷ later))
        × (take (ℕ.suc n) found ≡ listed_domains (before ++ (x ∷ [])))
        × (ltb (ℕ.suc n) (length found) ≡ true)
        × (get_elem? found n ≡ some (listed_domain x)))

fetched-IsSplit :
    (n : ℕ) (rows : List DomainRow) → IsSplit n rows (take (ℕ.suc (ℕ.suc n)) (listed_domains rows))
unfolding IsSplit
fetched-IsSplit n [] = inl (refl, refl, ground arith)
fetched-IsSplit ℕ.zero (row ∷ []) = inl (refl, refl, ground arith)
fetched-IsSplit ℕ.zero (row ∷ next ∷ rest) =
    inr ([], row, next ∷ rest, refl, refl, ground arith, refl)
fetched-IsSplit (ℕ.suc n) (row ∷ rest) = elim (fetched-IsSplit n rest) [
  | inl (found, whole, short) ↦ inl (rw found refl, rw whole refl, ground (arith, short))
  | inr (before, x, later, split, page, long, last) ↦
      inr (row ∷ before, x, later, rw split refl, rw page refl, ground (arith, long), last)
]

listed_domains-append :
    (before : List DomainRow) (x : DomainRow) (later : List DomainRow)
    → listed_domains (before ++ (x ∷ later))
      ≡ listed_domains (before ++ (x ∷ [])) ++ listed_domains later
listed_domains-append [] x later = refl
listed_domains-append (y ∷ before) x later = rw (listed_domains-append before x later) refl

-- The page of `limit` and what its cursor leaves.
page_of-remaining :
    (after : Option Text) (n : ℕ) (rows : List DomainRow) (found : List ManagedDomain)
    → IsApart same_domain (filter is_active rows)
    → IsSplit n (active_rows after rows) found
    → (page_of (ℕ.suc n) found).domains ++ remaining rows (page_of (ℕ.suc n) found).next_cursor
      ≡ listed_domains (active_rows after rows)
unfolding IsSplit page_of
page_of-remaining after n rows found apart (inl (found_eq, whole, short)) =
    rw (short, whole, found_eq) (append-nil (listed_domains (active_rows after rows)))
page_of-remaining after n rows found apart (inr (before, x, later, split, page, long, last)) =
    let strict : IsStrict row_before (before ++ (x ∷ later)) =
      subst (IsStrict row_before) split (active_rows-IsStrict after rows apart) in
    let listed : is_after after x.canonical_domain ≡ true =
      All-middle (λ row. is_after after row.canonical_domain ≡ true) before x later
        (subst (All (λ row. is_after after row.canonical_domain ≡ true)) split
          (active_rows-All after rows)) in
    let rest : active_rows (some x.canonical_domain) rows ≡ later =
      sym (active_rows-filter after x.canonical_domain rows listed)
      ∙ (rw split (rows_after before x later strict)) in
    let same : ℕ.suc n - 1 ≡ n = omega arith in
    rw (long, same, last, page, rest, split) (sym (listed_domains-append before x later))

-- A page of active domains, followed by what its cursor asks for, is the whole listing after the
-- cursor it was asked with, when the limit is at least 1 and at most 2^63 - 2, the names of the
-- active domains differ and every stored name is canonical: under these conditions no domain is
-- skipped or repeated from page to page.
pub list_active-remaining :
    (parse_url : Text → Option Url) (after : Option Text) (limit : ℕ) (rows : List DomainRow)
    → All (λ row. parse_canonical parse_url row.canonical_domain ≡ ok row.canonical_domain) rows
    → IsApart same_domain (filter is_active rows)
    → 1 ≤ limit
    → limit + 1 < 2 ^ 63
    → (page : DomainListPage) × (list_active parse_url after limit rows ≡ ok page)
      × (page.domains ++ remaining rows page.next_cursor ≡ listed_domains (active_rows after rows))
unfolding list_active select_active
list_active-remaining parse_url after ℕ.zero rows stored apart some_limit bounded =
    absurd (omega (arith, some_limit))
list_active-remaining parse_url after (ℕ.suc n) rows stored apart some_limit bounded =
    let found = take (ℕ.suc (ℕ.suc n)) (listed_domains (active_rows after rows)) in
    let plus : ℕ.suc n + 1 ≡ ℕ.suc (ℕ.suc n) = omega arith in
    let fits : leb (2 ^ 64) (ℕ.suc (ℕ.suc n)) ≡ false = ground (arith, bounded) in
    let small : leb (2 ^ 63) (ℕ.suc (ℕ.suc n)) ≡ false = ground (arith, bounded) in
    (
      page_of (ℕ.suc n) found,
      rw
          (
            plus,
            fits,
            small,
            rows_to_domains-take parse_url (ℕ.suc (ℕ.suc n)) (active_rows after rows)
                (active_rows-canonical parse_url after rows stored),
          )
          refl,
      page_of-remaining after n rows found apart (fetched-IsSplit n (active_rows after rows)),
    )
