-- ===== src/Domain/Rows.antt =====
-- The rows of active domains in the order of their names, and what a cursor leaves of them.
use tech_atlas.Prelude.{
  ◌≡◌, refl, subst, ◌∙◌, Bool, true, false, ◌&&◌, Option, none, some, List, ◌∷◌, ◌++◌, filter, All,
  ok, arith,
}
use tech_atlas.Prelude.Text.{Text, eq_text}
use tech_atlas.Prelude.Text.Order.{text_before_total, text_before_trans, text_before_antisymm}
use tech_atlas.Prelude.Sort.{All-filter, All-sort_by, filter-All}
use tech_atlas.Crawler.Url.{Url}
use tech_atlas.Domain.Canonical.{parse_canonical}
use tech_atlas.Domain.Listing.{is_after, is_active, row_before, active_rows}
use tech_atlas.Domain.Order.{
  filter-filter, filter-cong, filter-sort_by, IsApart, IsApart-filter, IsStrict, filter-IsStrict,
  sort_by-IsStrict,
}
use tech_atlas.Scheduler.Tables.{DomainRow}

abbrev pub same_domain : DomainRow → DomainRow → Bool
same_domain a b = eq_text a.canonical_domain b.canonical_domain

row_before_total : (x y : DomainRow) → row_before x y ≡ false → row_before y x ≡ true
unfolding row_before
row_before_total x y h = text_before_total x.canonical_domain y.canonical_domain h

row_before_trans :
    (x y z : DomainRow) → row_before x y ≡ true → row_before y z ≡ true → row_before x z ≡ true
unfolding row_before
row_before_trans x y z h k =
    text_before_trans x.canonical_domain y.canonical_domain z.canonical_domain h k

row_before_antisymm :
    (x y : DomainRow) → row_before x y ≡ true → row_before y x ≡ true → same_domain x y ≡ true
unfolding row_before
row_before_antisymm x y h k = text_before_antisymm x.canonical_domain y.canonical_domain h k

-- A later cursor implies the earlier one.
is_after_trans :
    (after : Option Text) (c name : Text)
    → is_after after c ≡ true
    → is_after (some c) name ≡ true
    → is_after after name ≡ true
unfolding is_after
is_after_trans none c name h k = refl
is_after_trans (some a) c name h k =
    ground (arith, h, k, text_before_total name c, text_before_trans c name a)

pub active_rows-IsStrict :
    (after : Option Text) (rows : List DomainRow)
    → IsApart same_domain (filter is_active rows)
    → IsStrict row_before (active_rows after rows)
unfolding active_rows
active_rows-IsStrict after rows apart =
    sort_by-IsStrict row_before row_before_total row_before_trans same_domain row_before_antisymm
      (filter (λ row. is_active row && is_after after row.canonical_domain) rows)
      (subst (IsApart same_domain)
        (filter-filter is_active (λ row. is_after after row.canonical_domain) rows)
        (IsApart-filter same_domain (λ row. is_after after row.canonical_domain)
          (filter is_active rows) apart))

-- Asking from a listed name is dropping, from the listing, what is not after it.
pub active_rows-filter :
    (after : Option Text) (c : Text) (rows : List DomainRow)
    → is_after after c ≡ true
    → filter (λ row. is_after (some c) row.canonical_domain) (active_rows after rows)
      ≡ active_rows (some c) rows
unfolding active_rows
active_rows-filter after c rows listed =
    filter-sort_by row_before row_before_total row_before_trans
      (λ row. is_after (some c) row.canonical_domain)
      (filter (λ row. is_active row && is_after after row.canonical_domain) rows)
    ∙ (rw
        (
          filter-filter (λ row. is_active row && is_after after row.canonical_domain)
              (λ row. is_after (some c) row.canonical_domain) rows,
          filter-cong
              (λ row.
                (is_active row && is_after after row.canonical_domain)
                && is_after (some c) row.canonical_domain)
              (λ row. is_active row && is_after (some c) row.canonical_domain) rows
              (λ row. ground (arith, is_after_trans after c row.canonical_domain listed)),
        )
        refl)

pub active_rows-All :
    (after : Option Text) (rows : List DomainRow)
    → All (λ row. is_after after row.canonical_domain ≡ true) (active_rows after rows)
unfolding active_rows
active_rows-All after rows =
    All-sort_by row_before (λ row. is_after after row.canonical_domain ≡ true)
      (filter (λ row. is_active row && is_after after row.canonical_domain) rows)
      (subst (All (λ row. is_after after row.canonical_domain ≡ true))
        (filter-filter is_active (λ row. is_after after row.canonical_domain) rows)
        (filter-All (λ row. is_after after row.canonical_domain) (filter is_active rows)))

pub active_rows-canonical :
    (parse_url : Text → Option Url) (after : Option Text) (rows : List DomainRow)
    → All (λ row. parse_canonical parse_url row.canonical_domain ≡ ok row.canonical_domain) rows
    → All
        (λ row. parse_canonical parse_url row.canonical_domain ≡ ok row.canonical_domain)
        (active_rows after rows)
unfolding active_rows
active_rows-canonical parse_url after rows stored =
    All-sort_by row_before
      (λ row. parse_canonical parse_url row.canonical_domain ≡ ok row.canonical_domain)
      (filter (λ row. is_active row && is_after after row.canonical_domain) rows)
      (All-filter (λ row. parse_canonical parse_url row.canonical_domain ≡ ok row.canonical_domain)
        (λ row. is_active row && is_after after row.canonical_domain) rows stored)

-- Past a row of the listing come its later rows.
pub rows_after :
    (before : List DomainRow) (x : DomainRow) (later : List DomainRow)
    → IsStrict row_before (before ++ (x ∷ later))
    → filter
        (λ row. is_after (some x.canonical_domain) row.canonical_domain)
        (before ++ (x ∷ later))
      ≡ later
unfolding is_after row_before
rows_after before x later strict =
    filter-IsStrict row_before row_before_total row_before_trans before x later strict
