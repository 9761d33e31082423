-- ===== src/Crawler/Robots/Pattern.antt =====
-- The wildcard patterns against what they stand for: their segments, in order, somewhere in the
-- path, the first at its start.
use mathlib.Core.Option
use tech_atlas.Prelude.{
  ℕ, zero, suc, ◌+◌, ◌≤◌, ◌≡◌, refl, sym, ap, ◌∙◌, Bool, true, false, not, ◌||◌, Option, none, some,
  is_some, List, [], ◌∷◌, ◌++◌, drop, take, length, length-append, Option-cases, arith, Bool-cases,
  inl, inr, ◌⊎◌, ==_iff,
}
use tech_atlas.Prelude.Text.{Text, starts_with, find_text, split, ends_with, strip_last}
use tech_atlas.Crawler.Robots.{match_segments, match_first, is_matched, robots_pattern_matches}

-- The path has the segments in order, and `rest` is what follows the last.
unfoldable pub HasSegments : List Text → Text → Text → Type 0
HasSegments [] path rest = path ≡ rest
HasSegments (s ∷ segments) path rest =
    (gap : Text) × (after : Text) × (path ≡ gap ++ (s ++ after)) × HasSegments segments after rest

-- The first segment starts the path.
unfoldable pub IsGlob : List Text → Text → Text → Type 0
IsGlob [] path rest = path ≡ rest
IsGlob (s ∷ segments) path rest =
    (after : Text) × (path ≡ s ++ after) × HasSegments segments after rest

pub starts_with-split :
    (path s : Text) → starts_with path s ≡ true → path ≡ s ++ drop (length s) path
unfolding starts_with
starts_with-split path [] h = refl
starts_with-split [] (c ∷ s) h = cc
starts_with-split (d ∷ path) (c ∷ s) h =
    let head : d ≡ c = (==_iff d c).0 (ground arith) in
    let tail : starts_with path s ≡ true = ground arith in
    rw head (ap (λ t. c ∷ t) (starts_with-split path s tail))

pub starts_with-append : (s after : Text) → starts_with (s ++ after) s ≡ true
unfolding starts_with
starts_with-append [] after = refl
starts_with-append (c ∷ s) after = rw (starts_with-append s after) (ground arith)

drop-append : (s after : Text) → drop (length s) (s ++ after) ≡ after
drop-append [] after = refl
drop-append (c ∷ s) after = drop-append s after

map-suc : (o : Option ℕ) (n : ℕ) → Option.map suc o ≡ some n → (m : ℕ) × (o ≡ some m) × (n ≡ suc m)
map-suc none n h = cc
map-suc (some m) n h = (m, refl, ground arith)

-- A found occurrence stands at its offset.
found_at : (path s : Text) (n : ℕ) → find_text path s ≡ some n → starts_with (drop n path) s ≡ true
unfolding find_text
found_at [] s n h = elim (Bool-cases (starts_with [] s)) [
  | inl here ↦ let start : n ≡ 0 = ground (arith, rw here at h) in rw start here
  | inr gone ↦ absurd (cc (rw gone at h))
]
found_at (c ∷ path) s n h = elim (Bool-cases (starts_with (c ∷ path) s)) [
  | inl here ↦ let start : n ≡ 0 = ground (arith, rw here at h) in rw start here
  | inr gone ↦
      let (m, found, next) = map-suc (find_text path s) n (rw gone at h) in
      rw next (found_at path s m found)
]

split_at : (n : ℕ) (path : Text) → path ≡ take n path ++ drop n path
split_at zero path = refl
split_at (suc n) [] = refl
split_at (suc n) (c ∷ path) = ap (λ t. c ∷ t) (split_at n path)

drop_none : (n : ℕ) → drop {A = ℕ} n [] ≡ []
drop_none zero = refl
drop_none (suc n) = refl

drop-drop : (n m : ℕ) (path : Text) → drop m (drop n path) ≡ drop (n + m) path
drop-drop zero m path = let same : 0 + m ≡ m = omega arith in rw same refl
drop-drop (suc n) m [] = rw (drop_none (suc n + m)) (drop_none m)
drop-drop (suc n) m (c ∷ path) =
    let next : suc n + m ≡ suc (n + m) = omega arith in rw next (drop-drop n m path)

append_assoc : (xs ys zs : Text) → ((xs ++ ys) ++ zs) ≡ (xs ++ (ys ++ zs))
append_assoc [] ys zs = refl
append_assoc (x ∷ xs) ys zs = ap (λ t. x ∷ t) (append_assoc xs ys zs)

find_text-split :
    (path s : Text) (n : ℕ)
    → find_text path s ≡ some n
    → path ≡ take n path ++ (s ++ drop (n + length s) path)
find_text-split path s n h =
    split_at n path
    ∙ ap (λ t. take n path ++ t)
        (starts_with-split (drop n path) s (found_at path s n h)
          ∙ ap (λ t. s ++ t) (drop-drop n (length s) path))

-- An occurrence is found, at its place or before it.
found_before :
    (gap : Text) (c : ℕ) (s after : Text)
    → (n : ℕ) × (find_text (gap ++ (c ∷ s ++ after)) (c ∷ s) ≡ some n) × (n ≤ length gap)
unfolding find_text
found_before [] c s after = (0, rw (starts_with-append (c ∷ s) after) refl, omega arith)
found_before (g ∷ gap) c s after =
    elim (Bool-cases (starts_with (g ∷ gap ++ (c ∷ s ++ after)) (c ∷ s))) [
      | inl here ↦ (0, rw here refl, omega arith)
      | inr gone ↦
          let (m, found, bound) = found_before gap c s after in
          (suc m, rw (gone, found) refl, omega (arith, bound))
    ]

drop-append_le :
    (front after : Text) (m : ℕ)
    → m ≤ length front
    → drop m (front ++ after) ≡ drop m front ++ after
drop-append_le front after zero h = refl
drop-append_le [] after (suc m) h = absurd (omega (arith, h))
drop-append_le (c ∷ front) after (suc m) h = drop-append_le front after m (omega (arith, h))

match_segments-none :
    (c : ℕ) (s : Text) (segments : List Text) (path : Text)
    → find_text path (c ∷ s) ≡ none
    → match_segments ((c ∷ s) ∷ segments) path ≡ none
unfolding match_segments
match_segments-none c s segments path h = rw h refl

match_segments-some :
    (c : ℕ) (s : Text) (segments : List Text) (path : Text) (n : ℕ)
    → find_text path (c ∷ s) ≡ some n
    → match_segments ((c ∷ s) ∷ segments) path
      ≡ match_segments segments (drop (n + suc (length s)) path)
unfolding match_segments
match_segments-some c s segments path n h = rw h refl

-- What the cursor's loop accepts has the segments.
match_segments_sound :
    (segments : List Text) (path : Text) {rest : Text}
    → match_segments segments path ≡ some rest
    → HasSegments segments path rest
unfolding match_segments HasSegments
match_segments_sound [] path h = ground arith
match_segments_sound ([] ∷ segments) path h = ([], path, refl, match_segments_sound segments path h)
match_segments_sound ((c ∷ s) ∷ segments) path {rest} h =
    elim (Option-cases (find_text path (c ∷ s))) [
      | inl gone ↦ absurd (cc (match_segments-none c s segments path gone))
      | inr (n, found) ↦ (
        take n path,
        drop (n + length (c ∷ s)) path,
        find_text-split path (c ∷ s) n found,
        match_segments_sound segments (drop (n + suc (length s)) path)
            (sym (match_segments-some c s segments path n found) ∙ h),
      )
    ]

-- Whatever stands in front, the loop accepts a path that has the segments.
match_segments_complete :
    (segments : List Text) (extra path rest : Text)
    → HasSegments segments path rest
    → is_some (match_segments segments (extra ++ path)) ≡ true
unfolding match_segments HasSegments
match_segments_complete [] extra path rest h = refl
match_segments_complete ([] ∷ segments) extra path rest (gap, after, here, more) =
    rw (here, ← append_assoc extra gap after)
      (match_segments_complete segments (extra ++ gap) after rest more)
match_segments_complete ((c ∷ s) ∷ segments) extra path rest (gap, after, here, more) =
    let (n, found, bound) = found_before (extra ++ gap) c s after in
    let front = (extra ++ gap) ++ c ∷ s in
    let fits : n + suc (length s) ≤ length front =
      omega (arith, bound, length-append (extra ++ gap) (c ∷ s)) in
    let left : drop (n + suc (length s)) ((extra ++ gap) ++ (c ∷ s ++ after))
        ≡ drop (n + suc (length s)) front ++ after =
      rw (← append_assoc (extra ++ gap) (c ∷ s) after)
        (drop-append_le front after (n + suc (length s)) fits) in
    rw
      (
        here,
        ← append_assoc extra gap (c ∷ s ++ after),
        match_segments-some c s segments _ n found,
        left,
      )
      (match_segments_complete segments (drop (n + suc (length s)) front) after rest more)

match_first_sound :
    (segments : List Text) (path : Text) {rest : Text}
    → match_first segments path ≡ some rest
    → IsGlob segments path rest
unfolding match_first IsGlob
match_first_sound [] path h = ground arith
match_first_sound (s ∷ segments) path h = elim (Bool-cases (starts_with path s)) [
  | inl here ↦ (
    drop (length s) path,
    starts_with-split path s here,
    match_segments_sound segments (drop (length s) path) (rw here at h),
  )
  | inr gone ↦ absurd (cc (rw gone at h))
]

match_first_complete :
    (segments : List Text) (path rest : Text)
    → IsGlob segments path rest
    → is_some (match_first segments path) ≡ true
unfolding match_first IsGlob
match_first_complete [] path rest h = refl
match_first_complete (s ∷ segments) path rest (after, here, more) =
    rw (here, starts_with-append s after, drop-append s after)
      (match_segments_complete segments [] after rest more)

is_matched-inversion :
    (loose : Bool) (found : Option Text)
    → is_matched loose found ≡ true
    → (rest : Text) × (found ≡ some rest) × ((loose ≡ true) ⊎ (rest ≡ []))
is_matched-inversion loose none h = cc
is_matched-inversion true (some rest) h = (rest, refl, inl refl)
is_matched-inversion false (some []) h = ([], refl, inr refl)
is_matched-inversion false (some (c ∷ rest)) h = cc

-- A path that a pattern matches is one that the pattern stands for: it starts with the first
-- segment, has the others after it in order, and, where the pattern ends in "$" and not in "*$",
-- ends with the last.
pub robots_pattern_matches_sound :
    (pattern path : Text)
    → robots_pattern_matches pattern path ≡ true
    → (rest : Text) × IsGlob (split 42 (strip_last 36 pattern)) path rest
      × (((not (ends_with 36 pattern) || ends_with 42 (strip_last 36 pattern)) ≡ true)
          ⊎ (rest ≡ []))
unfolding robots_pattern_matches
robots_pattern_matches_sound pattern path h =
    let body = strip_last 36 pattern in
    let (rest, found, end) = is_matched-inversion _ (match_first (split 42 body) path) h in
    (rest, match_first_sound (split 42 body) path found, end)

loose_match : (found : Option Text) → is_some found ≡ true → is_matched true found ≡ true
loose_match none h = cc
loose_match (some rest) h = refl

-- A pattern that does not end in "$" matches every path that it stands for.
pub robots_pattern_matches_complete :
    (pattern path rest : Text)
    → ends_with 36 pattern ≡ false
    → IsGlob (split 42 (strip_last 36 pattern)) path rest
    → robots_pattern_matches pattern path ≡ true
unfolding robots_pattern_matches
robots_pattern_matches_complete pattern path rest loose h =
    rw loose (loose_match _ (match_first_complete (split 42 (strip_last 36 pattern)) path rest h))
