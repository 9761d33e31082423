-- ===== src/Crawler/Robots/Priority.antt =====
-- `allows` against the rule of the longest match: the order of the rules does not matter.
use tech_atlas.Prelude.{
  ℕ, ◌≡◌, refl, Bool, true, false, not, ◌&&◌, ◌||◌, none, some, List, [], ◌∷◌, leb, ◌==◌,
  if◌then◌else◌, any, max, arith, Bool-cases, inl, inr,
}
use tech_atlas.Prelude.Text.{Text}
use tech_atlas.Crawler.Url.{Url}
use tech_atlas.Crawler.Robots.{
  RobotsRule, robots_pattern_matches, specificity, winner_after, beats, verdict, full_path, allows,
}

-- The rules that match a path, and the longest specificity among them.
abbrev pub applies : Text → RobotsRule → Bool
applies path r = robots_pattern_matches r.pattern path

unfoldable pub longest : Text → List RobotsRule → ℕ
longest path [] = 0
longest path (r ∷ rules) =
    max (if applies path r then specificity r.pattern else 0) (longest path rules)

-- A rule that matches with a given specificity and allows.
abbrev pub allows_at : Text → ℕ → RobotsRule → Bool
allows_at path n r = applies path r && specificity r.pattern == n && r.allow

merge_taken :
    (best sp rest n : ℕ) (allow mine others : Bool)
    → beats (some (best, allow)) sp mine ≡ true
    → n ≡ max best (max sp rest)
    → (n ≡ max sp rest)
      × (((leb rest sp && mine) || others)
          ≡ ((leb (max sp rest) best && allow) || ((sp == n && mine) || others)))
merge_taken best sp rest n allow mine others h e = ground arith

merge_kept :
    (best sp rest n : ℕ) (allow mine others : Bool)
    → beats (some (best, allow)) sp mine ≡ false
    → n ≡ max best (max sp rest)
    → (n ≡ max best rest)
      × (((leb rest best && allow) || others)
          ≡ ((leb (max sp rest) best && allow) || ((sp == n && mine) || others)))
merge_kept best sp rest n allow mine others h e = ground arith

merge_first :
    (sp rest n : ℕ) (mine others : Bool)
    → n ≡ max sp rest
    → ((leb rest sp && mine) || others) ≡ ((sp == n && mine) || others)
merge_first sp rest n mine others e = ground arith

decided :
    (found : Bool) (n : ℕ) (allow : Bool)
    → verdict (if found then some (n, allow) else none) ≡ (not found || allow)
decided true n allow = refl
decided false n allow = refl

module _ (path : Text) where
  no_rules : longest path [] ≡ 0
  unfolding longest
  no_rules = refl

  longest_hit :
      (r : RobotsRule) (rules : List RobotsRule)
      → robots_pattern_matches r.pattern path ≡ true
      → longest path (r ∷ rules) ≡ max (specificity r.pattern) (longest path rules)
  unfolding longest
  longest_hit r rules h = rw h refl

  longest_miss :
      (r : RobotsRule) (rules : List RobotsRule)
      → robots_pattern_matches r.pattern path ≡ false
      → longest path (r ∷ rules) ≡ longest path rules
  unfolding longest
  longest_miss r rules h = rw h (omega arith)

  winner_from :
      (best : ℕ) (allow : Bool) (rules : List RobotsRule) (n : ℕ)
      → n ≡ max best (longest path rules)
      → winner_after path rules (some (best, allow))
        ≡ some (n, (leb (longest path rules) best && allow) || any (allows_at path n) rules)
  unfolding winner_after
  winner_from best allow [] n e = rw no_rules (ground (arith, rw no_rules at e))
  winner_from best allow (r ∷ rules) n e =
      let sp = specificity r.pattern in
      let rest = longest path rules in
      let others = any (allows_at path n) rules in
      elim (Bool-cases (robots_pattern_matches r.pattern path)) [
        | inl hit ↦
            let top = rw (longest_hit r rules hit) at e in
            elim (Bool-cases (beats (some (best, allow)) sp r.allow)) [
              | inl taken ↦
                  let (same, merged) = merge_taken best sp rest n allow r.allow others taken top in
                  rw
                    (
                      longest_hit r rules hit,
                      hit,
                      taken,
                      winner_from sp r.allow rules n same,
                      merged,
                    )
                    refl
              | inr kept ↦
                  let (same, merged) = merge_kept best sp rest n allow r.allow others kept top in
                  rw
                    (
                      longest_hit r rules hit,
                      hit,
                      kept,
                      winner_from best allow rules n same,
                      merged,
                    )
                    refl
            ]
        | inr miss ↦
            let same = rw (longest_miss r rules miss) at e in
            rw (longest_miss r rules miss, miss, winner_from best allow rules n same) refl
      ]

  winner_of :
      (rules : List RobotsRule) (n : ℕ)
      → n ≡ longest path rules
      → winner_after path rules none
        ≡ (if any (applies path) rules then some (n, any (allows_at path n) rules) else none)
  unfolding winner_after
  winner_of [] n e = refl
  winner_of (r ∷ rules) n e = elim (Bool-cases (robots_pattern_matches r.pattern path)) [
    | inl hit ↦
        let top = rw (longest_hit r rules hit) at e in
        let others = any (allows_at path n) rules in
        rw
          (
            hit,
            winner_from (specificity r.pattern) r.allow rules n top,
            merge_first (specificity r.pattern) (longest path rules) n r.allow others top,
          )
          refl
    | inr miss ↦
        let same = rw (longest_miss r rules miss) at e in rw (miss, winner_of rules n same) refl
  ]

-- With no matching rule a target is allowed, and otherwise exactly when a rule of the longest
-- match allows it: ties go to the rule that allows, wherever the rules stand.
pub allows_iff :
    (rules : List RobotsRule) (target : Url)
    → allows rules target ≡ (
        not (any (applies (full_path target)) rules)
        || any (allows_at (full_path target) (longest (full_path target) rules)) rules)
unfolding allows
allows_iff rules target =
    rw (winner_of (full_path target) rules (longest (full_path target) rules) refl) (
      decided (any (applies (full_path target)) rules) (longest (full_path target) rules)
        (any (allows_at (full_path target) (longest (full_path target) rules)) rules))
