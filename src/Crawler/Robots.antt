-- ===== src/Crawler/Robots.antt =====
-- The robots policy: reading robots.txt and deciding about a target.
pub mod Pattern
pub mod Priority
use mathlib.Core.Option
use tech_atlas.Prelude.{
  ℕ, suc, ◌+◌, Bool, true, false, not, ◌&&◌, ◌||◌, Option, none, some, List, [], ◌∷◌, ◌++◌, ltb,
  ◌==◌, if◌then◌else◌, any, filter, drop, length, map, String, Outcome, ok, err, ◌>>=◌, ◌>>◌,
  refuse_if, ok_or,
}
use tech_atlas.Prelude.Text.{
  Text, text, trim, is_empty, eq_text, to_ascii_lowercase, split, split_once, before, ends_with,
  strip_last, find_text, starts_with,
}
use tech_atlas.Crawler.Url.{Url}

pub record RobotsRule : Type 0 where
  pub pattern : Text
  pub allow : Bool

pub record RobotsGroup : Type 0 where
  pub agents : List Text
  pub rules : List RobotsRule

pub data RobotsParseError : Type 0 where
  empty_robots_agent : RobotsParseError
  invalid_directive empty_agent rule_before_agent : ℕ → RobotsParseError

-- `str::lines`: a line ends with "\n" or "\r\n", and no empty line follows the last end.
unfoldable pub strip_line_ends : List Text → List Text
strip_line_ends [] = []
strip_line_ends (l ∷ []) = if is_empty l then [] else l ∷ []
strip_line_ends (l ∷ m ∷ rest) = strip_last 13 l ∷ strip_line_ends (m ∷ rest)

abbrev pub lines : Text → List Text
lines document = strip_line_ends (split 10 document)

-- The loop's variables.
pub record GroupReader : Type 0 where
  pub groups : List RobotsGroup
  pub current : Option RobotsGroup

abbrev is_nil : List RobotsRule → Bool
is_nil [] = true
is_nil (r ∷ rules) = false

abbrev new_group : Text → RobotsGroup
new_group agent = record { agents = agent ∷ []; rules = [] }

-- A group whose rules have begun is closed by the next agent.
unfoldable pub add_agent : Text → GroupReader → GroupReader
add_agent agent reader = elim reader.current [
  | none ↦ record reader { current = some (new_group agent) }
  | some group ↦
      if is_nil group.rules
      then record reader { current = some (record group { agents = group.agents ++ agent ∷ [] }) }
      else record { groups = reader.groups ++ group ∷ []; current = some (new_group agent) }
]

unfoldable pub add_rule : ℕ → Bool → Text → GroupReader → Outcome RobotsParseError GroupReader
add_rule line_number allow value reader = do
  group ← ok_or reader.current (rule_before_agent line_number)
  ok (
      if is_empty value then reader else record reader {
        current = some (record group {
          rules = group.rules ++ record { pattern = value; allow = allow } ∷ [];
        });
      })

unfoldable pub read_directive : ℕ → Text → Text → GroupReader → Outcome RobotsParseError GroupReader
read_directive line_number field value reader =
    if eq_text field (text "user-agent")
    then (do
      refuse_if (is_empty value) (empty_agent line_number)
      ok (add_agent (to_ascii_lowercase value) reader))
    else if eq_text field (text "allow") || eq_text field (text "disallow")
    then add_rule line_number (eq_text field (text "allow")) value reader
    else ok reader

-- One turn of the loop; the lines count from 1 in the errors. 35 is '#' and 58 is ':'.
unfoldable pub read_line : ℕ → Text → GroupReader → Outcome RobotsParseError GroupReader
read_line line_number raw_line reader =
    let line = trim (before 35 raw_line) in
    if is_empty line then ok reader else (do
      parts ← ok_or (split_once 58 line) (invalid_directive line_number)
      read_directive line_number (to_ascii_lowercase (trim parts.0)) (trim parts.1) reader)

unfoldable pub read_lines : ℕ → List Text → GroupReader → Outcome RobotsParseError GroupReader
read_lines line_number [] reader = ok reader
read_lines line_number (l ∷ rest) reader = do
  next ← read_line line_number l reader
  read_lines (suc line_number) rest next

abbrev pub close_group : Option RobotsGroup → List RobotsGroup
close_group none = []
close_group (some group) = group ∷ []

unfoldable pub parse_robots_groups : Text → Outcome RobotsParseError (List RobotsGroup)
parse_robots_groups document = do
  reader ← read_lines 1 (lines document) (record { groups = []; current = none })
  ok (reader.groups ++ close_group reader.current)

abbrev pub names_agent : Text → RobotsGroup → Bool
names_agent agent group = any (λ candidate. eq_text candidate agent) group.agents

unfoldable pub all_rules : List RobotsGroup → List RobotsRule
all_rules [] = []
all_rules (g ∷ gs) = g.rules ++ all_rules gs

-- The groups that name the agent, or else those for every agent.
unfoldable pub matching_groups : Text → List RobotsGroup → List RobotsGroup
matching_groups agent groups =
    if any (names_agent agent) groups
    then filter (names_agent agent) groups
    else filter (names_agent (text "*")) groups

-- `RobotsPolicy::parse`; a policy is its rules.
unfoldable pub parse_robots : Text → Text → Outcome RobotsParseError (List RobotsRule)
parse_robots user_agent document = do
  refuse_if (is_empty (trim user_agent)) empty_robots_agent
  groups ← parse_robots_groups document
  ok (all_rules (matching_groups (to_ascii_lowercase (trim user_agent)) groups))

-- `let Some(offset) = .. else { return false; }`
abbrev pub and_then : Option ℕ → (ℕ → Option Text) → Option Text
and_then none next = none
and_then (some offset) next = next offset

-- The segments after the first: each is looked for from the cursor on. The argument is the path
-- from the cursor, and so is the result; `none` is `return false`.
unfoldable pub match_segments : List Text → Text → Option Text
match_segments [] path = some path
match_segments ([] ∷ segments) path = match_segments segments path
match_segments ((c ∷ segment) ∷ segments) path =
    and_then (find_text path (c ∷ segment))
      (λ offset. match_segments segments (drop (offset + suc (length segment)) path))

-- The first segment is a prefix.
unfoldable pub match_first : List Text → Text → Option Text
match_first [] path = some path
match_first (first ∷ segments) path =
    if starts_with path first then match_segments segments (drop (length first) path) else none

abbrev pub is_matched : Bool → Option Text → Bool
is_matched loose none = false
is_matched loose (some rest) = loose || is_empty rest

-- 36 is '$' and 42 is '*'.
unfoldable pub robots_pattern_matches : Text → Text → Bool
robots_pattern_matches pattern path =
    let body = strip_last 36 pattern in
    is_matched (not (ends_with 36 pattern) || ends_with 42 body) (match_first (split 42 body) path)

-- The number of characters that are neither '*' nor '$'.
unfoldable pub specificity : Text → ℕ
specificity [] = 0
specificity (c ∷ s) = if c == 42 || c == 36 then specificity s else suc (specificity s)

-- Whether a matching rule replaces the winner so far.
abbrev pub beats : Option (ℕ × Bool) → ℕ → Bool → Bool
beats none found allow = true
beats (some (best, best_allow)) found allow =
    ltb best found || (found == best && allow && not best_allow)

unfoldable pub winner_after : Text → List RobotsRule → Option (ℕ × Bool) → Option (ℕ × Bool)
winner_after path [] winner = winner
winner_after path (r ∷ rules) winner = winner_after path rules (
    if robots_pattern_matches r.pattern path && beats winner (specificity r.pattern) r.allow
    then some (specificity r.pattern, r.allow)
    else winner)

abbrev pub verdict : Option (ℕ × Bool) → Bool
verdict none = true
verdict (some (best, allow)) = allow

-- The path with its query; 63 is '?'.
abbrev pub full_path : Url → Text
full_path target = elim target.query [ none ↦ target.path | some query ↦ target.path ++ 63 ∷ query ]

unfoldable pub allows : List RobotsRule → Url → Bool
allows rules target = verdict (winner_after (full_path target) rules none)
