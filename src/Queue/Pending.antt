-- ===== src/Queue/Pending.antt =====
-- What the dead-letter script leaves: an index that only grows and pending entries that only go.
use tech_atlas.Prelude.{
  ℕ, true, false, ◌≡◌, refl, none, List, [], ◌∷◌, ◌==◌, any, find, ◌⊎◌, arith, Bool-cases, ◌∙◌, inl,
  inr,
}
use tech_atlas.Prelude.Text.{Text}
use tech_atlas.Queue.Server.{
  is_pending, without_pending, PendingEntry, DeadLetterReason, Server, counted, xack,
  dead_letter_script,
}
use tech_atlas.Queue.DeadLetters.{is_known}
use tech_atlas.Queue.Loops.{Keeps}

-- An entry stays in the index.
abbrev pub IsListed : ℕ → Server → Type 0
IsListed id s = any (is_known id) s.dead_letter_index ≡ true

-- Pending entries are those of an earlier server, or gone.
abbrev pub IsShrunk : Server → Server → Type 0
IsShrunk start s =
    (id : ℕ)
    → (find (is_pending id) s.pending ≡ none)
      ⊎ (find (is_pending id) s.pending ≡ find (is_pending id) start.pending)

pub find-without_pending_same :
    (id : ℕ) (pending : List PendingEntry)
    → find (is_pending id) (without_pending id pending) ≡ none
unfolding without_pending
find-without_pending_same id [] = refl
find-without_pending_same id (p ∷ rest) = elim (Bool-cases (is_pending id p)) [
  | inl this ↦ rw this (find-without_pending_same id rest)
  | inr another ↦ rw (another, another) (find-without_pending_same id rest)
]

pub find-without_pending_other :
    (id other : ℕ) (pending : List PendingEntry)
    → (id == other) ≡ false
    → find (is_pending id) (without_pending other pending) ≡ find (is_pending id) pending
unfolding without_pending
find-without_pending_other id other [] h = refl
find-without_pending_other id other (p ∷ rest) h = elim (Bool-cases (is_pending other p)) [
  | inl this ↦
      let different : is_pending id p ≡ false = ground arith in
      rw (this, different) (find-without_pending_other id other rest h)
  | inr another ↦ elim (Bool-cases (is_pending id p)) [
    | inl found ↦ rw (another, found) refl
    | inr absent ↦ rw (another, absent) (find-without_pending_other id other rest h)
  ]
]

pub find-without_pending :
    (id other : ℕ) (pending : List PendingEntry)
    → (find (is_pending id) (without_pending other pending) ≡ none)
      ⊎ (find (is_pending id) (without_pending other pending) ≡ find (is_pending id) pending)
find-without_pending id other pending = elim (Bool-cases (id == other)) [
  | inl same ↦
      let equal : id ≡ other = ground arith in
      rw equal (inl (find-without_pending_same other pending))
  | inr different ↦ inr (find-without_pending_other id other pending different)
]

pub counted-IsShrunk : (start s : Server) → IsShrunk start s → IsShrunk start (counted s)
counted-IsShrunk start s h = h

pub still_shrunk :
    (start s : Server) (known : ℕ) (pending : List PendingEntry)
    → pending ≡ without_pending known s.pending
    → IsShrunk start s
    → (id : ℕ)
    → (find (is_pending id) pending ≡ none)
      ⊎ (find (is_pending id) pending ≡ find (is_pending id) start.pending)
still_shrunk start s known pending same h id =
    rw same (elim (find-without_pending id known s.pending) [
      | inl gone ↦ inl gone
      | inr kept ↦ elim (h id) [
        | inl absent ↦ inl (kept ∙ absent)
        | inr before ↦ inr (kept ∙ before)
      ]
    ])

pub dead_letter_script-IsShrunk :
    (start : Server) (known : ℕ) (payload : Text) (times : ℕ) (reason : DeadLetterReason)
    → Keeps (IsShrunk start) (dead_letter_script known payload times reason)
unfolding dead_letter_script xack
dead_letter_script-IsShrunk start known payload times reason s h =
    still_shrunk start s known (dead_letter_script known payload times reason s).1.pending
      (elim (Bool-cases (any (is_known known) s.dead_letter_index)) [
        | inl there ↦ rw there refl
        | inr fresh ↦ rw fresh refl
      ])
      h

pub counted-IsListed : (id : ℕ) (s : Server) → IsListed id s → IsListed id (counted s)
counted-IsListed id s h = h

pub dead_letter_script-IsListed :
    (id known : ℕ) (payload : Text) (times : ℕ) (reason : DeadLetterReason)
    → Keeps (IsListed id) (dead_letter_script known payload times reason)
unfolding dead_letter_script xack
dead_letter_script-IsListed id known payload times reason s h =
    elim (Bool-cases (any (is_known known) s.dead_letter_index)) [
      | inl there ↦ rw there h
      | inr fresh ↦ rw (fresh, h) (ground arith)
    ]

-- The entry of the script itself is listed after it.
pub dead_letter_script_lists :
    (id : ℕ) (payload : Text) (times : ℕ) (reason : DeadLetterReason) (s : Server)
    → IsListed id (dead_letter_script id payload times reason s).1
unfolding dead_letter_script xack
dead_letter_script_lists id payload times reason s =
    elim (Bool-cases (any (is_known id) s.dead_letter_index)) [
      | inl there ↦ rw there there
      | inr fresh ↦ rw fresh (ground arith)
    ]
