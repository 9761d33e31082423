-- ===== src/WorkerApp/Summaries.antt =====
-- Whatever an error prints, its bounded summary makes a failure that can be recorded.
use tech_atlas.Prelude.{
  ℕ, ◌+◌, ◌-◌, sym, subst, ◌≤◌, ◌≡◌, refl, false, Bool-cases, inl, inr, ltb, [], ◌∷◌, ok, arith,
}
use tech_atlas.Prelude.Text.{
  Text, text, trim, trim_start, trim_end, keep_start, is_empty, is_whitespace, utf8_len, utf8_width,
}
use tech_atlas.CrawlJob.{CrawlJobV1}
use tech_atlas.Scheduler.Failure.{CrawlFailure, new_failure}
use tech_atlas.WorkerApp.{take_bytes, or_default, bounded_summary, Toolbox}
use tech_atlas.WorkerApp.Process.{WorkerRepository, Collaborators, from_repository, record_failure}

utf8_len-take_bytes : (room : ℕ) (s : Text) → utf8_len (take_bytes room s) ≤ room
unfolding take_bytes utf8_len
utf8_len-take_bytes room [] = omega arith
utf8_len-take_bytes room (c ∷ s) = elim (Bool-cases (ltb room (utf8_width c))) [
  | inl full ↦ rw full (omega arith)
  | inr fits ↦ rw fits (fit (utf8_width c) fits (utf8_len-take_bytes (room - utf8_width c) s))
]
  where
    fit : (width : ℕ) {n : ℕ} → ltb room width ≡ false → n ≤ room - width → width + n ≤ room
    fit width h k = ground arith

utf8_len-keep_start : (c : ℕ) (s : Text) → utf8_len (keep_start c s) ≤ utf8_width c + utf8_len s
unfolding utf8_len
utf8_len-keep_start c [] = elim (Bool-cases (is_whitespace c)) [
  | inl blank ↦ rw blank (omega arith)
  | inr solid ↦ rw solid (omega arith)
]
utf8_len-keep_start c (d ∷ s) = omega arith

utf8_len-trim_end : (s : Text) → utf8_len (trim_end s) ≤ utf8_len s
unfolding trim_end utf8_len
utf8_len-trim_end [] = omega arith
utf8_len-trim_end (c ∷ s) = omega (arith, utf8_len-keep_start c (trim_end s), utf8_len-trim_end s)

utf8_len-trim_start : (s : Text) → utf8_len (trim_start s) ≤ utf8_len s
unfolding trim_start utf8_len
utf8_len-trim_start [] = omega arith
utf8_len-trim_start (c ∷ s) = elim (Bool-cases (is_whitespace c)) [
  | inl blank ↦ rw blank (omega (arith, utf8_len-trim_start s))
  | inr solid ↦ rw solid (omega arith)
]

utf8_len-trim : (s : Text) → utf8_len (trim s) ≤ utf8_len s
unfolding trim
utf8_len-trim s = omega (arith, utf8_len-trim_end (trim_start s), utf8_len-trim_start s)

-- A text whose first code point is no white space is not empty when it is trimmed.
is_empty-trim : (c : ℕ) (s : Text) → is_whitespace c ≡ false → is_empty (trim (c ∷ s)) ≡ false
unfolding trim trim_start trim_end
is_empty-trim c s h = rw h (kept (trim_end s))
  where
    kept : (t : Text) → is_empty (keep_start c t) ≡ false
    kept [] = rw h refl
    kept (d ∷ t) = refl

trim_start_head :
    (s : Text) (c : ℕ) (rest : Text) → trim_start s ≡ c ∷ rest → is_whitespace c ≡ false
unfolding trim_start
trim_start_head [] c rest h = absurd (cc h)
trim_start_head (d ∷ s) c rest h = elim (Bool-cases (is_whitespace d)) [
  | inl blank ↦ trim_start_head s c rest (rw blank at h)
  | inr solid ↦
      let same : d ≡ c = ground (arith, rw solid at h) in
      subst (λ x. is_whitespace x ≡ false) same solid
]

keep_start_head : (d : ℕ) (t : Text) (c : ℕ) (rest : Text) → keep_start d t ≡ c ∷ rest → d ≡ c
keep_start_head d [] c rest h = elim (Bool-cases (is_whitespace d)) [
  | inl blank ↦ absurd (cc (rw blank at h))
  | inr solid ↦ ground (arith, rw solid at h)
]
keep_start_head d (e ∷ t) c rest h = ground arith

-- What trimming leaves, where it leaves something, starts with no white space.
trim_head : (s : Text) (c : ℕ) (rest : Text) → trim s ≡ c ∷ rest → is_whitespace c ≡ false
unfolding trim trim_end
trim_head s c rest h = headed (trim_start s) refl h
  where
    headed : (t : Text) → trim_start s ≡ t → trim_end t ≡ c ∷ rest → is_whitespace c ≡ false
    headed [] same k = absurd (cc k)
    headed (d ∷ t) same k =
        subst (λ x. is_whitespace x ≡ false) (keep_start_head d (trim_end t) c rest k)
          (trim_start_head s d t same)

-- A summary that can be recorded: something is left of it, and it fits the column.
abbrev IsRecordable : Text → Type 0
IsRecordable summary = (is_empty (trim summary) ≡ false) × (utf8_len (trim summary) ≤ 1024)

abbrev default_summary : Text
default_summary = text "crawl processing failed"

default_summary-bytes : utf8_len default_summary ≡ 23
unfolding utf8_len
default_summary-bytes = refl

default_summary-IsRecordable : IsRecordable default_summary
unfolding is_whitespace
default_summary-IsRecordable = (
  is_empty-trim 99 (text "rawl processing failed") refl,
  omega (arith, utf8_len-trim (text "crawl processing failed"), default_summary-bytes),
)

narrow : (c : ℕ) → ltb 1024 (utf8_width c) ≡ false
narrow c = ground arith

bounded_summary-IsRecordable : (summary : Text) → IsRecordable (bounded_summary summary)
unfolding bounded_summary take_bytes
bounded_summary-IsRecordable summary = cut (trim summary) refl
  where
    cut : (t : Text) → trim summary ≡ t → IsRecordable (or_default (take_bytes 1024 t))
    cut [] same = default_summary-IsRecordable
    cut (c ∷ rest) same =
        let kept = take_bytes (1024 - utf8_width c) rest in
        let bytes = utf8_len-take_bytes 1024 (c ∷ rest) in
        let shape : take_bytes 1024 (c ∷ rest) ≡ c ∷ kept = rw (narrow c) refl in
        subst (λ t. IsRecordable (or_default t)) (sym shape)
          (
            is_empty-trim c kept (trim_head summary c rest same),
            omega (arith, utf8_len-trim (c ∷ kept), subst (λ t. utf8_len t ≤ 1024) shape bytes),
          )

new_failure_recordable :
    (code summary : Text)
    → is_empty (trim code) ≡ false
    → IsRecordable summary
    → new_failure code summary ≡ ok (record { code = trim code; summary = trim summary })
unfolding new_failure
new_failure_recordable code summary named (something, short) =
    let fits : ltb 1024 (utf8_len (trim summary)) ≡ false = ground arith in
    rw (named, something, fits) refl

module _ {S Value Map : Type 0} (tools : Toolbox Value Map) (repository : WorkerRepository S Value)
    (others : Collaborators) where
  -- Recording a failure under a code that is not blank always reaches the repository, whatever text the error
  -- prints: the failure has the trimmed code and a summary that is not empty and has at most 1024
  -- bytes, and the answer is the repository's.
  pub record_failure-bounded_summary :
      (job : CrawlJobV1) (code summary : Text) (s : S)
      → is_empty (trim code) ≡ false
      → (failure : CrawlFailure) × (record_failure tools repository others job code summary s
          ≡ from_repository (repository.record_failure job failure s))
        × (failure.code ≡ trim code)
        × (is_empty failure.summary ≡ false)
        × (utf8_len failure.summary ≤ 1024)
  unfolding record_failure
  record_failure-bounded_summary job code summary s named =
      let fine = bounded_summary-IsRecordable summary in
      (
        record { code = trim code; summary = trim (bounded_summary summary) },
        rw (new_failure_recordable code (bounded_summary summary) named fine) refl,
        refl,
        fine.0,
        fine.1,
      )
