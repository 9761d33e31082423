-- ===== src/Parser/Soundness.antt =====
-- Sound evidence: its source is available, and it is no header that carries a secret.
use tech_atlas.Prelude.{
  ℕ, Bool, true, false, not, ◌&&◌, ◌≡◌, refl, List, [], ◌∷◌, ◌==◌, All, sym, subst, ◌∙◌, Bool-cases,
  inl, inr, arith, if◌then◌else◌,
}
use tech_atlas.Parser.{
  html_source, header_source, script_source, dns_source, tls_source, ArtifactSource, rank_of,
  NormalizedEvidence, available, unavailable_signal, SignalAvailability, is_sensitive_header,
  availability_of,
}

abbrev pub Availabilities : Type 0
Availabilities = List (ArtifactSource × SignalAvailability)

abbrev pub is_available : SignalAvailability → Bool
is_available available = true
is_available (unavailable_signal reason) = false

abbrev pub is_secret : NormalizedEvidence → Bool
is_secret e = rank_of e.source == 1 && is_sensitive_header e.key

unfoldable pub is_sound : Availabilities → NormalizedEvidence → Bool
is_sound signals e = is_available (availability_of signals e.source) && not (is_secret e)

abbrev pub AreSound : Availabilities → List NormalizedEvidence → Type 0
AreSound signals = All (λ e. is_sound signals e ≡ true)

abbrev source_at : ℕ → ArtifactSource
source_at n =
    if n == 0
    then html_source
    else if n == 1
    then header_source
    else if n == 2
    then script_source
    else if n == 3
    then dns_source
    else tls_source

source_at-rank_of : (x : ArtifactSource) → source_at (rank_of x) ≡ x
source_at-rank_of html_source = refl
source_at-rank_of header_source = refl
source_at-rank_of script_source = refl
source_at-rank_of dns_source = refl
source_at-rank_of tls_source = refl

rank_of_injective : (x y : ArtifactSource) → (rank_of x == rank_of y) ≡ true → x ≡ y
rank_of_injective x y h = sym (source_at-rank_of x) ∙ same_rank (ground arith) ∙ source_at-rank_of y
  where
    same_rank : rank_of x ≡ rank_of y → source_at (rank_of x) ≡ source_at (rank_of y)
    same_rank e = rw e refl

availability_of-kept :
    (x : ArtifactSource) (signal : SignalAvailability) (signals : Availabilities)
    (s : ArtifactSource)
    → (is_available signal ≡ false → is_available (availability_of signals x) ≡ false)
    → is_available (availability_of signals s) ≡ true
    → is_available (availability_of ((x, signal) ∷ signals) s) ≡ true
unfolding availability_of
availability_of-kept x signal signals s kept h = elim (Bool-cases (rank_of x == rank_of s)) [
  | inl same ↦ elim (Bool-cases (is_available signal)) [
    | inl now ↦ rw same now
    | inr gone ↦
        let before =
          subst (λ y. is_available (availability_of signals y) ≡ true)
            (sym (rank_of_injective x s same)) h in
        absurd (cc (kept gone, before))
  ]
  | inr other ↦ rw other h
]

-- A source that becomes available keeps sound evidence sound, and so does one that was unavailable
-- before.
pub insert-AreSound :
    (x : ArtifactSource) (signal : SignalAvailability) (signals : Availabilities)
    (found : List NormalizedEvidence)
    → (is_available signal ≡ false → is_available (availability_of signals x) ≡ false)
    → AreSound signals found
    → AreSound ((x, signal) ∷ signals) found
unfolding is_sound
insert-AreSound x signal signals [] kept h = tt
insert-AreSound x signal signals (e ∷ rest) kept h = (
  ground (arith, availability_of-kept x signal signals e.source kept),
  insert-AreSound x signal signals rest kept h.1,
)
