-- ===== src/Parser/Sources.antt =====
-- What the evidence of `parse` stands on: captured sources, and no header that carries a secret.
use tech_atlas.Prelude.{ℕ, Bool, true, false, ◌≡◌, refl, Option, none, some, List, [], ◌∷◌}
use tech_atlas.Prelude.Text.{Text, text}
use tech_atlas.Prelude.Sort.{sort_by, All-sort_by}
use tech_atlas.Prelude.Dedup.{All-dedup_neighbours}
use tech_atlas.Parser.{
  invalid, ArtifactInput, captured, unavailable, DnsArtifact, TlsArtifact, ArtifactBundle,
  html_source, header_source, script_source, dns_source, tls_source, ArtifactSource,
  NormalizedEvidence, available, unavailable_signal, SignalAvailability, ParsedArtifacts,
  HtmlDocument, item, and_then, normalized, normalized_hostname, availability_of,
}
use tech_atlas.Parser.Extract.{
  push, push_some, insert, parse_metas, parse_document, parse_html, parse_header_entries,
  parse_headers, parse_addresses, parse_dns_name, parse_dns, emit, emit_names, close_tls,
  emit_facts, parse_tls, eq_normalized, normalized_before, first_title, nothing_parsed, parse_all,
  parse,
}
use tech_atlas.Parser.Soundness.{Availabilities, is_available, is_sound, AreSound, insert-AreSound}
use tech_atlas.Parser.Loops.{
  IsSoundFor, push-IsSoundFor, push_some-IsSoundFor, parse_metas-IsSoundFor,
  parse_scripts-IsSoundFor, parse_header_entries-IsSoundFor, parse_addresses-IsSoundFor,
}

-- While the facts of a TLS capture are read, nothing is emitted until `emitted` is set.
abbrev IsEmitting : Availabilities → Bool × ParsedArtifacts → Type 0
IsEmitting base state =
    IsSoundFor ((tls_source, available) ∷ base) base state.1
    × (state.0 ≡ false → AreSound base state.1.evidence)

emit-IsEmitting :
    (base : Availabilities) (key : Text) (value : Option Text) (state : Bool × ParsedArtifacts)
    → IsEmitting base state
    → IsEmitting base (emit key value state)
unfolding availability_of
emit-IsEmitting base key none state h = h
emit-IsEmitting base key (some value) (emitted, parsed) h = (
  push-IsSoundFor ((tls_source, available) ∷ base) base tls_source key value parsed refl refl h.0,
  λ never. absurd (cc never),
)

emit_names-IsEmitting :
    (base : Availabilities) (names : List Text) (state : Bool × ParsedArtifacts)
    → IsEmitting base state
    → IsEmitting base (emit_names names state)
unfolding emit_names
emit_names-IsEmitting base [] state h = h
emit_names-IsEmitting base (name ∷ rest) state h =
    emit_names-IsEmitting base rest
      (emit (text "subject_alternative_name") (normalized_hostname name) state)
      (emit-IsEmitting base (text "subject_alternative_name") (normalized_hostname name) state h)

-- What each parser leaves: sound evidence, and one more entry for its own source.
abbrev HasRead : ArtifactSource → Availabilities → ParsedArtifacts → Type 0
HasRead x base parsed =
    AreSound parsed.availability parsed.evidence
    × ((signal : SignalAvailability) × (parsed.availability ≡ (x, signal) ∷ base))

close-HasRead :
    (x : ArtifactSource) (base : Availabilities) (parsed : ParsedArtifacts)
    → IsSoundFor ((x, available) ∷ base) base parsed
    → HasRead x base (insert x available parsed)
close-HasRead x base parsed h = (rw h.1 h.0, (available, rw h.1 refl))

module _ (base : Availabilities) (found : List NormalizedEvidence)
    (sound : AreSound base found) where
  abbrev before_it : ParsedArtifacts
  before_it = record { evidence = found; availability = base }

  grown :
      (x : ArtifactSource)
      → is_available (availability_of base x) ≡ false
      → (signal : SignalAvailability) → AreSound ((x, signal) ∷ base) found
  grown x new signal = insert-AreSound x signal base found (λ _. new) sound

  parse_headers-HasRead :
      (input : ArtifactInput (List (Text × Text)))
      → is_available (availability_of base header_source) ≡ false
      → HasRead header_source base (parse_headers input before_it)
  unfolding parse_headers availability_of
  parse_headers-HasRead (unavailable reason) new =
      (grown header_source new (unavailable_signal reason), (unavailable_signal reason, refl))
  parse_headers-HasRead (captured entries) new =
      close-HasRead header_source base (parse_header_entries entries before_it) (
        parse_header_entries-IsSoundFor ((header_source, available) ∷ base) base entries before_it
          refl (grown header_source new available, refl))

  parse_dns-HasRead :
      (input : ArtifactInput DnsArtifact)
      → is_available (availability_of base dns_source) ≡ false
      → HasRead dns_source base (parse_dns input before_it)
  unfolding parse_dns parse_dns_name availability_of
  parse_dns-HasRead (unavailable reason) new =
      (grown dns_source new (unavailable_signal reason), (unavailable_signal reason, refl))
  parse_dns-HasRead (captured dns) new = named (normalized_hostname dns.queried_name)
    where
      named :
          (name : Option Text)
          → HasRead dns_source base (parse_dns_name name dns.addresses before_it)
      named none =
          (grown dns_source new (unavailable_signal invalid), (unavailable_signal invalid, refl))
      named (some name) =
          close-HasRead dns_source base
            (parse_addresses dns.addresses
              (push (item dns_source (text "queried_name") name) before_it))
            (parse_addresses-IsSoundFor ((dns_source, available) ∷ base) base dns.addresses
              (push (item dns_source (text "queried_name") name) before_it) refl
              (push-IsSoundFor ((dns_source, available) ∷ base) base dns_source
                (text "queried_name") name before_it refl refl
                (grown dns_source new available, refl)))

  parse_tls-HasRead :
      (input : ArtifactInput TlsArtifact)
      → is_available (availability_of base tls_source) ≡ false
      → HasRead tls_source base (parse_tls input before_it)
  unfolding parse_tls emit_facts
  parse_tls-HasRead (unavailable reason) new =
      (grown tls_source new (unavailable_signal reason), (unavailable_signal reason, refl))
  parse_tls-HasRead (captured tls) new = closed (emit_facts tls before_it) (
      emit_names-IsEmitting base tls.subject_alternative_names _ (
        emit-IsEmitting base (text "certificate_issuer")
          (and_then tls.certificate_issuer normalized) _
          (emit-IsEmitting base (text "certificate_subject")
            (and_then tls.certificate_subject normalized) _
            (emit-IsEmitting base (text "cipher_suite") (and_then tls.cipher_suite normalized) _ (
              emit-IsEmitting base (text "protocol") (and_then tls.protocol normalized)
                (false, before_it) ((grown tls_source new available, refl), λ _. sound))))))
    where
      closed :
          (state : Bool × ParsedArtifacts)
          → IsEmitting base state
          → HasRead tls_source base (close_tls state)
      closed (true, parsed) h = close-HasRead tls_source base parsed h.0
      closed (false, parsed) h = (
        rw h.0.1 (
            insert-AreSound tls_source (unavailable_signal invalid) base parsed.evidence (λ _. new)
              (h.1 refl)),
        (unavailable_signal invalid, rw h.0.1 refl),
      )

-- `parse_html` comes first and reads two sources.
abbrev HasReadHtml : ParsedArtifacts → Type 0
HasReadHtml parsed =
    AreSound parsed.availability parsed.evidence
    × ((scripts : SignalAvailability) × ((pages : SignalAvailability) × (parsed.availability
            ≡ (script_source, scripts) ∷ (html_source, pages) ∷ [])))

abbrev both_available : Availabilities
both_available = (script_source, available) ∷ (html_source, available) ∷ []

parse_document-HasReadHtml :
    (document : Option HtmlDocument) → HasReadHtml (parse_document document nothing_parsed)
unfolding parse_document availability_of
parse_document-HasReadHtml none =
    (tt, (unavailable_signal invalid, (unavailable_signal invalid, refl)))
parse_document-HasReadHtml (some document) =
    let read =
      parse_scripts-IsSoundFor both_available [] document.scripts
        (parse_metas document.metas
          (push_some html_source (text "title") (first_title document.titles) nothing_parsed))
        refl
        (parse_metas-IsSoundFor both_available [] document.metas
          (push_some html_source (text "title") (first_title document.titles) nothing_parsed) refl
          (push_some-IsSoundFor both_available [] html_source (text "title")
            (first_title document.titles) nothing_parsed refl refl (tt, refl))) in
    (rw read.1 read.0, (available, (available, rw read.1 refl)))

parse_html-HasReadHtml :
    (read_html : List ℕ → Option HtmlDocument) (input : ArtifactInput (List ℕ))
    → HasReadHtml (parse_html read_html input nothing_parsed)
unfolding parse_html
parse_html-HasReadHtml read_html (unavailable reason) =
    (tt, (unavailable_signal reason, (unavailable_signal reason, refl)))
parse_html-HasReadHtml read_html (captured bytes) = parse_document-HasReadHtml (read_html bytes)

-- The three other parsers after `parse_html`.
rest-AreSound :
    (input : ArtifactBundle) (parsed : ParsedArtifacts)
    → HasReadHtml parsed
    → let all = parse_tls input.tls (parse_dns input.dns (parse_headers input.headers parsed)) in
      AreSound all.availability all.evidence
unfolding availability_of
rest-AreSound input parsed (sound, (scripts, (pages, start))) =
    let first =
      parse_headers-HasRead parsed.availability parsed.evidence sound input.headers
        (rw start refl) in
    let after_headers = parse_headers input.headers parsed in
    let second =
      parse_dns-HasRead after_headers.availability after_headers.evidence first.0 input.dns
        (rw (first.1.1, start) refl) in
    let after_dns = parse_dns input.dns after_headers in
    let third =
      parse_tls-HasRead after_dns.availability after_dns.evidence second.0 input.tls
        (rw (second.1.1, first.1.1, start) refl) in
    third.0

-- Every item of evidence that parsing an artifact bundle yields is of a source that parsing reports
-- as available, and no item is a header whose name is one of the sensitive ones.
pub parse-AreSound :
    (read_html : List ℕ → Option HtmlDocument) (input : ArtifactBundle)
    → AreSound (parse read_html input).availability (parse read_html input).evidence
unfolding parse
parse-AreSound read_html input =
    All-dedup_neighbours eq_normalized
      (λ e. is_sound (parse_all read_html input).availability e ≡ true)
      (sort_by normalized_before (parse_all read_html input).evidence)
      (All-sort_by normalized_before
        (λ e. is_sound (parse_all read_html input).availability e ≡ true)
        (parse_all read_html input).evidence
        (rest-AreSound input (parse_html read_html input.html nothing_parsed)
          (parse_html-HasReadHtml read_html input.html)))
