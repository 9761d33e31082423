-- ===== src/Parser/Extract.antt =====
-- The parsing functions of crates/parser/src/lib.rs, `parse` last. What UTF-8 decoding and the
-- HTML library answer is the parameter `read_html`.
use tech_atlas.Prelude.{
  ℕ, Bool, true, false, ◌&&◌, ◌||◌, Option, none, some, List, [], ◌∷◌, ◌++◌, ◌==◌, ltb,
  if◌then◌else◌,
}
use tech_atlas.Prelude.Text.{Text, text, eq_text}
use tech_atlas.Prelude.Text.Order.{text_before}
use tech_atlas.Prelude.Sort.{sort_by}
use tech_atlas.Prelude.Dedup.{dedup_neighbours}
use tech_atlas.Parser.{
  invalid, UnavailableReason, ArtifactInput, captured, unavailable, DnsArtifact, TlsArtifact,
  ArtifactBundle, html_source, header_source, script_source, dns_source, tls_source, ArtifactSource,
  rank_of, NormalizedEvidence, available, unavailable_signal, SignalAvailability, ParsedArtifacts,
  MetaElement, HtmlDocument, item, and_then, or_else, normalized, normalized_key,
  normalized_hostname, is_sensitive_header,
}

-- A parser's effect on the evidence and the availabilities.
abbrev pub push : NormalizedEvidence → ParsedArtifacts → ParsedArtifacts
push found parsed = record parsed { evidence = parsed.evidence ++ (found ∷ []) }

abbrev pub push_some : ArtifactSource → Text → Option Text → ParsedArtifacts → ParsedArtifacts
push_some source key none parsed = parsed
push_some source key (some value) parsed = push (item source key value) parsed

abbrev pub insert : ArtifactSource → SignalAvailability → ParsedArtifacts → ParsedArtifacts
insert source signal parsed = record parsed {
  availability = (source, signal) ∷ parsed.availability;
}

abbrev pub both_unavailable : UnavailableReason → ParsedArtifacts → ParsedArtifacts
both_unavailable reason parsed =
    insert script_source (unavailable_signal reason)
      (insert html_source (unavailable_signal reason) parsed)

abbrev pub first_title : List Text → Option Text
first_title [] = none
first_title (title ∷ rest) = normalized title

abbrev pub meta_key : MetaElement → Option Text
meta_key element =
    and_then
      (or_else (or_else element.name_attribute element.property_attribute)
        element.http_equiv_attribute)
      normalized_key

abbrev pub push_meta : Option Text → Option Text → ParsedArtifacts → ParsedArtifacts
push_meta none content parsed = parsed
push_meta (some key) content parsed =
    push_some html_source (text "meta." ++ key) (and_then content normalized) parsed

unfoldable pub parse_metas : List MetaElement → ParsedArtifacts → ParsedArtifacts
parse_metas [] parsed = parsed
parse_metas (element ∷ rest) parsed =
    parse_metas rest (push_meta (meta_key element) element.content_attribute parsed)

unfoldable pub parse_scripts : List (Option Text) → ParsedArtifacts → ParsedArtifacts
parse_scripts [] parsed = parsed
parse_scripts (src ∷ rest) parsed =
    parse_scripts rest (push_some script_source (text "src") (and_then src normalized) parsed)

-- `parse_html` on what decoding and parsing the bytes answers: none where they are not UTF-8.
unfoldable pub parse_document : Option HtmlDocument → ParsedArtifacts → ParsedArtifacts
parse_document none parsed = both_unavailable invalid parsed
parse_document (some document) parsed = insert script_source available (
    insert html_source available (
      parse_scripts document.scripts (
        parse_metas document.metas
          (push_some html_source (text "title") (first_title document.titles) parsed))))

unfoldable pub parse_html :
    (List ℕ → Option HtmlDocument) → ArtifactInput (List ℕ) → ParsedArtifacts → ParsedArtifacts
parse_html read_html (unavailable reason) parsed = both_unavailable reason parsed
parse_html read_html (captured bytes) parsed = parse_document (read_html bytes) parsed

abbrev pub push_header : Option Text → Option Text → ParsedArtifacts → ParsedArtifacts
push_header none value parsed = parsed
push_header (some name) value parsed =
    if is_sensitive_header name then parsed else push_some header_source name value parsed

unfoldable pub parse_header_entries : List (Text × Text) → ParsedArtifacts → ParsedArtifacts
parse_header_entries [] parsed = parsed
parse_header_entries (entry ∷ rest) parsed =
    parse_header_entries rest (push_header (normalized_key entry.0) (normalized entry.1) parsed)

unfoldable pub parse_headers :
    ArtifactInput (List (Text × Text)) → ParsedArtifacts → ParsedArtifacts
parse_headers (unavailable reason) parsed = insert header_source (unavailable_signal reason) parsed
parse_headers (captured headers) parsed =
    insert header_source available (parse_header_entries headers parsed)

unfoldable pub parse_addresses : List Text → ParsedArtifacts → ParsedArtifacts
parse_addresses [] parsed = parsed
parse_addresses (address ∷ rest) parsed =
    parse_addresses rest (push (item dns_source (text "address") address) parsed)

unfoldable pub parse_dns_name : Option Text → List Text → ParsedArtifacts → ParsedArtifacts
parse_dns_name none addresses parsed = insert dns_source (unavailable_signal invalid) parsed
parse_dns_name (some name) addresses parsed =
    insert dns_source available
      (parse_addresses addresses (push (item dns_source (text "queried_name") name) parsed))

unfoldable pub parse_dns : ArtifactInput DnsArtifact → ParsedArtifacts → ParsedArtifacts
parse_dns (unavailable reason) parsed = insert dns_source (unavailable_signal reason) parsed
parse_dns (captured dns) parsed =
    parse_dns_name (normalized_hostname dns.queried_name) dns.addresses parsed

-- `emitted` and the evidence, which grow together.
abbrev pub emit : Text → Option Text → Bool × ParsedArtifacts → Bool × ParsedArtifacts
emit key none (emitted, parsed) = (emitted, parsed)
emit key (some value) (emitted, parsed) = (true, push (item tls_source key value) parsed)

unfoldable pub emit_names : List Text → Bool × ParsedArtifacts → Bool × ParsedArtifacts
emit_names [] state = state
emit_names (name ∷ rest) state =
    emit_names rest (emit (text "subject_alternative_name") (normalized_hostname name) state)

abbrev pub close_tls : Bool × ParsedArtifacts → ParsedArtifacts
close_tls (emitted, parsed) =
    insert tls_source (if emitted then available else unavailable_signal invalid) parsed

unfoldable pub emit_facts : TlsArtifact → ParsedArtifacts → Bool × ParsedArtifacts
emit_facts tls parsed = emit_names tls.subject_alternative_names (
    emit (text "certificate_issuer") (and_then tls.certificate_issuer normalized) (
      emit (text "certificate_subject") (and_then tls.certificate_subject normalized) (
        emit (text "cipher_suite") (and_then tls.cipher_suite normalized)
          (emit (text "protocol") (and_then tls.protocol normalized) (false, parsed)))))

unfoldable pub parse_tls : ArtifactInput TlsArtifact → ParsedArtifacts → ParsedArtifacts
parse_tls (unavailable reason) parsed = insert tls_source (unavailable_signal reason) parsed
parse_tls (captured tls) parsed = close_tls (emit_facts tls parsed)

unfoldable pub normalized_before : NormalizedEvidence → NormalizedEvidence → Bool
normalized_before a b =
    ltb (rank_of a.source) (rank_of b.source)
    || (rank_of a.source == rank_of b.source
        && (if eq_text a.key b.key then text_before a.value b.value else text_before a.key b.key))

unfoldable pub eq_normalized : NormalizedEvidence → NormalizedEvidence → Bool
eq_normalized a b =
    rank_of a.source == rank_of b.source && eq_text a.key b.key && eq_text a.value b.value

abbrev pub nothing_parsed : ParsedArtifacts
nothing_parsed = record { evidence = []; availability = [] }

-- The four parsers in the order of their calls, before the evidence is sorted.
abbrev pub parse_all : (List ℕ → Option HtmlDocument) → ArtifactBundle → ParsedArtifacts
parse_all read_html input = parse_tls input.tls (
    parse_dns input.dns
      (parse_headers input.headers (parse_html read_html input.html nothing_parsed)))

abbrev pub sorted_evidence : ParsedArtifacts → ParsedArtifacts
sorted_evidence parsed = record parsed {
  evidence = dedup_neighbours eq_normalized (sort_by normalized_before parsed.evidence);
}

unfoldable pub parse : (List ℕ → Option HtmlDocument) → ArtifactBundle → ParsedArtifacts
parse read_html input = sorted_evidence (parse_all read_html input)
