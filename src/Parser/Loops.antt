-- ===== src/Parser/Loops.antt =====
-- The loops of the parsers keep their evidence sound.
use tech_atlas.Prelude.{
  true, false, ◌&&◌, ◌≡◌, refl, Option, none, some, List, [], ◌∷◌, ◌++◌, ◌==◌, All-append,
  Bool-cases, inl, inr, arith,
}
use tech_atlas.Prelude.Text.{Text, text}
use tech_atlas.Parser.{
  html_source, header_source, script_source, dns_source, ArtifactSource, rank_of, ParsedArtifacts,
  MetaElement, item, and_then, normalized, normalized_key, is_sensitive_header, availability_of,
}
use tech_atlas.Parser.Extract.{
  push, push_some, push_meta, meta_key, parse_metas, parse_scripts, push_header,
  parse_header_entries, parse_addresses,
}
use tech_atlas.Parser.Soundness.{Availabilities, is_available, is_sound, AreSound}

-- Evidence that is sound once the availabilities are `target`, while the ones recorded so far are
-- `base`.
abbrev pub IsSoundFor : Availabilities → Availabilities → ParsedArtifacts → Type 0
IsSoundFor target base parsed = AreSound target parsed.evidence × (parsed.availability ≡ base)

module _ (target base : Availabilities) where
  pub push-IsSoundFor :
      (x : ArtifactSource) (key value : Text) (parsed : ParsedArtifacts)
      → is_available (availability_of target x) ≡ true
      → (rank_of x == 1 && is_sensitive_header key) ≡ false
      → IsSoundFor target base parsed
      → IsSoundFor target base (push (item x key value) parsed)
  unfolding is_sound
  push-IsSoundFor x key value parsed ready safe h = (
    All-append (λ e. is_sound target e ≡ true) parsed.evidence (item x key value ∷ []) h.0
        (ground arith, tt),
    h.1,
  )

  pub push_some-IsSoundFor :
      (x : ArtifactSource) (key : Text) (value : Option Text) (parsed : ParsedArtifacts)
      → is_available (availability_of target x) ≡ true
      → (rank_of x == 1 && is_sensitive_header key) ≡ false
      → IsSoundFor target base parsed
      → IsSoundFor target base (push_some x key value parsed)
  push_some-IsSoundFor x key none parsed ready safe h = h
  push_some-IsSoundFor x key (some value) parsed ready safe h =
      push-IsSoundFor x key value parsed ready safe h

  push_meta-IsSoundFor :
      (key content : Option Text) (parsed : ParsedArtifacts)
      → is_available (availability_of target html_source) ≡ true
      → IsSoundFor target base parsed
      → IsSoundFor target base (push_meta key content parsed)
  push_meta-IsSoundFor none content parsed ready h = h
  push_meta-IsSoundFor (some key) content parsed ready h =
      push_some-IsSoundFor html_source (text "meta." ++ key) (and_then content normalized) parsed
        ready refl h

  pub parse_metas-IsSoundFor :
      (elements : List MetaElement) (parsed : ParsedArtifacts)
      → is_available (availability_of target html_source) ≡ true
      → IsSoundFor target base parsed
      → IsSoundFor target base (parse_metas elements parsed)
  unfolding parse_metas
  parse_metas-IsSoundFor [] parsed ready h = h
  parse_metas-IsSoundFor (e ∷ rest) parsed ready h =
      parse_metas-IsSoundFor rest (push_meta (meta_key e) e.content_attribute parsed) ready
        (push_meta-IsSoundFor (meta_key e) e.content_attribute parsed ready h)

  pub parse_scripts-IsSoundFor :
      (scripts : List (Option Text)) (parsed : ParsedArtifacts)
      → is_available (availability_of target script_source) ≡ true
      → IsSoundFor target base parsed
      → IsSoundFor target base (parse_scripts scripts parsed)
  unfolding parse_scripts
  parse_scripts-IsSoundFor [] parsed ready h = h
  parse_scripts-IsSoundFor (src ∷ rest) parsed ready h =
      parse_scripts-IsSoundFor rest
        (push_some script_source (text "src") (and_then src normalized) parsed) ready
        (push_some-IsSoundFor script_source (text "src") (and_then src normalized) parsed ready refl
          h)

  push_header-IsSoundFor :
      (name value : Option Text) (parsed : ParsedArtifacts)
      → is_available (availability_of target header_source) ≡ true
      → IsSoundFor target base parsed
      → IsSoundFor target base (push_header name value parsed)
  push_header-IsSoundFor none value parsed ready h = h
  push_header-IsSoundFor (some name) value parsed ready h =
      elim (Bool-cases (is_sensitive_header name)) [
        | inl secret ↦ rw secret h
        | inr plain ↦ rw plain (push_some-IsSoundFor header_source name value parsed ready plain h)
      ]

  pub parse_header_entries-IsSoundFor :
      (entries : List (Text × Text)) (parsed : ParsedArtifacts)
      → is_available (availability_of target header_source) ≡ true
      → IsSoundFor target base parsed
      → IsSoundFor target base (parse_header_entries entries parsed)
  unfolding parse_header_entries
  parse_header_entries-IsSoundFor [] parsed ready h = h
  parse_header_entries-IsSoundFor (entry ∷ rest) parsed ready h =
      parse_header_entries-IsSoundFor rest
        (push_header (normalized_key entry.0) (normalized entry.1) parsed) ready
        (push_header-IsSoundFor (normalized_key entry.0) (normalized entry.1) parsed ready h)

  pub parse_addresses-IsSoundFor :
      (addresses : List Text) (parsed : ParsedArtifacts)
      → is_available (availability_of target dns_source) ≡ true
      → IsSoundFor target base parsed
      → IsSoundFor target base (parse_addresses addresses parsed)
  unfolding parse_addresses
  parse_addresses-IsSoundFor [] parsed ready h = h
  parse_addresses-IsSoundFor (a ∷ rest) parsed ready h =
      parse_addresses-IsSoundFor rest (push (item dns_source (text "address") a) parsed) ready
        (push-IsSoundFor dns_source (text "address") a parsed ready refl h)
