-- ===== src/Observation/Metadata.antt =====
-- crates/models/src/worker.rs: the metadata of a snapshot and of a stored artifact.
use tech_atlas.Prelude.{
  ℕ, Bool, not, ◌&&◌, ◌||◌, Option, none, List, [], ◌∷◌, ◌==◌, leb, any, all, Outcome, ok, ◌>>=◌,
  ◌>>◌, refuse_if,
}
use tech_atlas.Prelude.Text.{
  Text, text, trim, is_empty, utf8_len, to_ascii_lowercase, is_one_of, contains, eq_text,
  starts_with, split,
}
use tech_atlas.Crawler.Transport.{Headers, has_suffix}
use tech_atlas.Observation.{
  CrawlSnapshotMetadataError, sensitive_header, CrawlRedirectMetadata, required_url,
  validate_status, CountryObservation,
}

abbrev pub secret_names : List Text
secret_names =
    text "authorization"
    ∷ text "proxy-authorization"
    ∷ text "cookie"
    ∷ text "set-cookie"
    ∷ text "set-cookie2"
    ∷ text "x-api-key"
    ∷ text "x-auth-token"
    ∷ text "x-amz-security-token"
    ∷ []

abbrev pub is_secret_name : Text → Bool
is_secret_name name =
    is_one_of name secret_names
    || contains name (text "token")
    || contains name (text "secret")
    || eq_text name (text "api-key")
    || has_suffix name (text "-key")

abbrev pub is_sensitive_header : Text → Bool
is_sensitive_header name = is_secret_name (to_ascii_lowercase (trim name))

pub record CrawlSnapshotMetadata : Type 0 where
  pub requested_url : Text
  pub final_url : Text
  pub redirects : List CrawlRedirectMetadata
  pub response_status : ℕ
  pub response_headers : Headers
  pub body_size_bytes : ℕ
  pub captured_at : ℕ
  pub country_observation : Option CountryObservation

unfoldable pub new_snapshot :
    Text
    → Text
    → List CrawlRedirectMetadata
    → ℕ
    → Headers
    → ℕ
    → ℕ
    → Outcome CrawlSnapshotMetadataError CrawlSnapshotMetadata
new_snapshot requested final hops status headers size at = do
  refuse_if (any (λ entry. is_sensitive_header entry.0) headers) sensitive_header
  requested_text ← required_url "requested URL" requested
  final_text ← required_url "final URL" final
  checked ← validate_status status
  ok (record {
    requested_url = requested_text;
    final_url = final_text;
    redirects = hops;
    response_status = checked;
    response_headers = headers;
    body_size_bytes = size;
    captured_at = at;
    country_observation = none;
  })

pub data RawArtifactMetadataError : Type 0 where
  invalid_storage_location invalid_checksum invalid_compressed_size : RawArtifactMetadataError

pub data RawArtifactKind : Type 0 where
  response_body : RawArtifactKind

pub data RawArtifactCompression : Type 0 where
  zstd : RawArtifactCompression

pub record RawArtifactMetadata : Type 0 where
  pub kind : RawArtifactKind
  pub storage_location : Text
  pub checksum_sha256 : Text
  pub compression : RawArtifactCompression
  pub uncompressed_size_bytes : ℕ
  pub compressed_size_bytes : ℕ
  pub retention_expires_at : ℕ

abbrev pub is_digest_byte : ℕ → Bool
is_digest_byte c = (leb 48 c && leb c 57) || (leb 97 c && leb c 102)

unfoldable pub new_response_body :
    Text
    → Text
    → RawArtifactCompression
    → ℕ
    → ℕ
    → ℕ
    → Outcome RawArtifactMetadataError RawArtifactMetadata
new_response_body location checksum method size compressed expiry = do
  refuse_if
      (is_empty (trim location)
        || starts_with (trim location) (text "/")
        || any (λ component. eq_text component (text "..")) (split 47 (trim location)))
      invalid_storage_location
  refuse_if (not (utf8_len (trim checksum) == 64) || not (all is_digest_byte (trim checksum)))
      invalid_checksum
  refuse_if (compressed == 0 && not (size == 0)) invalid_compressed_size
  ok (record {
    kind = response_body;
    storage_location = trim location;
    checksum_sha256 = trim checksum;
    compression = method;
    uncompressed_size_bytes = size;
    compressed_size_bytes = compressed;
    retention_expires_at = expiry;
  })
