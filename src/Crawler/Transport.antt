-- ===== src/Crawler/Transport.antt =====
-- One HTTP exchange: the bounded reading of a body, and the headers that are kept.
use tech_atlas.Prelude.{
  ℕ, ◌+◌, ◌-◌, ◌^◌, ◌≤◌, ◌≡◌, Bool, false, ◌||◌, Option, none, some, List, [], ◌∷◌, ◌++◌, ltb,
  if◌then◌else◌, Outcome, ok, err, ◌>>=◌, ◌>>◌, refuse_if, All, find, min, length, length-append,
  after_ok, arith, Bool-cases, inl, inr,
}
use tech_atlas.Prelude.Text.{Text, text, eq_text, to_ascii_lowercase, is_one_of, contains}

pub data HttpTransportError : Type 0 where
  transport_cancelled : HttpTransportError
  -- A `reqwest::Error`, by its `is_timeout()`.
  request : Bool → HttpTransportError
  too_large : ℕ → ℕ → HttpTransportError
  failed : Text → HttpTransportError

abbrev pub Headers : Type 0
Headers = List (Text × Text)

pub record HttpResponse : Type 0 where
  pub status : ℕ
  pub headers : Headers
  pub body : List ℕ

abbrev pub value_of : Option (Text × Text) → Option Text
value_of none = none
value_of (some entry) = some entry.1

unfoldable pub header : HttpResponse → Text → Option Text
header response name =
    value_of (find (λ entry. eq_text entry.0 (to_ascii_lowercase name)) response.headers)

-- `str::ends_with` of a text, by the reversed comparison of its last code points.
unfoldable pub has_suffix : Text → Text → Bool
has_suffix [] suffix = eq_text [] suffix
has_suffix (c ∷ s) suffix = eq_text (c ∷ s) suffix || has_suffix s suffix

abbrev sensitive_names : List Text
sensitive_names =
    text "authorization"
    ∷ text "proxy-authorization"
    ∷ text "cookie"
    ∷ text "set-cookie"
    ∷ text "set-cookie2"
    ∷ text "x-api-key"
    ∷ text "x-auth-token"
    ∷ text "x-amz-security-token"
    ∷ []

unfoldable pub is_sensitive_header : Text → Bool
is_sensitive_header name =
    is_one_of name sensitive_names
    || contains name (text "token")
    || contains name (text "secret")
    || eq_text name (text "api-key")
    || has_suffix name (text "-key")

-- `BTreeMap::insert` from an iterator: a later value replaces an earlier one of the same name.
unfoldable pub put_header : Text → Text → Headers → Headers
put_header name value [] = (name, value) ∷ []
put_header name value ((n, v) ∷ rest) =
    let others = put_header name value rest in
    if eq_text n name then (name, value) ∷ rest else (n, v) ∷ others

-- A header's value is `none` where `HeaderValue::to_str` fails.
abbrev pub keep_header : Text → Option Text → Headers → Headers
keep_header name none kept = kept
keep_header name (some value) kept =
    if is_sensitive_header name then kept else put_header name value kept

unfoldable pub safe_headers_into : Headers → List (Text × Option Text) → Headers
safe_headers_into kept [] = kept
safe_headers_into kept ((name, value) ∷ rest) =
    safe_headers_into (keep_header (to_ascii_lowercase name) value kept) rest

unfoldable pub safe_headers : List (Text × Option Text) → Headers
safe_headers headers = safe_headers_into [] headers

-- What the select over the next chunk gives: `cancelled` when the cancellation comes first.
pub data Chunk : Type 0 where
  chunk_cancelled : Chunk
  chunk_failed : Bool → Chunk
  chunk : List ℕ → Chunk

-- `u64::saturating_add`
abbrev pub saturating_add : ℕ → ℕ → ℕ
saturating_add a b = min (a + b) (2 ^ 64 - 1)

-- The loop over the chunks, whose list ends where `chunk()` answers `None`.
unfoldable pub read_body : ℕ → List ℕ → List Chunk → Outcome HttpTransportError (List ℕ)
read_body limit body [] = ok body
read_body limit body (chunk_cancelled ∷ rest) = err transport_cancelled
read_body limit body (chunk_failed is_timeout ∷ rest) = err (request is_timeout)
read_body limit body (chunk bytes ∷ rest) = do
  refuse_if (ltb limit (saturating_add (length body) (length bytes)))
      (too_large limit (saturating_add (length body) (length bytes)))
  read_body limit (body ++ bytes) rest

-- What the HTTP client delivers for one request.
pub record Exchange : Type 0 where
  pub status : ℕ
  pub content_length : Option ℕ
  pub raw_headers : List (Text × Option Text)
  pub chunks : List Chunk

abbrev pub declared_too_large : ℕ → Option ℕ → Outcome HttpTransportError (Unit {0})
declared_too_large limit none = ok tt
declared_too_large limit (some declared) = refuse_if (ltb limit declared) (too_large limit declared)

-- `ReqwestHttpTransport::get`; `sent` is the answer of the first select, the request's or the
-- cancellation's.
unfoldable pub transport_get :
    ℕ → Outcome HttpTransportError Exchange → Outcome HttpTransportError HttpResponse
transport_get limit sent = do
  exchange ← sent
  declared_too_large limit exchange.content_length
  body ← read_body limit [] exchange.chunks
  ok (record { status = exchange.status; headers = safe_headers exchange.raw_headers; body = body })

module _ (limit : ℕ) (small : limit ≤ 2 ^ 64 - 2) where
  read_body_bounded :
      (chunks : List Chunk) (body : List ℕ) {read : List ℕ}
      → length body ≤ limit
      → read_body limit body chunks ≡ ok read
      → length read ≤ limit
  unfolding read_body
  read_body_bounded [] body fits h = ground arith
  read_body_bounded (chunk_cancelled ∷ rest) body fits h = cc
  read_body_bounded (chunk_failed t ∷ rest) body fits h = cc
  read_body_bounded (chunk bytes ∷ rest) body fits h =
      after_ok
        (refuse_if (ltb limit (saturating_add (length body) (length bytes)))
          (too_large limit (saturating_add (length body) (length bytes))))
        _ h
        λ _ within next.
          read_body_bounded rest (body ++ bytes) (ground (arith, length-append body bytes)) next

-- The headers that are kept are not sensitive.
abbrev pub KeptSafe : Text × Text → Type 0
KeptSafe entry = is_sensitive_header entry.0 ≡ false

put_header-All :
    (name value : Text) (kept : Headers)
    → is_sensitive_header name ≡ false
    → All KeptSafe kept
    → All KeptSafe (put_header name value kept)
unfolding put_header
put_header-All name value [] safe h = (safe, tt)
put_header-All name value ((n, v) ∷ rest) safe h = elim (Bool-cases (eq_text n name)) [
  | inl same ↦ rw same (safe, h.1)
  | inr other ↦ rw other (h.0, put_header-All name value rest safe h.1)
]

keep_header-All :
    (name : Text) (value : Option Text) (kept : Headers)
    → All KeptSafe kept
    → All KeptSafe (keep_header name value kept)
keep_header-All name none kept h = h
keep_header-All name (some value) kept h = elim (Bool-cases (is_sensitive_header name)) [
  | inl secret ↦ rw secret h
  | inr safe ↦ rw safe (put_header-All name value kept safe h)
]

safe_headers_into-All :
    (raw : List (Text × Option Text)) (kept : Headers)
    → All KeptSafe kept
    → All KeptSafe (safe_headers_into kept raw)
unfolding safe_headers_into
safe_headers_into-All [] kept h = h
safe_headers_into-All ((name, value) ∷ rest) kept h =
    safe_headers_into-All rest _ (keep_header-All (to_ascii_lowercase name) value kept h)

-- A response that the transport hands on has a body within the limit, for limits below the last
-- `u64`s, and none of its headers is a sensitive one.
pub transport_get-bounded :
    (limit : ℕ) (sent : Outcome HttpTransportError Exchange) {response : HttpResponse}
    → limit ≤ 2 ^ 64 - 2
    → transport_get limit sent ≡ ok response
    → (length response.body ≤ limit) × All KeptSafe response.headers
unfolding transport_get safe_headers
transport_get-bounded limit sent {response} small h = after_ok sent _ h λ exchange _ h₁.
    after_ok (declared_too_large limit exchange.content_length) _ h₁ λ _ _ h₂.
      after_ok (read_body limit [] exchange.chunks) _ h₂ λ body read same.
        let bounded = read_body_bounded limit small exchange.chunks [] (omega arith) read in
        let bodies : response.body ≡ body = ground arith in
        let heads : response.headers ≡ safe_headers_into [] exchange.raw_headers = ground arith in
        (rw bodies bounded, rw heads (safe_headers_into-All exchange.raw_headers [] tt))
