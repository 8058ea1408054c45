-- ===== src/Client/Request.antt =====
-- internal/llmclient/client.go: building and sending one HTTP request. What the network, the
-- encoder of JSON bodies (github.com/goccy/go-json) and net/http's request constructor answer is
-- an input, one answer for each attempt.
use thinroute.Prelude.{
  ℕ, ◌+◌, ◌-◌, ◌*◌, Bool, true, false, ◌&&◌, ◌||◌, not, List, [], ◌∷◌, ◌++◌, any, take, leb, ltb,
  ◌==◌, if◌then◌else◌, map,
}
use thinroute.Text.{Text, codes, text_eq, trim_space, is_empty}
use thinroute.Errors.{Bytes, Err, is_nil, gateway, new_provider_error, new_invalid_request_error}
use thinroute.Client.{provider_error_status_code, error_text}

-- A field that is nil is `false`.
pub record Request : Type 0 where
  pub method : Text
  pub endpoint : Text
  pub body : Bool
  pub raw_body : Bool
  pub raw_body_reader : Bool
  pub headers : List (Text × List Text)

pub record Response : Type 0 where
  pub status_code : ℕ
  pub body : Bytes

-- What httpClient.Do gives: a response, with the error that reading its body ends in, or an error.
pub data Sent : Type 0 where
  replied : Response → Err → Sent
  not_sent : Err → Sent

pub record Upstream : Type 0 where
  -- json.Marshal(req.Body) and http.NewRequestWithContext
  pub marshal_error : Err
  pub new_request_error : Err
  -- httpClient.Do at the attempt of this number
  pub send : ℕ → Sent
  -- what the wait before the attempt of this number ends with: nil, or ctx.Err()
  pub wait : ℕ → Err

pub data Answer (A : Type 0) : Type 0 where
  answer : A → Answer A
  failed : Err → Answer A

abbrev invalid : Text → Err → Err
invalid message cause = gateway (new_invalid_request_error message) ∷ cause

abbrev methods : List Text
methods =
    codes "GET"
    ∷ codes "POST"
    ∷ codes "PUT"
    ∷ codes "PATCH"
    ∷ codes "DELETE"
    ∷ codes "HEAD"
    ∷ codes "OPTIONS"
    ∷ []

abbrev one : Bool → ℕ
one b = if b then 1 else 0

-- buildRequest: the error, or nil for a request that can be sent.
unfoldable pub build_request : Upstream → Request → Err
unfolding text_eq
build_request up req =
    if is_empty req.method
    then invalid (codes "HTTP method is required") []
    else if is_empty req.endpoint
    then invalid (codes "endpoint is required") []
    else if not (any (text_eq req.method) methods)
    then invalid (codes "invalid HTTP method: " ++ req.method) []
    else if ltb 1 (one req.body + one req.raw_body + one req.raw_body_reader)
    then invalid (codes "Body, RawBody, and RawBodyReader are mutually exclusive") []
    else if not req.raw_body_reader && not req.raw_body && req.body && not (is_nil up.marshal_error)
    then invalid (codes "failed to marshal request") up.marshal_error
    else if not (is_nil up.new_request_error)
    then invalid (codes "failed to create request") up.new_request_error
    else []

abbrev transport_error : Text → Text → Err → Err
transport_error provider what err =
    gateway (new_provider_error provider (provider_error_status_code err) (what ++ error_text err))
    ∷ err

abbrev pub sent_answer : Text → Sent → Answer (Response × Err)
sent_answer provider (replied r read) = answer (r, read)
sent_answer provider (not_sent err) =
    failed (transport_error provider (codes "failed to send request: ") err)

-- doHTTPRequest
unfoldable pub do_http_request : Text → Upstream → Request → ℕ → Answer (Response × Err)
unfolding build_request
do_http_request provider up req attempt =
    let err = build_request up req in
    if is_nil err then sent_answer provider (up.send attempt) else failed err

abbrev pub max_error_body_bytes : ℕ
max_error_body_bytes = 64 * 1024

abbrev pub read_body : Text → Answer (Response × Err) → Answer Response
read_body provider (failed err) = failed err
read_body provider (answer (r, read)) =
    if is_nil read
    then answer (record r {
      body = if leb 400 r.status_code then take max_error_body_bytes r.body else r.body;
    })
    else failed (transport_error provider (codes "failed to read response: ") read)

-- doRequest
unfoldable pub do_request : Text → Upstream → Request → ℕ → Answer Response
unfolding do_http_request
do_request provider up req attempt = read_body provider (do_http_request provider up req attempt)

-- httpguts.IsTokenRune, by which http.CanonicalHeaderKey accepts a name
is_token : ℕ → Bool
is_token c =
    (leb b'a' c && leb c b'z')
    || (leb b'A' c && leb c b'Z')
    || (leb b'0' c && leb c b'9')
    || any (λ d. d == c) (codes "!#$%&'*+-.^_`|~")

canonical_from : Bool → Text → Text
canonical_from upper [] = []
canonical_from upper (c ∷ s) =
    (if upper && leb b'a' c && leb c b'z'
      then c - 32
      else if not upper && leb b'A' c && leb c b'Z'
      then c + 32
      else c)
    ∷ canonical_from (c == b'-') s

-- http.CanonicalHeaderKey
unfoldable pub canonical_header_key : Text → Text
unfolding canonical_from is_token
canonical_header_key s = if any (λ c. not (is_token c)) s then s else canonical_from true s

unfoldable pub has_idempotency_key : List (Text × List Text) → Bool
unfolding canonical_header_key trim_space text_eq
has_idempotency_key [] = false
has_idempotency_key ((key, values) ∷ headers) =
    (text_eq (canonical_header_key (trim_space key)) (codes "Idempotency-Key")
      && any (λ value. not (is_empty (trim_space value))) values)
    || has_idempotency_key headers

-- strings.ToUpper, exact where the result is ASCII: U+0131 and U+017F are the only code points
-- outside ASCII with such a result.
to_upper_rune : ℕ → ℕ
to_upper_rune c =
    if leb b'a' c && leb c b'z'
    then c - 32
    else if c == 0x131
    then b'I'
    else if c == 0x17f
    then b'S'
    else c

unfoldable pub can_retry_passthrough : Request → Bool
unfolding has_idempotency_key to_upper_rune
can_retry_passthrough req =
    if req.raw_body_reader
    then false
    else if has_idempotency_key req.headers
    then true
    else any (text_eq (map to_upper_rune (trim_space req.method)))
        (codes "GET" ∷ codes "HEAD" ∷ codes "OPTIONS" ∷ codes "PUT" ∷ [])
