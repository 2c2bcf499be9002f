-- ===== src/Http.antt =====
-- The requests and replies of internal/execd/server.go, and what its handlers share: addresses, the
-- tail_bytes of a query, the decoding of a body. Packages net, net/http, strconv, encoding/json and
-- crypto/sha256 are parameters.
use vpsops.Base.{
  ℕ, Bool, Option, none, some, [], ◌∷◌, ◌&&◌, not, if◌then◌else◌, ◌==◌, is_empty, Text, ◌⊎◌, inl,
  inr, codes, trim_space, ℤ, pos, ltb_ℤ,
}
use vpsops.Types.{RunRequest, RunResult, JobSummary}
use vpsops.Validation.{Invalid}

-- What a handler reads of an *http.Request. The body is what io.ReadAll gives behind
-- http.MaxBytesReader with a limit: `none` if it is larger or cannot be read.
pub record Request : Type 0 where
  pub remote_addr : Text
  pub authorization : Text
  pub x_forwarded_for : Text
  pub x_real_ip : Text
  pub path_job_id : Text
  pub query_tail_bytes : Text
  pub body : ℤ → Option Text

-- The errors of package encoding/json that the code tells apart, each with its text.
pub data DecodeError : Type 0 where
  syntax_error unexpected_eof other_error : Text → DecodeError

pub data Decoded {ℓ} (A : Type ℓ) : Type ℓ where
  decoded : A → Decoded A
  undecodable : DecodeError → Decoded A

-- What the Decode after the first finds in the stream.
pub data Second : Type 0 where
  at_eof another_value : Second
  second_failed : DecodeError → Second

pub record Packages : Type 0 where
  -- The host of net.SplitHostPort.
  pub split_host_port : Text → Option Text
  -- ip := net.ParseIP(host); ip != nil && ip.IsLoopback()
  pub is_loopback_ip : Text → Bool
  -- strconv.ParseInt(s, 10, 64)
  pub parse_int : Text → Option ℤ
  -- SHA-256 in lower-case hex
  pub sha256_hex : Text → Text
  -- Decode into a RunRequest, unknown fields disallowed, and the Decode after it.
  pub decode_request : Text → Decoded RunRequest
  pub decode_second : Text → Second
  -- Unmarshal into a map of raw messages, and whether it has a key.
  pub has_key : Text → Text → Decoded Bool
  -- json.Marshal
  pub marshal_request : RunRequest → Option Text

-- An error's text: a literal, or the text of the error that it stands for.
pub data Message : Type 0 where
  literal : Text → Message
  of_invalid : Invalid → Message
  of_decode : DecodeError → Message

pub record ErrorResponse : Type 0 where
  pub error : Message
  pub code : Text
  pub retry_after_sec : ℕ

pub record Health : Type 0 where
  pub concurrency : ℤ
  pub running_jobs : ℕ
  pub available_slots : ℤ

pub data Body : Type 0 where
  error_body : ErrorResponse → Body
  health_body : Health → Body
  result_body : Option RunResult → Body
  summary_body : JobSummary → Body
  output_body : Text → Body

-- The status, the header Retry-After, and the body; the body decides the content type.
pub record Response : Type 0 where
  pub status : ℕ
  pub retry_after : Option ℕ
  pub body : Body

-- writeJSON, for a value of one of the types above
abbrev pub write_json : ℕ → Body → Response
write_json code v = record { status = code; retry_after = none; body = v }

-- writeErrorRetry
unfoldable pub write_error_retry : ℕ → Text → Message → ℕ → Response
write_error_retry status code message retry_after_sec = record {
  status = status;
  retry_after = if retry_after_sec == 0 then none else some retry_after_sec;
  body = error_body (record { error = message; code = code; retry_after_sec = retry_after_sec });
}

-- writeError
unfoldable pub write_error : ℕ → Text → Message → Response
unfolding write_error_retry
write_error status code message = write_error_retry status code message 0

-- What strings.Cut gives before the first comma, if there is one.
unfoldable pub before_comma : Text → Option Text
before_comma [] = none
before_comma (c ∷ s) =
    let rest = before_comma s in
    if c == b',' then some [] else elim rest [ none ↦ none | some first ↦ some (c ∷ first) ]

module _ (net : Packages) where
  -- peerAddress
  unfoldable pub peer_address : Request → Text
  peer_address r = elim (net.split_host_port r.remote_addr) [
    | some host ↦ host
    | none ↦ r.remote_addr
  ]

  -- The part of clientAddress for a loopback peer: what the headers say.
  unfoldable pub forwarded_address : Request → Option Text
  unfolding before_comma
  forwarded_address r =
      let forwarded = trim_space r.x_forwarded_for in
      let real_ip = trim_space r.x_real_ip in
      if not (is_empty forwarded)
      then elim (before_comma forwarded) [
        | some first ↦ some (trim_space first)
        | none ↦ some forwarded
      ]
      else if not (is_empty real_ip)
      then some real_ip
      else none

  -- clientAddress
  unfoldable pub client_address : Request → Text
  unfolding peer_address forwarded_address
  client_address r =
      let peer = peer_address r in
      if net.is_loopback_ip peer
      then elim (forwarded_address r) [ some address ↦ address | none ↦ peer ]
      else peer

  -- parseTailBytes: the number, or the error's text
  unfoldable pub parse_tail_bytes : Request → ℤ → ℤ ⊎ Text
  parse_tail_bytes r most =
      let raw = trim_space r.query_tail_bytes in
      if is_empty raw then inl (pos 0) else elim (net.parse_int raw) [
        | none ↦ inr (codes "tail_bytes must be a non-negative integer")
        | some n ↦
            if ltb_ℤ n (pos 0)
            then inr (codes "tail_bytes must be a non-negative integer")
            else if ltb_ℤ (pos 0) most && ltb_ℤ most n
            then inr (codes "tail_bytes is too large")
            else inl n
      ]

  -- decodeRunRequest
  unfoldable pub decode_run_request : Text → Decoded RunRequest
  decode_run_request body = elim (net.decode_request body) [
    | undecodable e ↦ undecodable e
    | decoded req ↦ elim (net.decode_second body) [
      | another_value ↦ undecodable (other_error (codes "request contains multiple JSON values"))
      | second_failed e ↦ undecodable e
      | at_eof ↦ elim (net.has_key body (codes "wait_sec")) [
        | undecodable e ↦ undecodable e
        | decoded present ↦ decoded (record req { wait_sec_set = present })
      ]
    ]
  ]

  -- requestHash
  unfoldable pub request_hash : RunRequest → Text
  request_hash req = elim (net.marshal_request (record req { root = none })) [
    | none ↦ net.sha256_hex req.cmd
    | some b ↦ net.sha256_hex b
  ]

-- requestDecodeErrorCode
unfoldable pub request_decode_error_code : DecodeError → Text
request_decode_error_code (syntax_error e) = codes "invalid_json"
request_decode_error_code (unexpected_eof e) = codes "invalid_json"
request_decode_error_code (other_error e) = codes "invalid_request"
