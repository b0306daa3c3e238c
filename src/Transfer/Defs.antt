-- ===== src/Transfer/Defs.antt =====
-- crates/serctl_transfer_protocol/src/lib.rs: the control messages and their validation.
use serctl.Common.{
  Bytes, Result, lit, ℕ, none, some, ok, err, ◌*◌, ◌+◌, Bool, ensure, strip_suffix, strip_prefix,
  ◌>>◌, length, not, ltb, is_ascii_alphanumeric, split_once, bytes_eq, ◌==◌, in_range,
  is_ascii_lowercase, leb, ◌&&◌, is_empty, ◌||◌, all, contains_byte, is_ascii_digit,
  is_lower_hex_digit, any, ◌>>=◌, context,
}

abbrev pub magic : Bytes
magic = lit "SRXF"

abbrev pub version : ℕ
version = 1

abbrev pub max_control_bytes : ℕ
max_control_bytes = 64 * 1024

abbrev pub max_chunk_bytes : ℕ
max_chunk_bytes = 1024 * 1024

abbrev pub max_frame_bytes : ℕ
max_frame_bytes = max_chunk_bytes + 64

abbrev pub max_window_bytes : ℕ
max_window_bytes = 8 * 1024 * 1024

abbrev pub max_path_bytes : ℕ
max_path_bytes = 4 * 1024

abbrev pub max_error_code_bytes : ℕ
max_error_code_bytes = 64

abbrev pub max_helper_version_bytes : ℕ
max_helper_version_bytes = 256

abbrev pub max_helper_binary_bytes : ℕ
max_helper_binary_bytes = 512 * 1024 * 1024

abbrev pub helper_binary_name : Bytes
helper_binary_name = lit "serctl-xfer"

-- An error for each `ensure!`, `bail!` and `context`.
pub data TransferError : Type 0 where
  bad_transfer_id bad_sha256 bad_path : TransferError
  helper_name_mismatch bad_binary_size bad_helper_version : TransferError
  helper_grammar bad_release_version bad_commit helper_identity_mismatch : TransferError
  hello_version_mismatch bad_hello_chunk bad_hello_window : TransferError
  bad_chunk bad_window start_beyond_size durable_beyond_confirmed : TransferError
  bad_receiver_window bad_error_code error_message_nul : TransferError
  client_hello_from_helper helper_hello_from_client not_a_hello : TransferError
  chunk_empty chunk_too_large chunk_digest_mismatch offset_overflow : TransferError
  other_transfer gap_or_replay : TransferError
  serialize_control control_too_large frame_too_large length_overflow : TransferError
  end_of_stream magic_mismatch unsupported_version unknown_flags control_not_parsed : TransferError
  data_truncated unknown_kind id_not_hex id_not_16_bytes : TransferError

unfoldable pub is_lower_hex : Bytes → ℕ → Bool
is_lower_hex value bytes = length value == bytes * 2 && all is_lower_hex_digit value

unfoldable pub validate_transfer_id : Bytes → Result TransferError (Unit {0})
unfolding is_lower_hex
validate_transfer_id value = ensure (is_lower_hex value 16) bad_transfer_id

unfoldable pub validate_sha256 : Bytes → Result TransferError (Unit {0})
unfolding is_lower_hex
validate_sha256 value = ensure (is_lower_hex value 32) bad_sha256

unfoldable pub validate_path : Bytes → Result TransferError (Unit {0})
validate_path value =
    ensure
      (not (is_empty value) && leb (length value) max_path_bytes && not (contains_byte 0 value))
      bad_path

pub record HelperRuntimeIdentity : Type 0 where
  pub name : Bytes
  pub binary_size : ℕ
  pub sha256 : Bytes
  pub helper_version : Bytes

abbrev pub is_ascii_control : ℕ → Bool
is_ascii_control b = ltb b 32 || b == 127

abbrev pub is_release_byte : ℕ → Bool
is_release_byte b = is_ascii_alphanumeric b || b == 46 || b == 45

-- the commit of the build without its `-dirty`
unfoldable pub clean_commit : Bytes → Bytes
unfolding strip_suffix
clean_commit commit = elim (strip_suffix (lit "-dirty") commit) [
  | none ↦ commit
  | some clean ↦ clean
]

-- `HelperRuntimeIdentity::validate` on the version text
unfoldable pub validate_helper_version : Bytes → Result TransferError (Unit {0})
unfolding strip_prefix strip_suffix split_once clean_commit
validate_helper_version text = do
  ensure
      (not (is_empty text)
        && leb (length text) max_helper_version_bytes
        && all (λ b. ltb b 128) text
        && not (any is_ascii_control text))
      bad_helper_version
  after ← context (strip_prefix (lit "serctl-xfer ") text) helper_grammar
  body ← context (strip_suffix (lit "; transfer protocol v1)") after) helper_grammar
  parts ← context (split_once (lit " (git ") body) helper_grammar
  ensure (not (is_empty parts.0) && leb (length parts.0) 64 && all is_release_byte parts.0)
      bad_release_version
  ensure (length (clean_commit parts.1) == 12 && all is_lower_hex_digit (clean_commit parts.1))
      bad_commit

unfoldable pub validate_identity : HelperRuntimeIdentity → Result TransferError (Unit {0})
unfolding validate_sha256 validate_helper_version
validate_identity i = do
  ensure (bytes_eq i.name helper_binary_name) helper_name_mismatch
  ensure (in_range 1 max_helper_binary_bytes i.binary_size) bad_binary_size
  validate_sha256 i.sha256
  validate_helper_version i.helper_version

-- `==` on identities
unfoldable pub same_identity : HelperRuntimeIdentity → HelperRuntimeIdentity → Bool
same_identity a b =
    bytes_eq a.name b.name
    && a.binary_size == b.binary_size
    && bytes_eq a.sha256 b.sha256
    && bytes_eq a.helper_version b.helper_version

unfoldable pub verify_expected_helper_identity :
    HelperRuntimeIdentity → HelperRuntimeIdentity → Result TransferError (Unit {0})
unfolding validate_identity same_identity
verify_expected_helper_identity observed expected = do
  validate_identity observed
  validate_identity expected
  ensure (same_identity observed expected) helper_identity_mismatch

pub data HandshakePeer : Type 0 where
  client helper : HandshakePeer

pub record HelloFields : Type 0 where
  pub hello_version : ℕ
  pub max_chunk : ℕ
  pub max_window : ℕ
  pub resume : Bool
  pub has_sha256 : Bool
  pub fsync : Bool
  pub no_replace : Bool

pub record BeginPush : Type 0 where
  pub transfer_id : Bytes
  pub target : Bytes
  pub size : ℕ
  pub sha256 : Bytes
  pub resume_token : Bytes
  pub resume : Bool

pub record BeginPull : Type 0 where
  pub transfer_id : Bytes
  pub source : Bytes
  pub offset : ℕ

pub record Ready : Type 0 where
  pub chunk : ℕ
  pub window : ℕ
  pub durable_offset : ℕ

pub record PullReady : Type 0 where
  pub chunk : ℕ
  pub window : ℕ
  pub size : ℕ
  pub sha256 : Bytes
  pub start_offset : ℕ

pub record Ack : Type 0 where
  pub confirmed_offset : ℕ
  pub durable_offset : ℕ
  pub receiver_window : ℕ

pub record Failure : Type 0 where
  pub code : Bytes
  pub message : Bytes
  pub outcome_unknown : Bool

pub data Control : Type 0 where
  helper_hello : HelloFields → HelperRuntimeIdentity → Control
  hello : HelloFields → Control
  begin_push : BeginPush → Control
  begin_pull : BeginPull → Control
  ready : Ready → Control
  pull_ready : PullReady → Control
  ack : Ack → Control
  commit : Control
  completed : ℕ → Bytes → Control
  cancel : Control
  error : Failure → Control

unfoldable pub validate_hello_limits : HelloFields → Result TransferError (Unit {0})
validate_hello_limits h = do
  ensure (h.hello_version == version) hello_version_mismatch
  ensure (in_range 1 max_chunk_bytes h.max_chunk) bad_hello_chunk
  ensure (in_range h.max_chunk max_window_bytes h.max_window) bad_hello_window

unfoldable pub validate_limits : ℕ → ℕ → Result TransferError (Unit {0})
validate_limits chunk window = do
  ensure (in_range 1 max_chunk_bytes chunk) bad_chunk
  ensure (in_range chunk max_window_bytes window) bad_window

abbrev pub is_code_byte : ℕ → Bool
is_code_byte b = is_ascii_lowercase b || is_ascii_digit b || b == 95 || b == 45 || b == 46

-- `Control::validate`
unfoldable pub validate : Control → Result TransferError (Unit {0})
unfolding validate_hello_limits validate_identity validate_transfer_id validate_path validate_sha256
    validate_limits
validate (helper_hello h identity) = validate_hello_limits h >> validate_identity identity
validate (hello h) = validate_hello_limits h
validate (begin_push b) =
    validate_transfer_id b.transfer_id
    >> validate_path b.target
    >> validate_sha256 b.sha256
    >> validate_sha256 b.resume_token
validate (begin_pull b) = validate_transfer_id b.transfer_id >> validate_path b.source
validate (ready r) = validate_limits r.chunk r.window
validate (pull_ready r) =
    validate_limits r.chunk r.window
    >> ensure (leb r.start_offset r.size) start_beyond_size
    >> validate_sha256 r.sha256
validate (ack a) =
    ensure (leb a.durable_offset a.confirmed_offset) durable_beyond_confirmed
    >> ensure (in_range 1 max_window_bytes a.receiver_window) bad_receiver_window
validate commit = ok tt
validate (completed size sha256) = validate_sha256 sha256
validate cancel = ok tt
validate (error e) =
    ensure
      (not (is_empty e.code) && leb (length e.code) max_error_code_bytes && all is_code_byte e.code)
      bad_error_code
    >> ensure (not (contains_byte 0 e.message)) error_message_nul

unfoldable pub validate_handshake_sender : HandshakePeer → Control → Result TransferError (Unit {0})
unfolding validate
validate_handshake_sender helper (helper_hello h i) = validate (helper_hello h i)
validate_handshake_sender client (hello h) = validate (hello h)
validate_handshake_sender helper (hello h) = err client_hello_from_helper
validate_handshake_sender client (helper_hello h i) = err helper_hello_from_client
validate_handshake_sender helper c = err not_a_hello
validate_handshake_sender client c = err not_a_hello
