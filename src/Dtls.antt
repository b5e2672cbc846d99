-- ===== src/Dtls.antt =====
-- `DTLSPSKServer`: custom_components/hue_entertainment/dtls_psk/server.py; what the event loop and OpenSSL
-- call. Session has the thread. The byte strings are lists of numbers.
pub mod Session
pub mod Reads
pub mod Streamed
pub mod Freed
pub mod Keys
pub mod HandedOn
use ha_hue_entertainment.Prelude.{
  ℕ, Bool, true, false, not, ◌&&◌, String, Option, none, some, List, [], ◌∷◌, ltb, ◌==◌,
  if◌then◌else◌, length,
}
use ha_hue_entertainment.Prelude.Calls.{Called, returned, os_error, other_error, Started}
use ha_hue_entertainment.HueApi.{HueApiServer, get_user_psk}

abbrev pub Bytes : Type 0
Bytes = List ℕ

-- `psk_lookup` of __init__.py, lines 229-233: `fromhex` is bytes.fromhex, `none` where it raises.
abbrev pub decoded_key : Option Bytes → Called (Option Bytes)
decoded_key none = other_error
decoded_key (some key) = returned (some key)

abbrev pub key_bytes : (String → Option Bytes) → Option String → Called (Option Bytes)
key_bytes fromhex none = returned none
key_bytes fromhex (some hex_key) = decoded_key (fromhex hex_key)

unfoldable pub psk_lookup : (String → Option Bytes) → HueApiServer → String → Called (Option Bytes)
unfolding get_user_psk
psk_lookup fromhex api identity = key_bytes fromhex (get_user_psk api identity)

-- The number that OpenSSL is given back, and what is copied to its buffer.
pub record Psk : Type 0 where
  pub size : ℕ
  pub buffer : Bytes

abbrev pub no_psk : Psk
no_psk = record { size = 0; buffer = [] }

abbrev pub checked_psk : ℕ → Called (Option Bytes) → Psk
checked_psk max_psk_len (returned none) = no_psk
checked_psk max_psk_len (returned (some key)) =
    if ltb max_psk_len (length key) then no_psk else record { size = length key; buffer = key }
checked_psk max_psk_len os_error = no_psk
checked_psk max_psk_len other_error = no_psk

-- `identity` is what `ffi.string(identity).decode()` gives, `none` where it raises.
unfoldable pub psk_server_callback : (String → Called (Option Bytes)) → Option String → ℕ → Psk
psk_server_callback psk_callback none max_psk_len = no_psk
psk_server_callback psk_callback (some identity) max_psk_len =
    checked_psk max_psk_len (psk_callback identity)

-- The tag is the first 16 bytes of hmac.new(_cookie_secret, b"dtls-cookie", "sha256").digest().
unfoldable pub cookie_generate : Bytes → Bytes × ℕ × ℕ
cookie_generate tag = (tag, length tag, 1)

unfoldable pub same_bytes : Bytes → Bytes → Bool
same_bytes [] [] = true
same_bytes [] (b ∷ bs) = false
same_bytes (a ∷ rest) [] = false
same_bytes (a ∷ rest) (b ∷ bs) = (a == b) && same_bytes rest bs

-- `received` is the first `cookie_len` bytes at the pointer.
unfoldable pub cookie_verify : Bytes → Bytes → ℕ → ℕ
unfolding same_bytes
cookie_verify tag received cookie_len =
    if cookie_len == length tag then (if same_bytes received tag then 1 else 0) else 0

-- What the event loop sees of the server.
pub record DtlsServer : Type 0 where
  pub running : Bool
  pub thread : Bool  -- a thread was started and is alive
  pub context : Bool  -- `_ssl_ctx` is not NULL
  pub psk_cb : Bool  -- `_psk_cb_handle` is kept
  pub loop : Bool  -- `_loop` is not None

-- As the set-up of an entry makes it: with `loop=None`.
abbrev pub new_server : DtlsServer
new_server = record {
  running = false;
  thread = false;
  context = false;
  psk_cb = false;
  loop = false;
}

-- `_setup_ctx`: SSL_CTX_new gives a context, or NULL and the method raises RuntimeError.
unfoldable pub setup_ctx : Bool → DtlsServer → Started DtlsServer
setup_ctx ok s =
    if ok
    then record { after = record s { context = true; psk_cb = true }; result = returned tt }
    else record { after = record s { context = false }; result = other_error }

-- The thread, where the set-up has returned.
abbrev pub with_thread : Called Unit → DtlsServer → Started DtlsServer
with_thread (returned u) s = record { after = record s { thread = true }; result = returned tt }
with_thread os_error s = record { after = s; result = os_error }
with_thread other_error s = record { after = s; result = other_error }

abbrev pub then_thread : Started DtlsServer → Started DtlsServer
then_thread s = with_thread s.result s.after

unfoldable pub async_start : Bool → DtlsServer → Started DtlsServer
unfolding setup_ctx
async_start ok s =
    if s.running
    then record { after = s; result = returned tt }
    else then_thread (setup_ctx ok (record s { loop = true; running = true }))

-- `_serve_loop` begins: a thread that cannot make, set up or bind its socket logs that and ends.
unfoldable pub socket_bound : Bool → DtlsServer → DtlsServer
socket_bound bound s = record s { thread = s.thread && bound }

-- `joined`: the thread ends within five poll intervals. The context is freed either way.
unfoldable pub async_stop : Bool → DtlsServer → DtlsServer
async_stop joined s = record s {
  running = false;
  thread = s.thread && not joined;
  context = false;
  psk_cb = false;
}
