-- ===== src/CApi/Layout.antt =====
-- include/SecretHandshake.h and include/SecretStream.h: the C structs and enumerations, and the casts
-- between them and those of C++, which read the memory of one as the other.
use secret_handshake_capnp.Common.{
  ℕ, ◌≡◌, refl, ap, ◌∙◌, Bytes, Option, none, some, List, [], ◌∷◌, ◌++◌, length, range, take, drop,
  take-append, drop-append, take_all, get_elem?, arith,
}
use secret_handshake_capnp.Keys.{KeyPair, IsKeyPair, data_of, from_bytes-data}
use secret_handshake_capnp.Shs.{Session}
use secret_handshake_capnp.Handshake.{Error, no_error, protocol_error, auth_error}
use secret_handshake_capnp.Stream.Box.{
  Status, success, out_too_small, incomplete_input, corrupt_data, Protocol, compact, box_stream,
  PeekResult,
}
use secret_handshake_capnp.CApi.{ShsKeyPair, shs_key_pair, erase}

-- `SHSSession`
pub record ShsSession : Type 0 where
  pub encryption_key : Bytes
  pub encryption_nonce : Bytes
  pub decryption_key : Bytes
  pub decryption_nonce : Bytes
  pub peer_public_key : Bytes

-- The sizes of `SessionKey` and of a public key, and of `Nonce`
abbrev pub key_size : ℕ
key_size = 32

abbrev pub nonce_size : ℕ
nonce_size = 24

-- The members of a `Session`, in memory one after the other, and what is read of such
-- memory, with keys of one size and nonces of another.
abbrev pub session_memory : Session → Bytes
session_memory s =
    s.encryption_key
    ++ (s.encryption_nonce ++ (s.decryption_key ++ (s.decryption_nonce ++ s.peer_public_key)))

abbrev pub session_at : ℕ → ℕ → Bytes → Session
session_at k n memory = record {
  encryption_key = take k memory;
  encryption_nonce = take n (drop k memory);
  decryption_key = take k (drop n (drop k memory));
  decryption_nonce = take n (drop k (drop n (drop k memory)));
  peer_public_key = take k (drop n (drop k (drop n (drop k memory))));
}

-- The same of an `SHSSession`.
abbrev pub shs_session_memory : ShsSession → Bytes
shs_session_memory s =
    s.encryption_key
    ++ (s.encryption_nonce ++ (s.decryption_key ++ (s.decryption_nonce ++ s.peer_public_key)))

abbrev pub shs_session_at : ℕ → ℕ → Bytes → ShsSession
shs_session_at k n memory = record {
  encryption_key = take k memory;
  encryption_nonce = take n (drop k memory);
  decryption_key = take k (drop n (drop k memory));
  decryption_nonce = take n (drop k (drop n (drop k memory)));
  peer_public_key = take k (drop n (drop k (drop n (drop k memory))));
}

-- `(SHSSession&)s` and `*(Session*)session`
abbrev pub shs_session_of : Session → ShsSession
shs_session_of s = shs_session_at key_size nonce_size (session_memory s)

abbrev pub session_of : ShsSession → Session
session_of s = session_at key_size nonce_size (shs_session_memory s)

-- `~Session` and `SHSSession_Erase`: all of the memory is wiped.
abbrev pub wipe_session : (Bytes → Bytes) → Session → Session
wipe_session wipe s = session_at key_size nonce_size (wipe (session_memory s))

abbrev pub shs_session_erase : (Bytes → Bytes) → ShsSession → ShsSession
shs_session_erase wipe s = shs_session_at key_size nonce_size (erase wipe (shs_session_memory s))

pub record IsSession (k n : ℕ) (s : Session) : Type 0 where
  pub encryption_key_size : length s.encryption_key ≡ k
  pub encryption_nonce_size : length s.encryption_nonce ≡ n
  pub decryption_key_size : length s.decryption_key ≡ k
  pub decryption_nonce_size : length s.decryption_nonce ≡ n
  pub peer_size : length s.peer_public_key ≡ k

-- The same members under the names of C.
abbrev pub renamed : Session → ShsSession
renamed s = record {
  encryption_key = s.encryption_key;
  encryption_nonce = s.encryption_nonce;
  decryption_key = s.decryption_key;
  decryption_nonce = s.decryption_nonce;
  peer_public_key = s.peer_public_key;
}

-- Both casts keep each member.
session_casts :
    (k n : ℕ) (s : Session)
    → IsSession k n s
    → (shs_session_at k n (session_memory s) ≡ renamed s)
      × (session_at k n (shs_session_memory (renamed s)) ≡ s)
session_casts k n s v =
    let memory : Bytes = session_memory s in
    let r4 : Bytes = s.decryption_nonce ++ s.peer_public_key in
    let r3 : Bytes = s.decryption_key ++ r4 in
    let r2 : Bytes = s.encryption_nonce ++ r3 in
    let d1 : drop k memory ≡ r2 = drop-append k s.encryption_key r2 v.encryption_key_size in
    let d2 : drop n (drop k memory) ≡ r3 =
      ap (drop n) d1 ∙ drop-append n s.encryption_nonce r3 v.encryption_nonce_size in
    let d3 : drop k (drop n (drop k memory)) ≡ r4 =
      ap (drop k) d2 ∙ drop-append k s.decryption_key r4 v.decryption_key_size in
    let d4 : drop n (drop k (drop n (drop k memory))) ≡ s.peer_public_key =
      ap (drop n) d3 ∙ drop-append n s.decryption_nonce s.peer_public_key v.decryption_nonce_size in
    let e1 : take k memory ≡ s.encryption_key =
      take-append k s.encryption_key r2 v.encryption_key_size in
    let e2 : take n (drop k memory) ≡ s.encryption_nonce =
      ap (take n) d1 ∙ take-append n s.encryption_nonce r3 v.encryption_nonce_size in
    let e3 : take k (drop n (drop k memory)) ≡ s.decryption_key =
      ap (take k) d2 ∙ take-append k s.decryption_key r4 v.decryption_key_size in
    let e4 : take n (drop k (drop n (drop k memory))) ≡ s.decryption_nonce =
      ap (take n) d3 ∙ take-append n s.decryption_nonce s.peer_public_key v.decryption_nonce_size in
    let e5 : take k (drop n (drop k (drop n (drop k memory)))) ≡ s.peer_public_key =
      ap (take k) d4 ∙ take_all k s.peer_public_key (omega (arith, v.peer_size)) in
    (cc, cc)

-- `(const SHSKeyPair&)pair`, of the memory of the pair
abbrev pub shs_key_pair_at : Bytes → ShsKeyPair
shs_key_pair_at memory = record { signing_key = range 0 32 memory; public_key = range 32 32 memory }

-- The enumerations, and the numbers of the enumerators of C++
pub data ShsError : Type 0 where
  shs_no_error shs_protocol_error shs_auth_error : ShsError

pub data ShsStatus : Type 0 where
  shs_success shs_out_too_small shs_incomplete_input shs_corrupt_data : ShsStatus

pub data ShsCryptoBoxProtocol : Type 0 where
  shs_compact shs_box_stream : ShsCryptoBoxProtocol

abbrev pub error_number : Error → ℕ
error_number no_error = 0
error_number protocol_error = 1
error_number auth_error = 2

abbrev pub status_number : Status → ℕ
status_number success = 0
status_number out_too_small = 1
status_number incomplete_input = 2
status_number corrupt_data = 3

abbrev pub protocol_number : ShsCryptoBoxProtocol → ℕ
protocol_number shs_compact = 0
protocol_number shs_box_stream = 1

-- The enumerator with a number, by the order in which the other language declares them.
abbrev pub shs_error_at : ℕ → Option ShsError
shs_error_at n = get_elem? (shs_no_error ∷ shs_protocol_error ∷ shs_auth_error ∷ []) n

abbrev pub shs_status_at : ℕ → Option ShsStatus
shs_status_at n =
    get_elem? (shs_success ∷ shs_out_too_small ∷ shs_incomplete_input ∷ shs_corrupt_data ∷ []) n

abbrev pub protocol_at : ℕ → Option Protocol
protocol_at n = get_elem? (compact ∷ box_stream ∷ []) n

-- The enumerator of the same name.
abbrev pub error_renamed : Error → ShsError
error_renamed no_error = shs_no_error
error_renamed protocol_error = shs_protocol_error
error_renamed auth_error = shs_auth_error

abbrev pub status_renamed : Status → ShsStatus
status_renamed success = shs_success
status_renamed out_too_small = shs_out_too_small
status_renamed incomplete_input = shs_incomplete_input
status_renamed corrupt_data = shs_corrupt_data

abbrev pub protocol_renamed : ShsCryptoBoxProtocol → Protocol
protocol_renamed shs_compact = compact
protocol_renamed shs_box_stream = box_stream

error_cast : (e : Error) → shs_error_at (error_number e) ≡ some (error_renamed e)
error_cast no_error = refl
error_cast protocol_error = refl
error_cast auth_error = refl

status_cast : (t : Status) → shs_status_at (status_number t) ≡ some (status_renamed t)
status_cast success = refl
status_cast out_too_small = refl
status_cast incomplete_input = refl
status_cast corrupt_data = refl

protocol_cast :
    (p : ShsCryptoBoxProtocol) → protocol_at (protocol_number p) ≡ some (protocol_renamed p)
protocol_cast shs_compact = refl
protocol_cast shs_box_stream = refl

-- `SHSPeekResult`
pub record ShsPeekResult : Type 0 where
  pub status : ShsStatus
  pub decrypted_size : ℕ
  pub encrypted_size : ℕ

-- The members of a `PeekResult` as words, and the struct that `memcpy` makes of such words.
abbrev pub peek_words : PeekResult → List ℕ
peek_words r = status_number r.status ∷ r.decrypted_size ∷ r.encrypted_size ∷ []

abbrev with_status : ℕ → ℕ → Option ShsStatus → Option ShsPeekResult
with_status decrypted encrypted none = none
with_status decrypted encrypted (some t) =
    some (record { status = t; decrypted_size = decrypted; encrypted_size = encrypted })

abbrev pub shs_peek_result_at : List ℕ → Option ShsPeekResult
shs_peek_result_at (t ∷ decrypted ∷ encrypted ∷ rest) =
    with_status decrypted encrypted (shs_status_at t)
shs_peek_result_at words = none

-- The casts and copies with which the C functions hand over structs and enumerators, in both languages'
-- layouts: members of the right sizes stay what they are, under the names of C, and an enumerator
-- becomes the one of the same name; a session that is cast to C and back is the same.
pub casts_keep_members :
    (s : Session) (pair : KeyPair) (e : Error) (p : ShsCryptoBoxProtocol) (r : PeekResult)
    → IsSession key_size nonce_size s
    → IsKeyPair pair
    → (shs_session_of s ≡ renamed s)
      × (session_of (shs_session_of s) ≡ s)
      × (shs_key_pair_at (data_of pair) ≡ shs_key_pair pair)
      × (shs_error_at (error_number e) ≡ some (error_renamed e))
      × (protocol_at (protocol_number p) ≡ some (protocol_renamed p))
      × (shs_peek_result_at (peek_words r)
          ≡ some (record {
            status = status_renamed r.status;
            decrypted_size = r.decrypted_size;
            encrypted_size = r.encrypted_size;
          }))
casts_keep_members s pair e p r v w =
    let (there, back) = session_casts key_size nonce_size s v in
    (
      there,
      ap session_of there ∙ back,
      ap shs_key_pair (from_bytes-data pair w),
      error_cast e,
      protocol_cast p,
      ap (with_status r.decrypted_size r.encrypted_size) (status_cast r.status),
    )
