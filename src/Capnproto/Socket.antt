-- ===== src/Capnproto/Socket.antt =====
-- capnproto/SecretConnection.cc, class `WrappedStream`: the methods that only call the inner stream, and
-- the name of the peer. `getpeername` and the others belong to KJ, and `inet_ntop` to the system: they
-- are arguments.
use secret_handshake_capnp.Common.{
  ℕ, ◌≡◌, ap, ap₂, ◌∙◌, Bytes, Bool, Option, none, some, [], ◌++◌, length, drop, take, range,
  if◌then◌else◌, append_assoc, length-append, take-append, drop-append, arith,
}
use secret_handshake_capnp.Async.{Async, ◌>>=◌, pure}
use secret_handshake_capnp.Capnproto.Connection.{AsyncIoStream, WrappedStream, on_inner}
use secret_handshake_capnp.Capnproto.Wrapper.{PeerIdentity, no_identity, shs_identity}

-- The methods of `kj::AsyncIoStream` for sockets. An option or an address is given with the size of the
-- caller's buffer, and comes as the bytes that are written to it.
pub record Socket (S : Type 0) : Type 0 where
  pub when_write_disconnected : Async S (Unit {0})
  pub getsockopt : ℕ → ℕ → ℕ → Async S Bytes
  pub setsockopt : ℕ → ℕ → Bytes → Async S (Unit {0})
  pub getsockname : ℕ → Async S Bytes
  pub getpeername : ℕ → Async S Bytes
  pub get_fd : S → Option ℕ

module _ {S : Type 0} (io : AsyncIoStream S) (socket : Socket S) where
  abbrev pub shutdown_write : WrappedStream S → WrappedStream S
  shutdown_write s = record s { inner = io.shutdown_write s.inner }

  abbrev pub abort_read : WrappedStream S → WrappedStream S
  abort_read s = record s { inner = io.abort_read s.inner }

  abbrev pub when_write_disconnected : Async (WrappedStream S) (Unit {0})
  when_write_disconnected = on_inner socket.when_write_disconnected

  abbrev pub getsockopt : ℕ → ℕ → ℕ → Async (WrappedStream S) Bytes
  getsockopt level option size = on_inner (socket.getsockopt level option size)

  abbrev pub setsockopt : ℕ → ℕ → Bytes → Async (WrappedStream S) (Unit {0})
  setsockopt level option value = on_inner (socket.setsockopt level option value)

  abbrev pub getsockname : ℕ → Async (WrappedStream S) Bytes
  getsockname size = on_inner (socket.getsockname size)

  abbrev pub getpeername : ℕ → Async (WrappedStream S) Bytes
  getpeername size = on_inner (socket.getpeername size)

  abbrev pub get_fd : WrappedStream S → Option ℕ
  get_fd s = socket.get_fd s.inner

-- `sizeof(sockaddr_in6)`, and the buffer after the system wrote an address at its start.
abbrev pub address_size : ℕ
address_size = 28

abbrev pub overwritten : Bytes → Bytes → Bytes
overwritten bytes buffer = bytes ++ drop (length bytes) buffer

-- What `inet_ntop` leaves in the buffer for the name, which was empty.
abbrev pub name_or_empty : Option Bytes → Bytes
name_or_empty none = []
name_or_empty (some name) = name

module _ (family_of : Bytes → ℕ) (inet_ntop : ℕ → Bytes → Option Bytes) where
  -- The family is in the first two bytes; the 16 bytes of `sin6_addr` are at offset 8.
  abbrev pub name_of_address : Bytes → Bytes
  name_of_address addr = name_or_empty (inet_ntop (family_of (take 2 addr)) (range 8 16 addr))

  -- The function `getPeerName`, on a stack with these bytes.
  unfoldable pub get_peer_name_of : {S : Type 0} → (ℕ → Async S Bytes) → Bytes → Async S Bytes
  get_peer_name_of getpeername stack = do
    bytes ← getpeername address_size
    pure (name_of_address (overwritten bytes stack))

  -- The method of that name
  unfoldable pub get_peer_name :
      {S : Type 0} → AsyncIoStream S → Socket S → Bool → Bytes → Async (WrappedStream S) Bytes
  unfolding get_peer_name_of
  get_peer_name io socket is_socket stack =
      if is_socket then get_peer_name_of (getpeername io socket) stack else pure []

  -- The name of a peer whose address is a `sockaddr_in`, of family, port, address and 8 bytes of padding,
  -- does not depend on the address: `inet_ntop` is given the padding.
  ipv4_name_lem :
      (head port address padding stack : Bytes)
      → length head ≡ 2
      → length port ≡ 2
      → length address ≡ 4
      → length padding ≡ 8
      → name_of_address (overwritten ((head ++ (port ++ address)) ++ padding) stack)
        ≡ name_or_empty (inet_ntop (family_of head) (take 16 (padding ++ drop 16 stack)))
  ipv4_name_lem head port address padding stack h p a q =
      let front : Bytes = head ++ (port ++ address) in
      let size : length front ≡ 8 =
        omega (arith, length-append head (port ++ address), length-append port address) in
      let whole : length (front ++ padding) ≡ 16 = omega (arith, length-append front padding) in
      let rest : Bytes = padding ++ drop 16 stack in
      let memory : overwritten (front ++ padding) stack ≡ front ++ rest =
        ap (λ n. (front ++ padding) ++ drop n stack) whole
        ∙ append_assoc front padding (drop 16 stack) in
      let family : take 2 (front ++ rest) ≡ head =
        ap (take 2) (append_assoc head (port ++ address) rest)
        ∙ take-append 2 head ((port ++ address) ++ rest) h in
      let back : drop 8 (front ++ rest) ≡ rest = drop-append 8 front rest size in
      ap name_of_address memory
      ∙ ap₂ (λ x y. name_or_empty (inet_ntop (family_of x) (take 16 y))) family back

-- `SHSPeerIdentity`: `publicKey` and `inner`
abbrev pub public_key_of : PeerIdentity → Option Bytes
public_key_of (shs_identity key inner) = some key
public_key_of i = none

abbrev pub inner_identity : PeerIdentity → PeerIdentity
inner_identity (shs_identity key inner) = inner
inner_identity i = no_identity
