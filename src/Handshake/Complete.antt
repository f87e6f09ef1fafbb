-- ===== src/Handshake/Complete.antt =====
-- src/SecretHandshake.cc: a client's and a server's handshake that talk to one another.
use secret_handshake_capnp.Common.{
  ◌<◌, ◌≡◌, refl, sym, ◌∙◌, Bytes, Bool, true, false, List, [], ◌∷◌, Option, none, some, Outcome,
  ok, fault, is_empty, length, take, take_all, length-take, length-append, ◌==◌, ==_iff, arith,
}
use secret_handshake_capnp.Crypto.{Crypto, IsCrypto}
use secret_handshake_capnp.Shs
use secret_handshake_capnp.Shs.{Session}
use secret_handshake_capnp.Shs.Agreement.{
  new_client, new_server, greeted_client, greeted_server, authed_client, authed_server, greetings,
  server_accepts_auth, client_accepts_ack, auth_h, auth_key, server_ack, with_ack, client_session,
  mirror,
}
use secret_handshake_capnp.Handshake
use secret_handshake_capnp.Handshake.{
  Step, client_challenge, server_challenge, client_auth, finished, Role, Context, client, server,
  next, is_over, bytes_wanted, byte_count_needed, no_error,
}
use secret_handshake_capnp.Handshake.Receive.{
  IsReceiving, feed, flatten, AllNonempty, missing, received_pieces, received_rest,
}
use secret_handshake_capnp.Handshake.Trust.{as_client, as_server, start}
use secret_handshake_capnp.Handshake.Stages.{authorized, authorize_lem}

-- What a call handed out, if it did.
abbrev bytes_of : Outcome Bytes → Bytes
bytes_of (ok bytes) = bytes
bytes_of (fault e) = []

-- One side sends its message, and the other receives it in pieces.
unfoldable pub transmit :
    Crypto
    → (Bytes → List Bytes)
    → Handshake.Handshake × Handshake.Handshake
    → Handshake.Handshake × Handshake.Handshake
transmit c cut (sender, receiver) =
    let (out, sender') = Handshake.bytes_to_send c sender in
    ((Handshake.send_completed c sender').1, feed c (cut (bytes_of out)) receiver)

abbrev swapped : {A : Type 0} → A × A → A × A
swapped (a, b) = (b, a)

-- The four messages, from a client and a server to both.
unfoldable pub converse :
    Crypto
    → (Bytes → List Bytes)
    → Handshake.Handshake × Handshake.Handshake
    → Handshake.Handshake × Handshake.Handshake
converse c cut both =
    let greeted = transmit c cut (swapped (transmit c cut both)) in
    swapped (transmit c cut (swapped (transmit c cut (swapped greeted))))

-- A way to cut messages into pieces, none of them empty.
pub record Cuts (cut : Bytes → List Bytes) : Type 0 where
  pub whole : (m : Bytes) → flatten (cut m) ≡ m
  pub full : (m : Bytes) → AllNonempty (cut m)

-- A handshake between two messages.
abbrev between : Role → Context → Step → Shs.Shs → Handshake.Handshake
between r context s i = record {
  role = r;
  context = context;
  step = s;
  error = no_error;
  impl = i;
  input_buffer = [];
  output_buffer = [];
}

nonempty : (xs : Bytes) → 0 < length xs → is_empty xs ≡ false
nonempty [] h = absurd (omega arith)
nonempty (x ∷ xs) h = refl

module _ (c : Crypto) where
  sent_lem :
      (r : Role) (context : Context) (s t : Step) (i i' : Shs.Shs) (bytes : Bytes)
      → is_over s ≡ false
      → Handshake.produce c r s i ≡ (ok bytes, i')
      → next s ≡ some t
      → 0 < length bytes
      → let (out, h) = Handshake.bytes_to_send c (between r context s i) in
        (out ≡ ok bytes) × ((Handshake.send_completed c h).1 ≡ between r context t i')
  unfolding Handshake.bytes_to_send Handshake.send_completed Handshake.next_step
  sent_lem r context s t i i' bytes running made on some_bytes =
      rw (running, made) (refl, rw (nonempty bytes some_bytes, on) refl)

  received_lem :
      (r : Role) (context : Context) (s t : Step) (i i' : Shs.Shs) (bytes : Bytes)
      → is_over s ≡ false
      → bytes_wanted r s ≡ length bytes
      → 0 < length bytes
      → Handshake.process c r s bytes i ≡ (ok true, i')
      → next s ≡ some t
      → (Handshake.received_bytes c bytes (between r context s i)).1 ≡ between r context t i'
  unfolding Handshake.read_completed Handshake.conclude Handshake.next_step
  received_lem r context s t i i' bytes running wanted some_bytes accepted on =
      let h : Handshake.Handshake = between r context s i in
      let waits : IsReceiving h = record { running = running; waiting = omega arith } in
      let all : take (missing h) bytes ≡ bytes = take_all (missing h) bytes (omega arith) in
      let full : (length bytes == bytes_wanted r s) ≡ true = (==_iff _ _).1 (sym wanted) in
      rw (received_rest c bytes h waits (omega arith), all, full, accepted, on) refl

  module _ (cut : Bytes → List Bytes) (cuts : Cuts cut) where
    transmit_lem :
        (r r' : Role) (x x' : Context) (s s' t t' : Step) (i i' j j' : Shs.Shs) (bytes : Bytes)
        → is_over s ≡ false
        → is_over s' ≡ false
        → next s ≡ some t
        → next s' ≡ some t'
        → Handshake.produce c r s i ≡ (ok bytes, i')
        → Handshake.process c r' s' bytes j ≡ (ok true, j')
        → bytes_wanted r' s' ≡ length bytes
        → 0 < length bytes
        → transmit c cut (between r x s i, between r' x' s' j)
          ≡ (between r x t i', between r' x' t' j')
    unfolding transmit
    transmit_lem r r' x x' s s' t t' i i' j j' bytes running running' on on' made accepted wanted
          some_bytes =
        let h : Handshake.Handshake = between r' x' s' j in
        let waits : IsReceiving h = record { running = running'; waiting = omega arith } in
        let (out, sent) = sent_lem r x s t i i' bytes running made on some_bytes in
        let pieces =
          received_pieces c (cut bytes) h waits (cuts.full bytes) (rw cuts.whole (omega arith)) in
        rw (out, sent, pieces, cuts.whole)
          (rw (received_lem r' x' s' t' j j' bytes running' wanted some_bytes accepted on') refl)

-- A party with its keys in order.
abbrev pub owner : Crypto → Bytes → Bytes → Context
owner c k key = record { app_id = k; signing_key = key; public_key = c.get_public_key key }

module _ {c : Crypto} (laws : IsCrypto c) (k a A b B : Bytes) where
  open c use {get_public_key, kx_public_key}

  begins :
      (r : Option (Bytes → Bool))
      → (start c (owner c k A) a (as_client (get_public_key B))
          ≡ between client (owner c k A) client_challenge (new_client c k A a (get_public_key B)))
        × (start c (owner c k B) b (as_server r)
            ≡ between (server r) (owner c k B) client_challenge (new_server c k B b))
  unfolding start Handshake.create_client Handshake.create_server Handshake.create_handshake
      Handshake.set_client_authorizer new_client new_server
  begins none = (refl, refl)
  begins (some accepts) = (refl, refl)

  length-challenge :
      (s : Shs.Shs) → length s.ephemeral_public ≡ 32 → length (Shs.create_challenge c s) ≡ 64
  unfolding Shs.create_challenge
  length-challenge s size = omega (
    arith,
    length-append (take 32 (c.hmac_sha512 s.app_id s.ephemeral_public)) s.ephemeral_public,
    length-take 32 (c.hmac_sha512 s.app_id s.ephemeral_public),
    laws.hmac_size s.app_id s.ephemeral_public,
  )

  length-auth : length (Shs.box c (auth_key c k a A b B) (auth_h c k a A b B)) ≡ 112
  length-auth =
      laws.xsalsa20_IsCipher.box_size _ _ _
      ∙ omega (
        arith,
        length-append (c.sign A _) (get_public_key A),
        laws.signature_size A _,
        laws.public_size A,
      )

  length-ack : length (server_ack laws k a A b B) ≡ 80
  length-ack = laws.xsalsa20_IsCipher.box_size _ _ _ ∙ omega (arith, laws.signature_size B _)

  allowed :
      (r : Option (Bytes → Bool))
      → authorized r (some (get_public_key A)) ≡ true
      → Handshake.authorize c r true (authed_server c k a A b B)
        ≡ (ok true, authed_server c k a A b B)
  allowed none h = refl
  allowed (some accepts) h = authorize_lem c [] accepts _ (get_public_key A) true refl h

  judged :
      (r : Option (Bytes → Bool))
      → authorized r (some (get_public_key A)) ≡ true
      → Handshake.process c
          (server r)
          client_auth
          (Shs.box c (auth_key c k a A b B) (auth_h c k a A b B))
          (greeted_server c k a A b B)
        ≡ (ok true, authed_server c k a A b B)
  unfolding Handshake.process
  judged r h = rw (server_accepts_auth laws k a A b B) (allowed r h)

  module _ (cut : Bytes → List Bytes) (cuts : Cuts cut) (r : Option (Bytes → Bool)) where
    abbrev cl : Step → Shs.Shs → Handshake.Handshake
    cl s i = between client (owner c k A) s i

    abbrev sv : Step → Shs.Shs → Handshake.Handshake
    sv s i = between (server r) (owner c k B) s i

    abbrev first_client : Shs.Shs
    first_client = new_client c k A a (get_public_key B)

    abbrev first_server : Shs.Shs
    first_server = new_server c k B b

    client_challenges :
        transmit c cut (cl client_challenge first_client, sv client_challenge first_server)
        ≡ (cl server_challenge first_client, sv server_challenge (greeted_server c k a A b B))
    unfolding Handshake.process Handshake.produce new_client Shs.create Shs.set_server_public_key
    client_challenges =
        let size = length-challenge first_client (laws.kx_public_size a) in
        transmit_lem c cut cuts client (server r) (owner c k A) (owner c k B) client_challenge
          client_challenge server_challenge server_challenge first_client first_client first_server
          (greeted_server c k a A b B) (Shs.create_challenge c first_client) refl refl refl refl
          refl (rw (greetings laws k a A b B).0 refl) (sym size) (omega (arith, size))

    server_challenges :
        transmit c cut
          (sv server_challenge (greeted_server c k a A b B), cl server_challenge first_client)
        ≡ (sv client_auth (greeted_server c k a A b B), cl client_auth (greeted_client c k a A b B))
    unfolding Handshake.process Handshake.produce new_server Shs.create
    server_challenges =
        let size = length-challenge (greeted_server c k a A b B) (laws.kx_public_size b) in
        transmit_lem c cut cuts (server r) client (owner c k B) (owner c k A) server_challenge
          server_challenge client_auth client_auth (greeted_server c k a A b B)
          (greeted_server c k a A b B) first_client (greeted_client c k a A b B)
          (Shs.create_challenge c (greeted_server c k a A b B)) refl refl refl refl refl
          (rw (greetings laws k a A b B).1 refl) (sym size) (omega (arith, size))

    client_authenticates :
        authorized r (some (get_public_key A)) ≡ true
        → transmit c cut (
          cl client_auth (greeted_client c k a A b B),
          sv client_auth (greeted_server c k a A b B),
        )
          ≡ (
            cl Handshake.server_ack (authed_client c k a A b B),
            sv Handshake.server_ack (authed_server c k a A b B),
          )
    unfolding Handshake.produce Shs.create_client_auth new_client Shs.create
        Shs.set_server_public_key
    client_authenticates h =
        transmit_lem c cut cuts client (server r) (owner c k A) (owner c k B) client_auth
          client_auth Handshake.server_ack Handshake.server_ack (greeted_client c k a A b B)
          (authed_client c k a A b B) (greeted_server c k a A b B) (authed_server c k a A b B)
          (Shs.box c (auth_key c k a A b B) (auth_h c k a A b B)) refl refl refl refl refl
          (judged r h) (sym length-auth) (omega (arith, length-auth))

    server_acknowledges :
        transmit c cut (
          sv Handshake.server_ack (authed_server c k a A b B),
          cl Handshake.server_ack (authed_client c k a A b B),
        )
        ≡ (
          sv finished (with_ack laws k a A b B (authed_server c k a A b B)),
          cl finished (with_ack laws k a A b B (authed_client c k a A b B)),
        )
    unfolding Handshake.process Handshake.produce Shs.create_server_ack new_server Shs.create
    server_acknowledges =
        transmit_lem c cut cuts (server r) client (owner c k B) (owner c k A) Handshake.server_ack
          Handshake.server_ack finished finished (authed_server c k a A b B)
          (with_ack laws k a A b B (authed_server c k a A b B)) (authed_client c k a A b B)
          (with_ack laws k a A b B (authed_client c k a A b B)) (server_ack laws k a A b B) refl
          refl refl refl refl (client_accepts_ack laws k a A b B) (sym length-ack)
          (omega (arith, length-ack))

    -- A client and a server with the same app ID, the client asking for the server by its public key,
    -- and the server's authorizer, if there is one, accepting the client's, with primitives that
    -- behave as documented: once each of the four messages has been sent and has arrived, in pieces
    -- of any sizes, both handshakes have finished, the client's session is the one of CheatSheet.md,
    -- and the server's is its mirror image with the client's public key as its peer.
    pub converse_completes :
        authorized r (some (get_public_key A)) ≡ true
        → let (client', server') = converse c cut (
          start c (owner c k A) a (as_client (get_public_key B)),
          start c (owner c k B) b (as_server r),
        ) in
          (Handshake.finished? client' ≡ true)
          × (Handshake.finished? server' ≡ true)
          × ((Handshake.session c client').0 ≡ ok (client_session c k a A b B))
          × ((Handshake.session c server').0
              ≡ ok (mirror (get_public_key A) (client_session c k a A b B)))
    unfolding converse Handshake.finished? Handshake.session Shs.get_outcome client_session mirror
        new_client new_server Shs.create Shs.set_server_public_key
    converse_completes h =
        rw
          (
            (begins r).0,
            (begins r).1,
            client_challenges,
            server_challenges,
            client_authenticates h,
            server_acknowledges,
          )
          (refl, refl, refl, refl)
