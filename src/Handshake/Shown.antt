-- ===== src/Handshake/Shown.antt =====
-- src/SecretHandshake.cc: what a wrapper's session shows of the peer.
use secret_handshake_capnp.Common.{◌≡◌, Bytes, Option, none, some, ◌++◌}
use secret_handshake_capnp.Crypto.{Crypto}
use secret_handshake_capnp.Shs.{Session}
use secret_handshake_capnp.Handshake.{Context}
use secret_handshake_capnp.Handshake.Final.{Signed, Final, Final-server, Final-client}
use secret_handshake_capnp.Handshake.Trust.{Start, as_client, as_server, role_of, asked_for}

-- What the session of a client's connection, which asks for a key, or of a server's shows of the peer.
abbrev pub Shown : Crypto → Context → Bytes → Option Bytes → Session → Type 0
Shown c context x (some key) s =
    (s.peer_public_key ≡ key)
    × ((mine : Bytes) × Signed c context.app_id x key (mine ++ context.public_key))
Shown c context x none s = Signed c context.app_id x s.peer_public_key context.public_key

-- The handshake that it came from.
abbrev pub side : Option Bytes → Start
side (some key) = as_client key
side none = as_server none

pub Final-Shown :
    (c : Crypto) (context : Context) (x : Bytes) (key : Option Bytes) (s : Session)
    → Final c context.app_id context.public_key x (asked_for (side key)) (role_of (side key)) s
    → Shown c context x key s
Final-Shown c context x (some key) s f = Final-client c context.app_id context.public_key x key s f
Final-Shown c context x none s f = (Final-server c context.app_id context.public_key x _ none s f).1
