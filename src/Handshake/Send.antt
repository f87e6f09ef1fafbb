-- ===== src/Handshake/Send.antt =====
-- src/SecretHandshake.cc, `copyBytesToSend`: a message may be taken in pieces of any size.
use secret_handshake_capnp.Common.{
  ℕ, ◌+◌, Bytes, List, [], ◌∷◌, Option, none, some, ◌++◌, drop, Outcome, ok, fault,
}
use secret_handshake_capnp.Crypto.{Crypto}
use secret_handshake_capnp.Handshake

-- What a call of `copyBytesToSend` wrote.
abbrev written : Outcome (Option Bytes) → Bytes
written (ok (some bytes)) = bytes
written (ok none) = []
written (fault e) = []

-- A call for each capacity, and everything that they wrote.
unfoldable pub copy_all : Crypto → List ℕ → Handshake.Handshake → Bytes × Handshake.Handshake
copy_all c [] h = ([], h)
copy_all c (n ∷ ns) h =
    let (r, h') = Handshake.copy_bytes_to_send c n h in
    let (bytes, h'') = copy_all c ns h' in (written r ++ bytes, h'')

abbrev pub total : List ℕ → ℕ
total [] = 0
total (n ∷ ns) = n + total ns

abbrev without : ℕ → Handshake.Handshake → Handshake.Handshake
without n h = record h { output_buffer = drop n h.output_buffer }

abbrev with_output : Handshake.Handshake → Bytes → Handshake.Handshake
with_output h o = record h { output_buffer = o }
