-- ===== src/AddrMangle/Tests.antt =====
-- Runs of `AddrMangle`, and its theorems at concrete inputs.
use pc_trade.Prelude.{◌≡◌, refl, [], ◌∷◌, arith}
use pc_trade.AddrMangle.{SocketAddr, v4, v6, try_into_v4, encode, decode}
use pc_trade.AddrMangle.RoundTrip.{decode-encode_address, without_scope}

abbrev home : SocketAddr
home = v4 (192 ∷ 168 ∷ 16 ∷ 32 ∷ []) 21116

abbrev loopback : SocketAddr
loopback = v6 (0 ∷ 0 ∷ 0 ∷ 0 ∷ 0 ∷ 0 ∷ 0 ∷ 0 ∷ 0 ∷ 0 ∷ 0 ∷ 0 ∷ 0 ∷ 0 ∷ 0 ∷ 1 ∷ []) 80 0 0

abbrev mapped : SocketAddr
mapped = v6 (0 ∷ 0 ∷ 0 ∷ 0 ∷ 0 ∷ 0 ∷ 0 ∷ 0 ∷ 0 ∷ 0 ∷ 255 ∷ 255 ∷ 1 ∷ 2 ∷ 3 ∷ 4 ∷ []) 80 0 0

loopback_stays : try_into_v4 loopback ≡ loopback
unfolding try_into_v4
loopback_stays = refl

mapped_is_v4 : try_into_v4 mapped ≡ v4 (1 ∷ 2 ∷ 3 ∷ 4 ∷ []) 80
unfolding try_into_v4
mapped_is_v4 = refl

decode-encode_address_example : decode (encode 1234567 home) ≡ without_scope (try_into_v4 home)
decode-encode_address_example = decode-encode_address 1234567 home (omega arith)

decode-encode_address_mapped : decode (encode 99 mapped) ≡ without_scope (try_into_v4 mapped)
decode-encode_address_mapped = decode-encode_address 99 mapped (omega arith)

-- A link-local address with the scope 3 loses it.
abbrev link_local : SocketAddr
link_local = v6 (254 ∷ 128 ∷ 0 ∷ 0 ∷ 0 ∷ 0 ∷ 0 ∷ 0 ∷ 0 ∷ 0 ∷ 0 ∷ 0 ∷ 0 ∷ 0 ∷ 0 ∷ 1 ∷ []) 80 0 3

scope_lost : decode (encode 99 link_local) ≡ without_scope link_local
unfolding try_into_v4
scope_lost = decode-encode_address 99 link_local (omega arith)
