-- ===== src/Tcp/Tests.antt =====
-- A secured connection of tcp.rs with a toy sealing.
use pc_trade.Prelude.{ℕ, ◌≡◌, ◌≢◌, refl, List, [], ◌∷◌, ◌++◌, none, some, ok, arith, drop}
use pc_trade.BytesCodec.{BytesCodec, decode}
use pc_trade.BytesCodec
use pc_trade.BytesCodec.Stream.{here, next, arrive, deliver}
use pc_trade.Tcp.{Box, Encrypt, get_nonce, enc, dec, decryption_error}
use pc_trade.Tcp
use pc_trade.Tcp.Session.{Opens, send_all, next_all, secured, session_lem}
use pc_trade.Tcp.Nonces.{after, nonce_lem}

-- Sixteen zeros in front.
abbrev zeros_box : Box
zeros_box = record {
  seal = λ bytes nonce key. 0 ∷ 0 ∷ 0 ∷ 0 ∷ 0 ∷ 0 ∷ 0 ∷ 0 ∷ 0 ∷ 0 ∷ 0 ∷ 0 ∷ 0 ∷ 0 ∷ 0 ∷ 0 ∷ bytes;
  unseal = λ bytes nonce key. some (drop 16 bytes);
  box_open = λ bytes nonce their_pk our_sk. none;
}

zeros_box-Opens : Opens zeros_box
zeros_box-Opens = record {
  unseal = λ bytes nonce key. refl;
  longer = λ bytes nonce key. omega arith;
}

abbrev key : List ℕ
key = 7 ∷ []

-- A frame of one byte is taken as it is, by a secured stream too.
short_frame : (dec zeros_box (Tcp.new key) (9 ∷ [])).0 ≡ ok (9 ∷ [])
unfolding dec
short_frame = refl

abbrev frame : List ℕ
frame = 0 ∷ 0 ∷ 0 ∷ 0 ∷ 0 ∷ 0 ∷ 0 ∷ 0 ∷ 0 ∷ 0 ∷ 0 ∷ 0 ∷ 0 ∷ 0 ∷ 0 ∷ 0 ∷ 5 ∷ []

session_lem_example :
    ((begun : List (List ℕ)) × (rest : List (List ℕ)) × (begun ++ rest ≡ (5 ∷ []) ∷ [])
      × (next_all zeros_box (secured BytesCodec.new (Tcp.new key)) (frame ∷ []) ≡ ok begun))
    × (◌≡◌ {A = List ℕ} [] []
        → (decode BytesCodec.new []).result ≡ ok none
        → next_all zeros_box (secured BytesCodec.new (Tcp.new key)) (frame ∷ [])
          ≡ ok ((5 ∷ []) ∷ []))
unfolding Tcp.new send_all decode BytesCodec.decode_head BytesCodec.decode_payload
session_lem_example =
    session_lem zeros_box zeros_box-Opens BytesCodec.new (Tcp.new key) (Tcp.new key) ((5 ∷ []) ∷ [])
      _ refl refl refl refl ((omega arith, omega arith), tt)
      (next (next here (arrive (68 ∷ frame) [] refl)) (deliver frame refl))

nonce_lem_example :
    ((enc zeros_box (after zeros_box (Tcp.new key) ((1 ∷ []) ∷ [])) (5 ∷ [])).0
      ≡ zeros_box.seal (5 ∷ []) (get_nonce 2) key)
    × (◌≢◌ {A = ℕ} 1 0 → get_nonce 2 ≢ get_nonce 1)
    × (◌≡◌ {A = ℕ} 1 0
        → (enc zeros_box (after zeros_box (Tcp.new key) []) (6 ∷ [])).0
          ≡ zeros_box.seal (6 ∷ []) (get_nonce 2) key)
nonce_lem_example =
    nonce_lem zeros_box key ((1 ∷ []) ∷ []) [] (5 ∷ []) (6 ∷ []) (omega arith) (omega arith)
