-- ===== src/Tcp/Nonces.antt =====
-- The nonces under which tcp.rs seals.
use pc_trade.Prelude.{
  ℕ, ◌+◌, ◌^◌, ◌<◌, ◌≡◌, ◌≢◌, refl, sym, ap, ap₂, ◌∙◌, List, [], ◌∷◌, ◌++◌, arith, length,
  replicate, take, take-append,
}
use pc_trade.Prelude.Bytes.{le_bytes, from_le, from_le-le_bytes, length-le_bytes}
use pc_trade.Tcp.{Box, Encrypt, new, get_nonce, bump, enc}

-- The encryption after so many messages were sealed.
unfoldable pub after : Box → Encrypt → List (List ℕ) → Encrypt
unfolding enc
after box e [] = e
after box e (m ∷ ms) = after box (enc box e m).1 ms

get_nonce_inj : (i j : ℕ) → i < 2 ^ 64 → j < 2 ^ 64 → get_nonce i ≡ get_nonce j → i ≡ j
unfolding get_nonce
get_nonce_inj i j hi hj e =
    sym (from_le-le_bytes 8 i (omega arith))
    ∙ ap from_le (sym (eight i) ∙ ap (take 8) e ∙ eight j)
    ∙ from_le-le_bytes 8 j (omega arith)
  where
    eight : (n : ℕ) → take 8 (le_bytes 8 n ++ replicate 16 0) ≡ le_bytes 8 n
    eight n = take-append 8 (le_bytes 8 n) (replicate 16 0) (sym (length-le_bytes 8 n))

sealed-after :
    (box : Box) (e : Encrypt) (ms : List (List ℕ))
    → e.sealed + length ms < 2 ^ 64
    → ((after box e ms).sealed ≡ e.sealed + length ms) × ((after box e ms).key ≡ e.key)
unfolding after enc
sealed-after box e [] h = (omega arith, refl)
sealed-after box e (m ∷ ms) h =
    let next : bump e.sealed ≡ e.sealed + 1 = omega arith in
    let (count, key) = sealed-after box (enc box e m).1 ms (omega arith) in (omega arith, key)

-- What is sealed after `ms` by one end of a connection, under a nonce that depends on the count of
-- the messages alone: no two messages of one end have the same nonce, but the messages of the same
-- place of both ends have, under the same key. (For fewer than 2 ^ 63 messages of
-- each.)
pub nonce_lem :
    (box : Box) (key : List ℕ) (ms ns : List (List ℕ)) (m n : List ℕ)
    → length ms < 2 ^ 63
    → length ns < 2 ^ 63
    → ((enc box (after box (new key) ms) m).0 ≡ box.seal m (get_nonce (length ms + 1)) key)
      × (length ms ≢ length ns → get_nonce (length ms + 1) ≢ get_nonce (length ns + 1))
      × (length ms ≡ length ns
          → (enc box (after box (new key) ns) n).0 ≡ box.seal n (get_nonce (length ms + 1)) key)
unfolding enc new
nonce_lem box key ms ns m n hm hn = (
  sealed_at ms m hm,
  λ ne e.
      ne (
        omega (arith, get_nonce_inj (length ms + 1) (length ns + 1) (omega arith) (omega arith) e)),
  λ e. sealed_at ns n hn ∙ ap (λ k. box.seal n (get_nonce (k + 1)) key) (sym e),
)
  where
    sealed_at :
        (ms : List (List ℕ)) (m : List ℕ)
        → length ms < 2 ^ 63
        → (enc box (after box (new key) ms) m).0 ≡ box.seal m (get_nonce (length ms + 1)) key
    sealed_at ms m h =
        let (count, same_key) = sealed-after box (new key) ms (omega arith) in
        let place : bump (after box (new key) ms).sealed ≡ length ms + 1 = omega arith in
        ap₂ (λ i k. box.seal m (get_nonce i) k) place same_key
