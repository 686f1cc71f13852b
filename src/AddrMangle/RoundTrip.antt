-- ===== src/AddrMangle/RoundTrip.antt =====
-- `AddrMangle::decode` against `AddrMangle::encode`.
use pc_trade.Prelude.{
  ℕ, ◌+◌, ◌-◌, ◌*◌, ◌/◌, ◌%◌, ◌^◌, ◌≤◌, ◌<◌, ◌≡◌, sym, ap, ap₂, ◌∙◌, List, ◌++◌, arith, bit_and,
  bit_or, length, length-append, take-append, drop-append, length-drop, All-drop, All,
}
use pc_trade.Prelude.Bits.{bit_and_mask, bit_or_low}
use pc_trade.Prelude.Bytes.{
  IsByte, le_bytes, from_le, length-le_bytes, from_le-le_bytes, le_bytes-from_le, from_le_lt,
}
use pc_trade.AddrMangle.{
  SocketAddr, v4, v6, IsValid, mangled, unmangled, strip_padding, try_into_v4, encode_addr, encode,
  decode,
}
use pc_trade.AddrMangle.Padding.{zeros, from_le-strip_padding, length-strip_padding}

-- The three fields share no bit.
mangled_sum :
    (tm ip port : ℕ)
    → tm < 2 ^ 32
    → ip < 2 ^ 32
    → port < 2 ^ 16
    → mangled tm ip port ≡ (ip + tm) * 2 ^ 49 + tm * 2 ^ 17 + (port + tm % 2 ^ 16)
unfolding mangled
mangled_sum tm ip port ht hi hp =
    let a = ip + tm in
    ap₂ bit_or
      (ap₂ bit_or (fits a (omega arith)) (fits_low tm ht)
        ∙ bit_or_low 49 a (tm * 2 ^ 17) (omega arith)
        ∙ regroup a tm)
      (ap (λ t. port + t) (bit_and_mask 16 tm))
    ∙ bit_or_low 17 (a * 2 ^ 32 + tm) (port + tm % 2 ^ 16) (omega arith)
    ∙ omega arith
  where
    fits : (a : ℕ) → a < 2 ^ 33 → a * 2 ^ 49 % 2 ^ 128 ≡ a * 2 ^ 49
    fits a h = omega arith

    fits_low : (t : ℕ) → t < 2 ^ 32 → t * 2 ^ 17 % 2 ^ 128 ≡ t * 2 ^ 17
    fits_low t h = omega arith

    regroup : (a t : ℕ) → a * 2 ^ 49 + t * 2 ^ 17 ≡ (a * 2 ^ 32 + t) * 2 ^ 17
    regroup a t = omega arith

sub128 : ℕ → ℕ → ℕ
sub128 a b = (a + 2 ^ 128 - b) % 2 ^ 128

-- The three fields of such a number.
module _ (tm ip port : ℕ) (ht : tm < 2 ^ 32) (hi : ip < 2 ^ 32) (hp : port < 2 ^ 16) where
  sum_of : ℕ
  sum_of = (ip + tm) * 2 ^ 49 + tm * 2 ^ 17 + (port + tm % 2 ^ 16)

  stamp : bit_and (sum_of / 2 ^ 17) 0xFFFFFFFF ≡ tm
  unfolding sum_of
  stamp = bit_and_mask 32 (sum_of / 2 ^ 17) ∙ omega arith

  address : sub128 (sum_of / 2 ^ 49) tm % 2 ^ 32 ≡ ip
  unfolding sum_of sub128
  address = omega arith

  port_field : sub128 (bit_and sum_of 0xFFFFFF) (bit_and tm 0xFFFF) % 2 ^ 16 ≡ port
  unfolding sum_of sub128
  port_field = omega (arith, bit_and_mask 24 sum_of, bit_and_mask 16 tm)

  unmangled_sum : (octets : List ℕ) → le_bytes 4 ip ≡ octets → unmangled sum_of ≡ v4 octets port
  unfolding unmangled sub128
  unmangled_sum octets e =
      ap
        (λ t.
          v4 (le_bytes 4 (sub128 (sum_of / 2 ^ 49) t % 2 ^ 32))
            (sub128 (bit_and sum_of 0xFFFFFF) (bit_and t 0xFFFF) % 2 ^ 16))
        stamp
      ∙ ap₂ v4 (ap (le_bytes 4) address ∙ e) port_field

decode_short :
    (bytes : List ℕ)
    → length bytes ≤ 16
    → decode bytes ≡ unmangled (from_le (bytes ++ zeros (16 - length bytes)))
unfolding decode
decode_short bytes h = ground arith

decode_mangled :
    (tm port : ℕ) (ip : List ℕ)
    → tm < 2 ^ 32
    → port < 2 ^ 16
    → length ip ≡ 4
    → All IsByte ip
    → decode (strip_padding (le_bytes 16 (mangled tm (from_le ip) port))) ≡ v4 ip port
decode_mangled tm port ip ht hp hl hb =
    let hi : from_le ip < 2 ^ 32 = omega (arith, from_le_lt ip hb, ap (λ (n : ℕ). 256 ^ n) hl) in
    let bytes = le_bytes 16 (mangled tm (from_le ip) port) in
    decode_short (strip_padding bytes) (length-strip_padding bytes)
    ∙ ap unmangled (
        from_le-strip_padding bytes (16 - length (strip_padding bytes)) (length-le_bytes 16 _)
        ∙ from_le-le_bytes 16 _ (omega (arith, mangled_sum tm (from_le ip) port ht hi hp))
        ∙ mangled_sum tm (from_le ip) port ht hi hp)
    ∙ (unfold sum_of in
        unmangled_sum tm (from_le ip) port ht hi hp ip
          (ap (λ n. le_bytes n (from_le ip)) (sym hl) ∙ le_bytes-from_le ip hb))

decode_v6 :
    (ip : List ℕ) (port : ℕ)
    → length ip ≡ 16
    → port < 2 ^ 16
    → decode (ip ++ le_bytes 2 port) ≡ v6 ip port 0 0
unfolding decode
decode_v6 ip port hl hp = ground (
  arith,
  length-append ip (le_bytes 2 port),
  length-le_bytes 2 port,
  take-append 16 ip (le_bytes 2 port),
  drop-append 16 ip (le_bytes 2 port),
  from_le-le_bytes 2 port,
)

-- `try_into_v4` keeps an address valid.
pub try_into_v4-IsValid : (addr : SocketAddr) → IsValid addr → IsValid (try_into_v4 addr)
unfolding try_into_v4
try_into_v4-IsValid (v4 ip port) h = h
try_into_v4-IsValid (v6 ip port flowinfo scope_id) (hl, hb, hp) =
    ground (arith, length-drop 12 ip, All-drop IsByte 12 ip hb)

-- An address without the flow information and the scope of IPv6, which are not sent.
abbrev pub without_scope : SocketAddr → SocketAddr
without_scope (v4 ip port) = v4 ip port
without_scope (v6 ip port flowinfo scope_id) = v6 ip port 0 0

-- Whatever the clock shows, decoding an encoded address gives back its octets and its port, an IPv6
-- address that stands for an IPv4 one as that IPv4 address. The flow information and the scope of an
-- address that stays IPv6 are lost: they are 0 after it.
pub decode-encode_address :
    (micros : ℕ) (addr : SocketAddr)
    → IsValid addr
    → decode (encode micros addr) ≡ without_scope (try_into_v4 addr)
unfolding encode
decode-encode_address micros addr h = go (try_into_v4 addr) (try_into_v4-IsValid addr h)
  where
    go : (a : SocketAddr) → IsValid a → decode (encode_addr (micros % 2 ^ 32) a) ≡ without_scope a
    go (v4 ip port) (hl, hb, hp) = decode_mangled (micros % 2 ^ 32) port ip (omega arith) hp hl hb
    go (v6 ip port flowinfo scope_id) (hl, hb, hp) = decode_v6 ip port hl hp
