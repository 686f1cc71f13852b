-- ===== src/AddrMangle.antt =====
-- libs/hbb_common/src/lib.rs: `AddrMangle`, which hides an IPv4 address behind a time stamp, and
-- `try_into_v4`. An address is its octets and its port, and an IPv6 address its flow information and its
-- scope besides.
pub mod Padding
pub mod RoundTrip
mod Tests
use mathlib.Core.List.{reverse}
use pc_trade.Prelude.{
  ℕ, suc, ◌+◌, ◌-◌, ◌*◌, ◌/◌, ◌%◌, ◌^◌, ◌<◌, ◌≡◌, bit_and, bit_or, List, [], ◌∷◌, ◌++◌, Option,
  none, some, Bool, true, false, ◌&&◌, ◌||◌, ltb, ◌==◌, if◌then◌else◌, length, take, drop,
  replicate, All,
}
use pc_trade.Prelude.Bytes.{IsByte, le_bytes, from_le}

pub data SocketAddr : Type 0 where
  v4 : List ℕ → ℕ → SocketAddr
  v6 : List ℕ → ℕ → (flowinfo : ℕ) → (scope_id : ℕ) → SocketAddr

abbrev pub IsValid : SocketAddr → Type 0
IsValid (v4 ip port) = (length ip ≡ 4) × All IsByte ip × (port < 2 ^ 16)
IsValid (v6 ip port flowinfo scope_id) = (length ip ≡ 16) × All IsByte ip × (port < 2 ^ 16)

-- every byte is `k`
abbrev pub all_are : ℕ → List ℕ → Bool
all_are k [] = true
all_are k (b ∷ bs) = b == k && all_are k bs

-- `Ipv6Addr::is_loopback`: ::1
unfoldable pub is_loopback : List ℕ → Bool
is_loopback ip = all_are 0 (take 15 ip) && all_are 1 (drop 15 ip)

-- `Ipv6Addr::to_ipv4`: ::a.b.c.d and ::ffff:a.b.c.d
unfoldable pub to_ipv4 : List ℕ → Option (List ℕ)
to_ipv4 ip =
    if all_are 0 (take 10 ip)
      && (all_are 0 (take 2 (drop 10 ip)) || all_are 255 (take 2 (drop 10 ip)))
    then some (drop 12 ip)
    else none

abbrev or_same : SocketAddr → ℕ → Option (List ℕ) → SocketAddr
or_same addr port none = addr
or_same addr port (some ip) = v4 ip port

unfoldable pub try_into_v4 : SocketAddr → SocketAddr
unfolding is_loopback to_ipv4
try_into_v4 (v4 ip port) = v4 ip port
try_into_v4 (v6 ip port flowinfo scope_id) =
    if is_loopback ip
    then v6 ip port flowinfo scope_id
    else or_same (v6 ip port flowinfo scope_id) port (to_ipv4 ip)

-- the loop over `bytes.iter().rev()` that stops at the first byte that is not 0
unfoldable pub count_zeros : List ℕ → ℕ
count_zeros [] = 0
count_zeros (b ∷ bs) = if b == 0 then suc (count_zeros bs) else 0

unfoldable pub strip_padding : List ℕ → List ℕ
unfolding count_zeros
strip_padding bytes = take (16 - count_zeros (reverse bytes)) bytes

-- the 128-bit number that stands for an address at a time stamp of 32 bits
unfoldable pub mangled : ℕ → ℕ → ℕ → ℕ
mangled tm ip port =
    bit_or (bit_or ((ip + tm) * 2 ^ 49 % 2 ^ 128) (tm * 2 ^ 17 % 2 ^ 128))
      (port + bit_and tm 0xFFFF)

abbrev pub encode_addr : ℕ → SocketAddr → List ℕ
encode_addr tm (v4 ip port) = strip_padding (le_bytes 16 (mangled tm (from_le ip) port))
encode_addr tm (v6 ip port flowinfo scope_id) = ip ++ le_bytes 2 port

-- `micros` is the number of microseconds that the clock shows.
unfoldable pub encode : ℕ → SocketAddr → List ℕ
encode micros addr = encode_addr (micros % 2 ^ 32) (try_into_v4 addr)

-- `-` on u128, as it wraps
abbrev sub128 : ℕ → ℕ → ℕ
sub128 a b = (a + 2 ^ 128 - b) % 2 ^ 128

unfoldable pub unmangled : ℕ → SocketAddr
unmangled number =
    let tm = bit_and (number / 2 ^ 17) 0xFFFFFFFF in
    v4 (le_bytes 4 (sub128 (number / 2 ^ 49) tm % 2 ^ 32))
      (sub128 (bit_and number 0xFFFFFF) (bit_and tm 0xFFFF) % 2 ^ 16)

-- `Config::get_any_listen_addr`
unfoldable pub get_any_listen_addr : Bool → SocketAddr
get_any_listen_addr true = v4 (replicate 4 0) 0
get_any_listen_addr false = v6 (replicate 16 0) 0 0 0

unfoldable pub decode : List ℕ → SocketAddr
unfolding get_any_listen_addr unmangled
decode bytes =
    if ltb 16 (length bytes)
    then (if length bytes == 18
        then v6 (take 16 bytes) (from_le (drop 16 bytes)) 0 0
        else get_any_listen_addr false)
    else unmangled (from_le (bytes ++ replicate (16 - length bytes) 0))
