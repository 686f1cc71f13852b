-- ===== src/VideoCodec/Encoder.antt =====
-- `Encoder` and what it keeps: the decodings of the connected peers, the format in use and the
-- usable formats. The source keeps the peers in a hash map, here they are a list, in the order in
-- which the map is iterated. The locks and the logs are left out.
use pc_trade.Prelude.{
  ℕ, ◌+◌, ◌*◌, ◌^◌, max, List, [], ◌∷◌, Option, none, some, Bool, true, false, not, ◌==◌, ◌&&◌,
  ◌||◌, ltb, leb, if◌then◌else◌,
}
use pc_trade.Fuse.Path.{name_eq}
use pc_trade.PasswordSecurity.{codes}
use pc_trade.VideoCodec.Formats.{
  CodecFormat, vp8, vp9, av1, h264, h265, format_eq, SupportedDecoding, SupportedEncoding, no_i444,
  some_i444, no_decoding, PreferCodec, prefer_auto, prefer_vp8, prefer_vp9, prefer_av1, prefer_h264,
  prefer_h265, number_of, enum_value, Machine, disable_av1, hardware_encodes,
}

abbrev pub Decodings : Type 0
Decodings = List (ℕ × SupportedDecoding)

pub data EncodingUpdate : Type 0 where
  update_of : (id : ℕ) → SupportedDecoding → EncodingUpdate
  remove new_only_vp9 : (id : ℕ) → EncodingUpdate
  check : EncodingUpdate

-- `PEER_DECODINGS`, `ENCODE_CODEC_FORMAT` and `USABLE_ENCODING`
pub record Negotiation : Type 0 where
  pub decodings : Decodings
  pub format : CodecFormat
  pub usable : Option SupportedEncoding

abbrev pub start : Negotiation
start = record { decodings = []; format = vp9; usable = none }

unfoldable pub insert : Decodings → ℕ → SupportedDecoding → Decodings
insert [] id s = (id, s) ∷ []
insert ((k, d) ∷ ds) id s =
    let later = insert ds id s in if k == id then (id, s) ∷ ds else (k, d) ∷ later

unfoldable pub delete : Decodings → ℕ → Decodings
delete [] id = []
delete ((k, d) ∷ ds) id = let later = delete ds id in if k == id then later else (k, d) ∷ later

unfoldable pub decodings_after : Decodings → EncodingUpdate → Decodings
unfolding insert delete
decodings_after ds (update_of id s) = insert ds id s
decodings_after ds (remove id) = delete ds id
decodings_after ds (new_only_vp9 id) = insert ds id (record no_decoding { ability_vp9 = 1 })
decodings_after ds check = ds

-- An ability, an i32, is positive.
abbrev pub is_able : ℕ → Bool
is_able a = ltb 0 a && ltb a (2 ^ 31)

unfoldable pub all : (SupportedDecoding → Bool) → Decodings → Bool
all p [] = true
all p ((id, s) ∷ ds) = p s && all p ds

abbrev pub is_empty : Decodings → Bool
is_empty [] = true
is_empty (d ∷ ds) = false

-- `decodings.len() > 0 && decodings.iter().all(..)`
abbrev pub everyone : (SupportedDecoding → Bool) → Decodings → Bool
everyone p ds = not (is_empty ds) && all p ds

-- What all peers decode and this machine encodes.
unfoldable pub usable_for : Machine → Decodings → SupportedEncoding
unfolding all hardware_encodes disable_av1
usable_for m ds = record {
  can_vp8 = everyone (λ s. is_able s.ability_vp8) ds;
  can_av1 = everyone (λ s. is_able s.ability_av1) ds && not (disable_av1 m);
  can_h264 = everyone (λ s. is_able s.ability_h264) ds && hardware_encodes m h264;
  can_h265 = everyone (λ s. is_able s.ability_h265) ds && hardware_encodes m h265;
  can_i444 = no_i444;
}

abbrev pub is_preference : SupportedEncoding → ℕ → Bool
is_preference u p =
    p == number_of prefer_vp9
    || p == number_of prefer_vp8 && u.can_vp8
    || p == number_of prefer_av1 && u.can_av1
    || p == number_of prefer_h264 && u.can_h264
    || p == number_of prefer_h265 && u.can_h265

unfoldable pub preferences : SupportedEncoding → Decodings → List ℕ
preferences u [] = []
preferences u ((id, s) ∷ ds) =
    let others = preferences u ds in if is_preference u s.prefer then s.prefer ∷ others else others

-- One more of this preference.
unfoldable pub count_one : List (ℕ × ℕ) → ℕ → List (ℕ × ℕ)
count_one [] pref = (pref, 1) ∷ []
count_one ((p, n) ∷ counts) pref =
    let later = count_one counts pref in if p == pref then (p, n + 1) ∷ counts else (p, n) ∷ later

unfoldable pub count_all : List (ℕ × ℕ) → List ℕ → List (ℕ × ℕ)
unfolding count_one
count_all counts [] = counts
count_all counts (p ∷ ps) = count_all (count_one counts p) ps

unfoldable pub max_count : List (ℕ × ℕ) → ℕ
max_count [] = 0
max_count ((p, n) ∷ counts) = max n (max_count counts)

-- The first preference with this count, or the automatic choice.
unfoldable pub find_count : List (ℕ × ℕ) → ℕ → ℕ
find_count [] most = number_of prefer_auto
find_count ((p, n) ∷ counts) most =
    let later = find_count counts most in if n == most then p else later

unfoldable pub most_frequent : List ℕ → ℕ
unfolding count_all max_count find_count
most_frequent prefs = let counts = count_all [] prefs in find_count counts (max_count counts)

-- The automatic choice: H265, then H264, then one of the others.
unfoldable pub auto_codec : SupportedEncoding → (av1_test low_memory : Bool) → CodecFormat
auto_codec u av1_test low_memory =
    let software = if u.can_av1 && av1_test then av1 else vp9 in
    let hardware = if u.can_h264 then h264 else software in
    let codec = if u.can_h265 then h265 else hardware in
    if format_eq codec vp9 || format_eq codec av1
    then (if u.can_vp8 && low_memory then vp8 else codec)
    else codec

-- The format for a preference. What is usable of H264 and H265 tells whether the machine encodes it,
-- since the source asks the machine only for what all peers decode.
unfoldable pub format_for : SupportedEncoding → PreferCodec → CodecFormat → CodecFormat
format_for u prefer_vp8 auto = vp8
format_for u prefer_vp9 auto = vp9
format_for u prefer_av1 auto = av1
format_for u prefer_h264 auto = if u.can_h264 then h264 else auto
format_for u prefer_h265 auto = if u.can_h265 then h265 else auto
format_for u prefer_auto auto = auto

abbrev pub av1_test : Machine → Bool
av1_test m = not (name_eq (m.get_option (codes "av1-test")) (codes "N"))

-- 4 GB
abbrev pub low_memory : Machine → Bool
low_memory m = leb m.total_memory (4 * 1024 * 1024 * 1024)

unfoldable pub chosen : Machine → SupportedEncoding → Decodings → CodecFormat
unfolding preferences most_frequent enum_value auto_codec format_for
chosen m u ds =
    format_for u (enum_value (most_frequent (preferences u ds)))
      (auto_codec u (av1_test m) (low_memory m))

unfoldable pub update : Machine → Negotiation → EncodingUpdate → Negotiation
unfolding decodings_after usable_for chosen
update m s change =
    let ds = decodings_after s.decodings change in
    let u = usable_for m ds in record { decodings = ds; format = chosen m u ds; usable = some u }

unfoldable pub supported_encoding : Machine → SupportedEncoding
unfolding disable_av1 hardware_encodes
supported_encoding m = record {
  can_vp8 = true;
  can_av1 = not (disable_av1 m);
  can_h264 = hardware_encodes m h264;
  can_h265 = hardware_encodes m h265;
  can_i444 = some_i444;
}

-- The configurations of an encoder: VPX with VP8 or VP9, AOM, the hardware with the name of the encoder,
-- the card with its format.
pub data EncoderCfg : Type 0 where
  vpx_vp8 vpx_vp9 aom : EncoderCfg
  hwram : (name : List ℕ) → EncoderCfg
  vram : CodecFormat → EncoderCfg

-- The format of a configuration; `contains` is that of a text in lower case.
unfoldable pub format_of : (contains : List ℕ → List ℕ → Bool) → EncoderCfg → Option CodecFormat
format_of contains vpx_vp8 = some vp8
format_of contains vpx_vp9 = some vp9
format_of contains aom = some av1
format_of contains (hwram name) = some (
    if contains name (codes "vp8")
    then vp8
    else if contains name (codes "vp9")
    then vp9
    else if contains name (codes "av1")
    then av1
    else if contains name (codes "h264")
    then h264
    else h265)
format_of contains (vram h264) = some h264
format_of contains (vram h265) = some h265
format_of contains (vram _) = none

abbrev pub fallback_as : Negotiation → Option CodecFormat → Negotiation
fallback_as s none = s
fallback_as s (some f) = if format_eq s.format f then s else record s { format = f }

unfoldable pub set_fallback :
    (contains : List ℕ → List ℕ → Bool) → Negotiation → EncoderCfg → Negotiation
unfolding format_of
set_fallback contains s config = fallback_as s (format_of contains config)

-- `Chroma::I444`
abbrev pub chroma_i444 : ℕ
chroma_i444 = 1

abbrev pub i444_useable : Decodings → EncoderCfg → Bool
i444_useable ds vpx_vp9 = all (λ s. s.i444.i444_vp9) ds
i444_useable ds aom = all (λ s. s.i444.i444_av1) ds
i444_useable ds _ = false

unfoldable pub use_i444 : Negotiation → EncoderCfg → Bool
unfolding all
use_i444 s config =
    all (λ d. d.prefer_chroma == chroma_i444) s.decodings
    && i444_useable s.decodings config
    && not (is_empty s.decodings)

-- `Encoder::new`, given whether the library makes the encoder: whether there is one, and the state. The
-- saved configuration of the hardware, which a failure clears as well, is left out.
unfoldable pub new : Negotiation → EncoderCfg → (made : Bool) → Bool × Negotiation
new s vpx_vp8 made = (made, s)
new s vpx_vp9 made = (made, s)
new s aom made = (made, s)
new s (hwram name) made = (made, if made then s else record s { format = vp9 })
new s (vram f) made = (made, if made then s else record s { format = vp9 })
