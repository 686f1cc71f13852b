-- ===== src/VideoCodec/Formats.antt =====
-- The formats of libs/scrap/src/common/mod.rs, the messages in which peers tell what they decode, and
-- what codec.rs asks of the machine and of the options.
use pc_trade.Prelude.{ℕ, List, Bool, true, false, not, ◌==◌, ◌&&◌, ◌||◌, if◌then◌else◌}
use pc_trade.PasswordSecurity.{codes}
use pc_trade.Config.Options.{option2bool}

pub data CodecFormat : Type 0 where
  vp8 vp9 av1 h264 h265 unknown : CodecFormat

-- The formats by their numbers.
abbrev pub code_of : CodecFormat → ℕ
code_of vp8 = 0
code_of vp9 = 1
code_of av1 = 2
code_of h264 = 3
code_of h265 = 4
code_of unknown = 5

abbrev pub format_eq : CodecFormat → CodecFormat → Bool
format_eq f g = code_of f == code_of g

-- The flags for the chroma format I444.
pub record CodecAbility : Type 0 where
  pub i444_vp9 : Bool
  pub i444_av1 : Bool

-- An ability is an i32; what is preferred is the number on the wire, which a later version may know.
pub record SupportedDecoding : Type 0 where
  pub ability_vp8 : ℕ
  pub ability_vp9 : ℕ
  pub ability_av1 : ℕ
  pub ability_h264 : ℕ
  pub ability_h265 : ℕ
  pub prefer : ℕ
  pub i444 : CodecAbility
  pub prefer_chroma : ℕ

pub record SupportedEncoding : Type 0 where
  pub can_vp8 : Bool
  pub can_av1 : Bool
  pub can_h264 : Bool
  pub can_h265 : Bool
  pub can_i444 : CodecAbility

abbrev pub no_i444 : CodecAbility
no_i444 = record { i444_vp9 = false; i444_av1 = false }

abbrev pub some_i444 : CodecAbility
some_i444 = record { i444_vp9 = true; i444_av1 = true }

-- `SupportedDecoding::default()`
abbrev pub no_decoding : SupportedDecoding
no_decoding = record {
  ability_vp8 = 0;
  ability_vp9 = 0;
  ability_av1 = 0;
  ability_h264 = 0;
  ability_h265 = 0;
  prefer = 0;
  i444 = no_i444;
  prefer_chroma = 0;
}

pub data PreferCodec : Type 0 where
  prefer_auto prefer_vp8 prefer_vp9 prefer_av1 prefer_h264 prefer_h265 : PreferCodec

-- The numbers of PreferCodec in protos/message.proto.
abbrev pub number_of : PreferCodec → ℕ
number_of prefer_auto = 0
number_of prefer_vp9 = 1
number_of prefer_h264 = 2
number_of prefer_h265 = 3
number_of prefer_vp8 = 4
number_of prefer_av1 = 5

-- `enum_value_or(PreferCodec::Auto)`
unfoldable pub enum_value : ℕ → PreferCodec
enum_value n =
    if n == 1
    then prefer_vp9
    else if n == 2
    then prefer_h264
    else if n == 3
    then prefer_h265
    else if n == 4
    then prefer_vp8
    else if n == 5
    then prefer_av1
    else prefer_auto

-- `VRamEncoder::available` and `HwRamEncoder::try_get`, and those of the decoders (where the first may
-- depend on a graphics card); the memory in bytes; the options.
pub record Machine : Type 0 where
  pub is_ios : Bool
  pub is_windows : Bool
  pub usize_bytes : ℕ
  pub total_memory : ℕ
  pub vram_encodes : CodecFormat → Bool
  pub hwram_encodes : CodecFormat → Bool
  pub vram_decodes : CodecFormat → Bool
  pub hwram_decodes : CodecFormat → Bool
  pub get_option : List ℕ → List ℕ

abbrev pub enable_hwcodec : List ℕ
enable_hwcodec = codes "enable-hwcodec"

abbrev pub directx_capture : List ℕ
directx_capture = codes "enable-directx-capture"

unfoldable pub enable_hwcodec_option : Machine → Bool
unfolding option2bool
enable_hwcodec_option m = not m.is_ios && option2bool enable_hwcodec (m.get_option enable_hwcodec)

unfoldable pub enable_directx_capture : Machine → Bool
unfolding option2bool
enable_directx_capture m = option2bool directx_capture (m.get_option directx_capture)

unfoldable pub enable_vram_option : Machine → (encode : Bool) → Bool
unfolding option2bool enable_directx_capture
enable_vram_option m encode =
    let enable = option2bool enable_hwcodec (m.get_option enable_hwcodec) in
    if m.is_windows then (if encode then enable && enable_directx_capture m else enable) else false

unfoldable pub disable_av1 : Machine → Bool
disable_av1 m = m.usize_bytes == 4

-- Whether the machine can encode a format of the hardware, on the card or with memory.
unfoldable pub hardware_encodes : Machine → CodecFormat → Bool
unfolding enable_vram_option enable_hwcodec_option
hardware_encodes m f =
    enable_vram_option m true && m.vram_encodes f || enable_hwcodec_option m && m.hwram_encodes f
