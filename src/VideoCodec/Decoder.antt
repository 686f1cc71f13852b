-- ===== src/VideoCodec/Decoder.antt =====
-- `Decoder` of libs/scrap/src/common/codec.rs: what this machine tells a peer that it decodes, and the
-- decoder that it makes for a format; and the numbers for the encoders. The decoders are libraries,
-- and whether one can be made is an argument.
use pc_trade.Prelude.{
  ℕ, ◌*◌, ◌/◌, ◌%◌, ◌^◌, min, List, [], ◌∷◌, Option, none, some, Bool, true, false, not, ◌==◌, ◌&&◌,
  ◌||◌, leb, if◌then◌else◌,
}
use pc_trade.Fuse.Path.{name_eq}
use pc_trade.PasswordSecurity.{codes}
use pc_trade.VideoCodec.Formats.{
  CodecFormat, vp8, vp9, av1, h264, h265, unknown, format_eq, SupportedDecoding, some_i444,
  PreferCodec, prefer_auto, prefer_vp8, prefer_vp9, prefer_av1, prefer_h264, prefer_h265, number_of,
  Machine, enable_vram_option, disable_av1,
}

-- The options of a peer, as `PeerConfig::load` gives them.
abbrev pub PeerOptions : Type 0
PeerOptions = (id key : List ℕ) → Option (List ℕ)

abbrev pub codec_of : List ℕ → PreferCodec
codec_of codec =
    if name_eq codec (codes "vp8")
    then prefer_vp8
    else if name_eq codec (codes "vp9")
    then prefer_vp9
    else if name_eq codec (codes "av1")
    then prefer_av1
    else if name_eq codec (codes "h264")
    then prefer_h264
    else if name_eq codec (codes "h265")
    then prefer_h265
    else prefer_auto

abbrev pub text_or_empty : Option (List ℕ) → List ℕ
text_or_empty none = []
text_or_empty (some t) = t

-- 1 is the chroma format I444, and 0 is I420.
abbrev pub chroma_of : Option (List ℕ) → ℕ
chroma_of none = 0
chroma_of (some value) = if name_eq value (codes "Y") then 1 else 0

unfoldable pub preference : PeerOptions → (id : Option (List ℕ)) → PreferCodec × ℕ
preference options none = (prefer_auto, 0)
preference options (some []) = (prefer_auto, 0)
preference options (some (c ∷ cs)) = (
  codec_of (text_or_empty (options (c ∷ cs) (codes "codec-preference"))),
  chroma_of (options (c ∷ cs) (codes "i444")),
)

abbrev pub able : Bool → ℕ
able b = if b then 1 else 0

unfoldable pub hardware_decodes : Machine → (use_texture_render : Bool) → CodecFormat → Bool
unfolding enable_vram_option
hardware_decodes m use_texture_render f =
    m.hwram_decodes f || enable_vram_option m false && use_texture_render && m.vram_decodes f

-- The ability of a format that is not supported is set to 0.
unfoldable pub mark_unsupported : SupportedDecoding → CodecFormat → SupportedDecoding
mark_unsupported d f = record d {
  ability_vp8 = if format_eq f vp8 then 0 else d.ability_vp8;
  ability_vp9 = if format_eq f vp9 then 0 else d.ability_vp9;
  ability_av1 = if format_eq f av1 then 0 else d.ability_av1;
  ability_h264 = if format_eq f h264 then 0 else d.ability_h264;
  ability_h265 = if format_eq f h265 then 0 else d.ability_h265;
}

unfoldable pub mark_all : SupportedDecoding → List CodecFormat → SupportedDecoding
unfolding mark_unsupported
mark_all d [] = d
mark_all d (f ∷ fs) = mark_all (mark_unsupported d f) fs

-- What is decoded before anything is marked.
abbrev pub abilities : Machine → Bool → PreferCodec × ℕ → SupportedDecoding
abilities m use_texture_render (prefer, chroma) = record {
  ability_vp8 = 1;
  ability_vp9 = 1;
  ability_av1 = able (not (disable_av1 m));
  ability_h264 = able (hardware_decodes m use_texture_render h264);
  ability_h265 = able (hardware_decodes m use_texture_render h265);
  prefer = number_of prefer;
  i444 = some_i444;
  prefer_chroma = chroma;
}

unfoldable pub supported_decodings :
    Machine
    → PeerOptions
    → (id_for_prefer : Option (List ℕ)) → (use_texture_render : Bool) → List CodecFormat
    → SupportedDecoding
unfolding preference hardware_decodes disable_av1 mark_all
supported_decodings m options id_for_prefer use_texture_render unsupported =
    mark_all (abilities m use_texture_render (preference options id_for_prefer)) unsupported

-- The decoder that was made: a software decoder, one on the card, or one of the hardware.
pub data Made : Type 0 where
  software on_card in_memory : Made

-- Whether the libraries make a decoder for a format.
pub record Makers : Type 0 where
  pub makes_software : CodecFormat → Bool
  pub makes_on_card : CodecFormat → Bool
  pub makes_in_memory : CodecFormat → Bool

pub record Decoder : Type 0 where
  pub made : Option Made
  pub format : CodecFormat
  pub valid : Bool

abbrev pub decoder_of : CodecFormat → Option Made → Decoder
decoder_of f none = record { made = none; format = f; valid = false }
decoder_of f (some k) = record { made = some k; format = f; valid = true }

abbrev pub make_software : Makers → CodecFormat → Option Made
make_software k f = if k.makes_software f then some software else none

abbrev pub is_known : (luid : Option ℕ) → Bool
is_known none = false
is_known (some l) = not (l == 0)

-- The card, if it is in use and its `luid` is known, and else the hardware with memory.
abbrev pub make_hardware : Machine → Makers → CodecFormat → (luid : Option ℕ) → Option Made
make_hardware m k f luid =
    if enable_vram_option m false && is_known luid && k.makes_on_card f
    then some on_card
    else if k.makes_in_memory f
    then some in_memory
    else none

unfoldable pub new : Machine → Makers → CodecFormat → (luid : Option ℕ) → Decoder
unfolding enable_vram_option
new m k vp8 luid = decoder_of vp8 (make_software k vp8)
new m k vp9 luid = decoder_of vp9 (make_software k vp9)
new m k av1 luid = decoder_of av1 (make_software k av1)
new m k h264 luid = decoder_of h264 (make_hardware m k h264 luid)
new m k h265 luid = decoder_of h265 (make_hardware m k h265 luid)
new m k unknown luid = decoder_of unknown none

-- `base_bitrate` where the system is not Android; the product wraps as in a release build
unfoldable pub base_bitrate : (width height : ℕ) → ℕ
base_bitrate width height =
    let rate = (width * height) % 2 ^ 32 / 1000 in if rate == 0 then 1920 * 1080 / 1000 else rate

-- The power of two that is at most the number of threads, between 1 and 64.
unfoldable pub common_threads : ℕ → ℕ
common_threads res =
    if leb 64 res
    then 64
    else if leb 32 res
    then 32
    else if leb 16 res
    then 16
    else if leb 8 res
    then 8
    else if leb 4 res
    then 4
    else if leb 2 res
    then 2
    else 1

-- `idle` is the share of the processors that the load leaves, and `memory` the free memory in GB.
unfoldable pub codec_thread_num : (idle cores memory limit : ℕ) → ℕ
unfolding common_threads
codec_thread_num idle cores memory limit =
    min (common_threads (min (min idle (cores / 2)) (memory / 2))) limit
