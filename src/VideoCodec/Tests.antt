-- ===== src/VideoCodec/Tests.antt =====
-- Runs of libs/scrap/src/common/codec.rs.
use mathlib.Core.List.Perm
use pc_trade.Prelude.{ℕ, ◌≡◌, refl, List, [], ◌∷◌, none, some, true, false, if◌then◌else◌}
use pc_trade.PasswordSecurity.{codes}
use pc_trade.Fuse.Path.{name_eq}
use pc_trade.VideoCodec.Formats.{
  CodecFormat, vp8, vp9, av1, h264, h265, unknown, SupportedDecoding, Machine,
}
use pc_trade.VideoCodec.Encoder.{
  Negotiation, start, update_of, remove, new_only_vp9, update, use_i444, vpx_vp9, Decodings,
  usable_for, preferences, most_frequent,
}
use pc_trade.VideoCodec.Decoder.{PeerOptions, supported_decodings, base_bitrate, codec_thread_num}
use pc_trade.VideoCodec.Usable.{Suits}
use pc_trade.VideoCodec.Frequent.{count}
use pc_trade.VideoCodec.Order.{order_lem}
use pc_trade.VideoCodec.Negotiated.{update_lem}

-- A machine with a card for H264.
abbrev desktop : Machine
desktop = record {
  is_ios = false;
  is_windows = true;
  usize_bytes = 8;
  total_memory = 17179869184;
  vram_encodes = λ (f : CodecFormat). elim f [
    | vp8 ↦ false
    | vp9 ↦ false
    | av1 ↦ false
    | h264 ↦ true
    | h265 ↦ false
    | unknown ↦ false
  ];
  hwram_encodes = λ (f : CodecFormat). false;
  vram_decodes = λ (f : CodecFormat). false;
  hwram_decodes = λ (f : CodecFormat). elim f [
    | vp8 ↦ false
    | vp9 ↦ false
    | av1 ↦ false
    | h264 ↦ true
    | h265 ↦ true
    | unknown ↦ false
  ];
  get_option = λ (k : List ℕ). [];
}

abbrev peer_options : PeerOptions
peer_options id key = if name_eq key (codes "codec-preference") then some (codes "h264") else none

abbrev viewer : List CodecFormat → SupportedDecoding
viewer unsupported = supported_decodings desktop peer_options (some (codes "123")) false unsupported

abbrev watched : Negotiation
watched = update desktop start (update_of 1 (viewer []))

update_lem_example :
    Suits desktop
      (update desktop watched (new_only_vp9 2)).decodings
      (update desktop watched (new_only_vp9 2)).format
update_lem_example = update_lem desktop watched (new_only_vp9 2)

marked_format :
    (update desktop start (update_of 1 (viewer (h264 ∷ h265 ∷ av1 ∷ vp9 ∷ [])))).format ≡ vp9
unfolding update supported_decodings
marked_format = refl

-- One peer that decodes H264 gets it, until one comes that is known to have VP9 only.
formats :
    (watched.format ≡ h264)
    × ((update desktop watched (new_only_vp9 2)).format ≡ vp9)
    × ((update desktop (update desktop watched (new_only_vp9 2)) (remove 2)).format ≡ h264)
unfolding update supported_decodings
formats = (refl, refl, refl)

numbers :
    (base_bitrate 1920 1080 ≡ 2073)
    × (base_bitrate 10 10 ≡ 2073)
    × (codec_thread_num 7 16 30 64 ≡ 4)
    × (use_i444 watched vpx_vp9 ≡ false)
unfolding base_bitrate codec_thread_num use_i444 update supported_decodings
numbers = (refl, refl, refl, refl)

abbrev one_way : Decodings
one_way = (1, viewer []) ∷ (2, viewer (h264 ∷ [])) ∷ []

abbrev other_way : Decodings
other_way = (2, viewer (h264 ∷ [])) ∷ (1, viewer []) ∷ []

order_lem_example :
    (usable_for desktop one_way ≡ usable_for desktop other_way)
    × (count
          (most_frequent (preferences (usable_for desktop one_way) one_way))
          (preferences (usable_for desktop one_way) one_way)
        ≡ count
            (most_frequent (preferences (usable_for desktop other_way) other_way))
            (preferences (usable_for desktop other_way) other_way))
order_lem_example = order_lem desktop one_way other_way (Perm.swap _ _ _)
