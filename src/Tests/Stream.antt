-- ===== src/Tests/Stream.antt =====
-- Frames of the stream, parsed.
use ha_hue_entertainment.Prelude.{◌≡◌, refl, ℕ, some, List, [], ◌∷◌, ◌++◌, arith}
use ha_hue_entertainment.HueStream.{ChannelColor, parse_huestream_frame}
use ha_hue_entertainment.HueStream.RoundTrip.{
  frame, encode_channels, encode_v2_channel, encode_v1_channel, parse-encode_v2, parse-encode_v1,
}

abbrev red : ChannelColor
red = record { channel_id = 1; r = 65535; g = 0; b = 0 }

abbrev area : List ℕ
area =
    0 ∷ 0 ∷ 0 ∷ 0 ∷ 0 ∷ 0 ∷ 0 ∷ 0 ∷ 0 ∷ 0 ∷ 0 ∷ 0 ∷ 0 ∷ 0 ∷ 0 ∷ 0 ∷ 0 ∷ 0 ∷ 0 ∷ 0 ∷ 0 ∷ 0 ∷ 0 ∷ 0
    ∷ 0 ∷ 0 ∷ 0 ∷ 0 ∷ 0 ∷ 0 ∷ 0 ∷ 0 ∷ 0 ∷ 0 ∷ 0 ∷ 0 ∷ 0 ∷ []

parse-encode_v2_example :
    parse_huestream_frame
      (frame 2 0 0 0 0 0 (area ++ (encode_channels encode_v2_channel (red ∷ []) ++ (7 ∷ []))))
    ≡ some (record { api_version = 2; color_space = 0; channels = red ∷ [] })
parse-encode_v2_example = parse-encode_v2 0 0 0 0 0 area (red ∷ []) (7 ∷ []) refl (omega arith)

parse-encode_v1_example :
    parse_huestream_frame
      (frame 1 0 0 0 0 1 (0 ∷ (encode_channels (encode_v1_channel 0) (red ∷ red ∷ []) ++ [])))
    ≡ some (record { api_version = 1; color_space = 1; channels = red ∷ red ∷ [] })
parse-encode_v1_example = parse-encode_v1 0 0 0 0 1 0 0 red (red ∷ []) [] (omega arith)
