-- ===== src/HueStream.antt =====
-- The HueStream frame parser: custom_components/hue_entertainment/entertainment.py, lines 46-142.
-- A `bytes` object is the list of its bytes.
pub mod RoundTrip
pub mod Bounds
use ha_hue_entertainment.Prelude.{
  ℕ, zero, suc, ◌+◌, ◌*◌, Option, none, some, List, [], ◌∷◌, Bool, true, false, length, get_or, ltb,
  leb, ◌==◌, ◌&&◌, if◌then◌else◌,
}

pub record ChannelColor : Type 0 where
  pub channel_id : ℕ
  pub r : ℕ
  pub g : ℕ
  pub b : ℕ

pub record Frame : Type 0 where
  pub api_version : ℕ
  pub color_space : ℕ
  pub channels : List ChannelColor

-- b"HueStream"
abbrev pub huestream_header : List ℕ
huestream_header = 72 ∷ 117 ∷ 101 ∷ 83 ∷ 116 ∷ 114 ∷ 101 ∷ 97 ∷ 109 ∷ []

abbrev pub huestream_header_size : ℕ
huestream_header_size = 52

abbrev pub huestream_channel_size : ℕ
huestream_channel_size = 7

abbrev pub v1_header_size : ℕ
v1_header_size = 16

abbrev pub v1_channel_size : ℕ
v1_channel_size = 9

-- data.startswith(prefix)
abbrev pub starts_with : List ℕ → List ℕ → Bool
starts_with [] bytes = true
starts_with (p ∷ prefix) [] = false
starts_with (p ∷ prefix) (x ∷ bytes) = p == x && starts_with prefix bytes

-- data[i]; the guards of the callers keep `i` in bounds
abbrev pub byte_at : List ℕ → ℕ → ℕ
byte_at bytes i = get_or bytes i 0

-- struct.unpack(">H", data[i : i + 2])[0]
unfoldable pub u16_at : List ℕ → ℕ → ℕ
u16_at bytes i = byte_at bytes i * 256 + byte_at bytes (i + 1)

v2_channel : List ℕ → ℕ → ChannelColor
unfolding u16_at
v2_channel bytes offset = record {
  channel_id = byte_at bytes offset;
  r = u16_at bytes (offset + 1);
  g = u16_at bytes (offset + 3);
  b = u16_at bytes (offset + 5);
}

v1_channel : List ℕ → ℕ → ChannelColor
unfolding u16_at
v1_channel bytes offset = record {
  channel_id = u16_at bytes (offset + 1);
  r = u16_at bytes (offset + 3);
  g = u16_at bytes (offset + 5);
  b = u16_at bytes (offset + 7);
}

-- The two `while offset + size <= len(data)` loops, on fuel. Each round moves `offset` by a positive
-- size, so the length of the data is fuel enough.
channel_loop : ℕ → (ℕ → ChannelColor) → ℕ → ℕ → ℕ → List ChannelColor
channel_loop zero channel size len offset = []
channel_loop (suc fuel) channel size len offset =
    let rest = channel_loop fuel channel size len (offset + size) in
    if leb (offset + size) len then channel offset ∷ rest else []

parse_v2_channels : List ℕ → List ChannelColor
unfolding channel_loop v2_channel
parse_v2_channels bytes =
    channel_loop (length bytes) (v2_channel bytes) huestream_channel_size (length bytes)
      huestream_header_size

parse_v1_channels : List ℕ → List ChannelColor
unfolding channel_loop v1_channel
parse_v1_channels bytes =
    channel_loop (length bytes) (v1_channel bytes) v1_channel_size (length bytes) v1_header_size

-- What the parser does once it has read the version and the colour space.
parse_versioned : List ℕ → ℕ → ℕ → Option Frame
unfolding parse_v2_channels parse_v1_channels
parse_versioned bytes api_version color_space =
    if api_version == 2
    then (if ltb (length bytes) huestream_header_size
        then none
        else some (record {
          api_version = api_version;
          color_space = color_space;
          channels = parse_v2_channels bytes;
        }))
    else if api_version == 1
    then (if ltb (length bytes) (v1_header_size + v1_channel_size)
        then none
        else some (record {
          api_version = api_version;
          color_space = color_space;
          channels = parse_v1_channels bytes;
        }))
    else none

unfoldable pub parse_huestream_frame : List ℕ → Option Frame
unfolding parse_versioned
parse_huestream_frame bytes =
    if starts_with huestream_header bytes
    then (if ltb (length bytes) 15
        then none
        else parse_versioned bytes (byte_at bytes 9) (byte_at bytes 14))
    else none
