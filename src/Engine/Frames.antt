-- ===== src/Engine/Frames.antt =====
-- Frames of the DTLS stream: entertainment.py, lines 279-343 and 841-906.
pub mod Tolerance
use ha_hue_entertainment.Prelude.{
  ℕ, ◌+◌, ◌-◌, ◌*◌, ◌/◌, Bool, true, false, ◌&&◌, String, Option, none, some, List, [], ◌∷◌, max,
  ltb, ◌==◌, if◌then◌else◌,
}
use ha_hue_entertainment.Prelude.Int.{pos}
use ha_hue_entertainment.HueStream.{ChannelColor, parse_huestream_frame}
use ha_hue_entertainment.ServiceData.{ServiceData, empty}
use ha_hue_entertainment.Engine.{Engine, LightMapping, suppressed, get_mapping, set_mapping}

abbrev pub color_space_xy : ℕ
color_space_xy = 1

abbrev pub distance : ℕ → ℕ → ℕ
distance a b = (a - b) + (b - a)

-- abs(x / 65535 - last / 65535) < 0.03; without a last value that is -1, and no x is so near
unfoldable pub near_xy : ℕ → Option ℕ → Bool
near_xy v none = false
near_xy v (some last) = ltb (distance v last * 100) (3 * 65535)

-- abs(v - last) < BRIGHTNESS_TOLERANCE, where no last value is -1
unfoldable pub near_level : ℕ → Option ℕ → Bool
near_level v none = ltb (v + 1) 16
near_level v (some last) = ltb (distance v last) 16

-- max(r, g, b) >> 8 or 1
abbrev pub peak_brightness : ChannelColor → ℕ
peak_brightness c = let peak = max (max c.r c.g) c.b / 256 in if peak == 0 then 1 else peak

-- round(bri / 65535 * 255), which is bri / 257 and never half way
abbrev pub xy_brightness : ℕ → ℕ
xy_brightness b = (2 * b + 257) / 514

unfoldable pub within_tolerance : ChannelColor → ℕ → LightMapping → Bool
unfolding near_xy near_level
within_tolerance c color_space m =
    if color_space == color_space_xy
    then near_xy c.r m.last_r && near_xy c.g m.last_g && near_level c.b m.last_b
    else near_level c.r m.last_r && near_level c.g m.last_g && near_level c.b m.last_b

unfoldable pub stream_data : ChannelColor → ℕ → String → ServiceData
stream_data c color_space entity_id =
    if color_space == color_space_xy
    then record empty {
      entity_id = some entity_id;
      xy_color =
          some (record { num = pos c.r; den = 65535 }, record { num = pos c.g; den = 65535 });
      brightness = some (xy_brightness c.b);
    }
    else record empty {
      entity_id = some entity_id;
      rgb_color = some (c.r / 256, c.g / 256, c.b / 256);
      brightness = some (peak_brightness c);
    }

-- What `_schedule_update` writes to the light, if the colour changed enough.
unfoldable pub write_slot : ChannelColor → ℕ → LightMapping → LightMapping
unfolding stream_data
write_slot c color_space m = record m {
  last_r = some c.r;
  last_g = some c.g;
  last_b = some c.b;
  pending_data = some (stream_data c color_space m.entity_id);
  dirty = true;
}

unfoldable pub schedule_update : Engine → ChannelColor → ℕ → Engine
unfolding get_mapping set_mapping within_tolerance write_slot
schedule_update e c color_space = elim (get_mapping c.channel_id e.mappings) [
  | none ↦ e
  | some m ↦ if within_tolerance c color_space m then e else record e {
    mappings = set_mapping c.channel_id (write_slot c color_space m) e.mappings;
    wake = true;
  }
]

unfoldable pub schedule_updates : Engine → List ChannelColor → ℕ → Engine
unfolding schedule_update
schedule_updates e [] color_space = e
schedule_updates e (c ∷ cs) color_space =
    schedule_updates (schedule_update e c color_space) cs color_space

unfoldable pub log_fps : Engine → ℕ → Engine
log_fps e now =
    if ltb (now - e.fps_time) 5000
    then e
    else record e { window_received = 0; window_commands = 0; fps_time = now }

-- The counters and the time of the last frame; the first two also when the effect is dropped.
unfoldable pub count_frame : Engine → ℕ → Engine
unfolding log_fps
count_frame e now =
    log_fps
      (record e {
        last_frame_time = if e.release_forcing then e.last_frame_time else now;
        total_frames_received = e.total_frames_received + 1;
        window_received = e.window_received + 1;
        first_frame_logged = true;
      })
      now

unfoldable pub handle_frame : Engine → List ℕ → ℕ → Engine
unfolding parse_huestream_frame count_frame suppressed schedule_updates
handle_frame e bytes now = elim (parse_huestream_frame bytes) [
  | none ↦ e
  | some f ↦
      let counted = count_frame e now in
      if suppressed counted now then counted else schedule_updates counted f.channels f.color_space
]
