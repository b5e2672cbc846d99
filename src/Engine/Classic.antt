-- ===== src/Engine/Classic.antt =====
-- Per-light commands over REST: `handle_light_command` of entertainment.py, lines 803-839.
pub mod Merge
use ha_hue_entertainment.Prelude.{
  ℕ, ◌≡◌, Bool, true, false, not, ◌&&◌, Option, none, some, arith, inl, inr, Bool-cases,
  Option-cases, if◌then◌else◌,
}
use ha_hue_entertainment.Json.{Fields, get, is_bool, PyText}
use ha_hue_entertainment.ServiceData.{
  Service, turn_on, turn_off, ServiceData, empty, update, is_empty, v1_state_to_service_data,
}
use ha_hue_entertainment.Engine.{
  Engine, LightMapping, suppressed, get_mapping, set_mapping, ensure_drain_task,
}

abbrev pub is_turn_off : Option Service → Bool
is_turn_off (some turn_off) = true
is_turn_off (some turn_on) = false
is_turn_off none = false

-- The command that waits in the slot, if it came by REST.
unfoldable pub queued : LightMapping → ServiceData
unfolding is_empty
queued m = elim m.pending_data [
  | none ↦ empty
  | some d ↦ if m.dirty && not (is_empty d) && m.explicit_transition then d else empty
]

-- What the queued command becomes; `none` where the new one is dropped.
unfoldable pub merge : Fields → ServiceData → ServiceData → Option ServiceData
unfolding get update
merge body command pending =
    if is_turn_off command.service
    then some (update empty command)
    else if is_turn_off pending.service
    then (if is_bool true (get "on" body) then some (update empty command) else none)
    else some (update pending command)

unfoldable pub write_command : LightMapping → ServiceData → LightMapping
write_command m d = record m {
  pending_data = some (record d { entity_id = some m.entity_id });
  explicit_transition = true;
  dirty = true;
}

unfoldable pub store_command : Engine → ℕ → LightMapping → Option ServiceData → ℕ → Engine
unfolding write_command set_mapping ensure_drain_task
store_command e light_id m none now = e
store_command e light_id m (some d) now =
    ensure_drain_task
      (record e { mappings = set_mapping light_id (write_command m d) e.mappings; wake = true }) now

-- `none` where the translation of the body raises; nothing is written before that.
unfoldable pub apply_command :
    Engine → ℕ → LightMapping → Fields → Option ServiceData → ℕ → Option Engine
unfolding is_empty queued merge store_command
apply_command e light_id m body none now = none
apply_command e light_id m body (some command) now =
    if is_empty command
    then some e
    else some (store_command e light_id m (merge body command (queued m)) now)

unfoldable pub handle_light_command : PyText → Engine → ℕ → Fields → ℕ → Option Engine
unfolding suppressed get_mapping v1_state_to_service_data apply_command
handle_light_command py e light_id body now =
    if suppressed e now then some e else elim (get_mapping light_id e.mappings) [
      | none ↦ some e
      | some m ↦ apply_command e light_id m body (v1_state_to_service_data py body) now
    ]

-- A command leaves the engine alone, or stores what `merge` made of it.
pub data Outcome (e : Engine) (light_id : ℕ) (now : ℕ) (e' : Engine) : Type 0 where
  ignored : e' ≡ e → Outcome e light_id now e'
  stored :
      (m : LightMapping) (d : Option ServiceData)
      → suppressed e now ≡ false
      → get_mapping light_id e.mappings ≡ some m
      → e' ≡ store_command e light_id m d now
      → Outcome e light_id now e'

apply_command-Outcome :
    (e : Engine) (light_id : ℕ) (m : LightMapping) (body : Fields) (command : Option ServiceData)
    (now : ℕ) {e' : Engine}
    → suppressed e now ≡ false
    → get_mapping light_id e.mappings ≡ some m
    → apply_command e light_id m body command now ≡ some e'
    → Outcome e light_id now e'
unfolding apply_command
apply_command-Outcome e light_id m body none now s g h = cc
apply_command-Outcome e light_id m body (some command) now s g h =
    elim (Bool-cases (is_empty command)) [
      | inl p ↦ ignored (ground arith)
      | inr p ↦ stored m (merge body command (queued m)) s g (ground arith)
    ]

pub handle_light_command-Outcome :
    (py : PyText) (e : Engine) (light_id : ℕ) (body : Fields) (now : ℕ) {e' : Engine}
    → handle_light_command py e light_id body now ≡ some e'
    → Outcome e light_id now e'
unfolding handle_light_command
handle_light_command-Outcome py e light_id body now h = elim (Bool-cases (suppressed e now)) [
  | inl p ↦ ignored (ground arith)
  | inr p ↦ elim (Option-cases (get_mapping light_id e.mappings)) [
    | inl q ↦ ignored (ground arith)
    | inr (m, q) ↦
        apply_command-Outcome e light_id m body (v1_state_to_service_data py body) now p q
          (ground arith)
  ]
]
