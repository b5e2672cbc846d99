-- ===== src/Engine/Overlaps.antt =====
-- Where two features of the engine meet in a way that leaves a trace: a REST command and a stream in one
-- slot, and a start in the middle of a restore (entertainment.py, lines 448-549 and 803-906).
use ha_hue_entertainment.Prelude.{ℕ, ◌≡◌, refl, ◌∙◌, true, false, none, some, arith}
use ha_hue_entertainment.HueStream.{ChannelColor}
use ha_hue_entertainment.ServiceData.{ServiceData}
use ha_hue_entertainment.Engine.{Engine, LightMapping, no_task, reset_mapping}
use ha_hue_entertainment.Engine.Frames.{stream_data, write_slot}
use ha_hue_entertainment.Engine.Classic.{write_command}
use ha_hue_entertainment.Engine.Control.{cancel_release}
use ha_hue_entertainment.Engine.Session.{
  States, begin_session, async_snapshot_lights, restore_begin, restore_finish, drain_cancelled,
}
use ha_hue_entertainment.Engine.Drain.{outgoing}
use ha_hue_entertainment.Engine.Valid.{IsValid}
use ha_hue_entertainment.Engine.Valid.Restore.{
  restore_begin_lem, cancel_release-lem, drain_cancelled-lem, restore_finish-lem,
}

-- A slot that held a REST command which a reset then dropped, as at the start of a session: the first
-- stream command through it is sent without a transition, since the mark of the REST command stays.
pub outgoing-reset_mapping :
    (m : LightMapping) (d : ServiceData) (c : ChannelColor) (cs now : ℕ)
    → let slot = write_slot c cs (reset_mapping (write_command m d)) in
      (slot.pending_data ≡ some (stream_data c cs m.entity_id))
      × ((outgoing slot (stream_data c cs m.entity_id) now).transition ≡ none)
unfolding outgoing write_slot reset_mapping write_command stream_data
outgoing-reset_mapping m d c cs now = (refl, ground arith)

begin_session-active :
    (states : States) (e : Engine) (now : ℕ) → (begin_session states e now).active ≡ true
unfolding begin_session
begin_session-active states e now = ground arith

-- A start outside of any session.
pub start_fresh :
    (states : States) (e : Engine) (now : ℕ)
    → e.releasing_flag ≡ false
    → e.active ≡ false
    → (async_snapshot_lights states e now).active ≡ true
unfolding async_snapshot_lights
start_fresh states e now r a = ground (arith, begin_session-active states e now)

start_ended :
    (states : States) (e : Engine) (now then_at : ℕ)
    → IsValid e
    → e.active ≡ true
    → (async_snapshot_lights states (restore_begin e now).0 then_at).active ≡ true
start_ended states e now then_at v a =
    let c = cancel_release-lem (record e { active = false }) now in
    rw (restore_begin_lem e now v a)
      (start_fresh states (cancel_release (record e { active = false }) now) then_at c.5 c.0)

-- A start of a session that comes while a restore waits for the cancelled drain loop: when the restore
-- goes on, the session is active, but there is no drain loop to serve it, and its snapshot is gone.
pub async_snapshot_lights_overtaken :
    (states : States) (e : Engine) (now then_at later : ℕ)
    → IsValid e
    → e.active ≡ true
    → let started = async_snapshot_lights states (restore_begin e now).0 then_at in
      let finished = (restore_finish true (drain_cancelled started later) later).0 in
      (finished.active ≡ true)
      × (finished.drain_task ≡ no_task)
      × (finished.drain_running ≡ false)
      × (finished.saved_states ≡ none)
async_snapshot_lights_overtaken states e now then_at later v a =
    let started = async_snapshot_lights states (restore_begin e now).0 then_at in
    let f = restore_finish-lem (drain_cancelled started later) later in
    (
      f.0 ∙ (drain_cancelled-lem started later).0 ∙ start_ended states e now then_at v a,
      f.2,
      f.3,
      f.1,
    )
