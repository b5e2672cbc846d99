-- ===== src/Engine/View.antt =====
-- What of the engine decides its status and its session: all but the lights and the counters.
-- Frames and the scan of the slots leave it alone.
use ha_hue_entertainment.Prelude.{
  ℕ, ◌≡◌, refl, ◌∙◌, Bool, not, ◌&&◌, ◌||◌, Option, none, some, List, [], ◌∷◌, arith, Option-cases,
  inl, inr, if◌then◌else◌,
}
use ha_hue_entertainment.HueStream.{ChannelColor, parse_huestream_frame}
use ha_hue_entertainment.ServiceData.{Service, ServiceData}
use ha_hue_entertainment.Engine.{
  Engine, State, DrainTask, Status, idle, streaming, classic, paused, releasing, is_before,
  suppressed, status, is_driving_lights,
}
use ha_hue_entertainment.Engine.Frames.{
  schedule_update, schedule_updates, log_fps, count_frame, handle_frame,
}
use ha_hue_entertainment.Engine.Session.{States}
use ha_hue_entertainment.Engine.Drain.{visit, scan, Found, found_or}

pub record View : Type 0 where
  pub active : Bool
  pub saved_states : Option (List State)
  pub drain_task : DrainTask
  pub drain_running : Bool
  pub paused_until : Option ℕ
  pub pause_cancel : Option ℕ
  pub releasing_flag : Bool
  pub release_forcing : Bool
  pub release_cancel : Option ℕ
  pub shown : Status
  pub shown_driving : Bool

abbrev pub view : Engine → View
view e = record {
  active = e.active;
  saved_states = e.saved_states;
  drain_task = e.drain_task;
  drain_running = e.drain_running;
  paused_until = e.paused_until;
  pause_cancel = e.pause_cancel;
  releasing_flag = e.releasing_flag;
  release_forcing = e.release_forcing;
  release_cancel = e.release_cancel;
  shown = e.shown;
  shown_driving = e.shown_driving;
}

view-schedule_update :
    (e : Engine) (c : ChannelColor) (cs : ℕ) → view (schedule_update e c cs) ≡ view e
unfolding schedule_update
view-schedule_update e c cs = ground arith

view-schedule_updates :
    (e : Engine) (channels : List ChannelColor) (cs : ℕ)
    → view (schedule_updates e channels cs) ≡ view e
unfolding schedule_updates
view-schedule_updates e [] cs = refl
view-schedule_updates e (c ∷ channels) cs =
    view-schedule_updates (schedule_update e c cs) channels cs ∙ view-schedule_update e c cs

view-count_frame : (e : Engine) (now : ℕ) → view (count_frame e now) ≡ view e
unfolding count_frame log_fps
view-count_frame e now = ground arith

pub view-handle_frame :
    (e : Engine) (bytes : List ℕ) (now : ℕ) → view (handle_frame e bytes now) ≡ view e
unfolding handle_frame
view-handle_frame e bytes now = elim (Option-cases (parse_huestream_frame bytes)) [
  | inl p ↦ rw p
  | inr (f, p) ↦ rw p (
      ground (
        arith,
        view-count_frame e now,
        view-schedule_updates (count_frame e now) f.channels f.color_space,
      ))
]

view-visit :
    (states : States) (id : ℕ) (e : Engine) (now : ℕ) → view (visit states id e now).0 ≡ view e
unfolding visit
view-visit states id e now = ground arith

view-found_or :
    (r : Engine × Option (Service × ServiceData)) (ids : List ℕ) (go_on : Engine → Found)
    → ((e : Engine) → view (go_on e).0 ≡ view e)
    → view (found_or r ids go_on).0 ≡ view r.0
view-found_or (e, none) ids go_on h = h e
view-found_or (e, some (service, d)) ids go_on h = refl

pub view-scan :
    (states : States) (ids : List ℕ) (e : Engine) (now : ℕ)
    → view (scan states ids e now).0 ≡ view e
unfolding scan
view-scan states [] e now = refl
view-scan states (id ∷ ids) e now =
    view-found_or (visit states id e now) ids (λ e'. scan states ids e' now)
      (λ e'. view-scan states ids e' now)
    ∙ view-visit states id e now

-- The properties read the view alone.
abbrev pub suppressed_of : View → ℕ → Bool
suppressed_of v now = is_before v.paused_until now || v.releasing_flag

abbrev pub status_of : View → ℕ → Status
status_of v now =
    if v.releasing_flag
    then releasing
    else if is_before v.paused_until now
    then paused
    else if v.active
    then streaming
    else if v.drain_running
    then classic
    else idle

abbrev pub driving_of : View → ℕ → Bool
driving_of v now = not (suppressed_of v now) && (v.active || v.drain_running)

pub suppressed-view : (e : Engine) (now : ℕ) → suppressed e now ≡ suppressed_of (view e) now
unfolding suppressed
suppressed-view e now = refl

status-view : (e : Engine) (now : ℕ) → status e now ≡ status_of (view e) now
unfolding status
status-view e now = refl

driving-view : (e : Engine) (now : ℕ) → is_driving_lights e now ≡ driving_of (view e) now
unfolding is_driving_lights
driving-view e now = refl
