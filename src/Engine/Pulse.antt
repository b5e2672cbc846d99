-- ===== src/Engine/Pulse.antt =====
-- The session, whether it is being forced to end, and the time of the last frame: what the watchdog
-- reads. Traffic leaves the first two alone, and a forced release holds the third.
use ha_hue_entertainment.Prelude.{
  ℕ, ◌≡◌, refl, ap, ◌∙◌, Bool, true, Option, none, some, List, [], ◌∷◌, arith, Option-cases, inl,
  inr,
}
use ha_hue_entertainment.Json.{Fields, PyText}
use ha_hue_entertainment.HueStream.{ChannelColor, parse_huestream_frame}
use ha_hue_entertainment.ServiceData.{Service, ServiceData}
use ha_hue_entertainment.Engine.{Engine, LightMapping}
use ha_hue_entertainment.Engine.Frames.{
  schedule_update, schedule_updates, log_fps, count_frame, handle_frame,
}
use ha_hue_entertainment.Engine.Classic.{
  handle_light_command, Outcome, ignored, stored, handle_light_command-Outcome, store_command,
}
use ha_hue_entertainment.Engine.Session.{States}
use ha_hue_entertainment.Engine.Drain.{visit, scan, Found, found_or, go_idle, drain_step}
use ha_hue_entertainment.Engine.Steps.Keeps.{Drains, resume_at-keeps}

pub record Pulse : Type 0 where
  pub active : Bool
  pub release_forcing : Bool
  pub last_frame_time : ℕ

abbrev pub pulse : Engine → Pulse
pulse e = record {
  active = e.active;
  release_forcing = e.release_forcing;
  last_frame_time = e.last_frame_time;
}

pulse-visit :
    (states : States) (id : ℕ) (e : Engine) (now : ℕ) → pulse (visit states id e now).0 ≡ pulse e
unfolding visit
pulse-visit states id e now = ground arith

pulse-found_or :
    (r : Engine × Option (Service × ServiceData)) (ids : List ℕ) (go_on : Engine → Found)
    → ((e : Engine) → pulse (go_on e).0 ≡ pulse e)
    → pulse (found_or r ids go_on).0 ≡ pulse r.0
pulse-found_or (e, none) ids go_on h = h e
pulse-found_or (e, some (service, d)) ids go_on h = refl

pulse-scan :
    (states : States) (ids : List ℕ) (e : Engine) (now : ℕ)
    → pulse (scan states ids e now).0 ≡ pulse e
unfolding scan
pulse-scan states [] e now = refl
pulse-scan states (id ∷ ids) e now =
    pulse-found_or (visit states id e now) ids (λ e'. scan states ids e' now)
      (λ e'. pulse-scan states ids e' now)
    ∙ pulse-visit states id e now

pulse-go_idle : (since : Option ℕ) (e : Engine) (now : ℕ) → pulse (go_idle since e now).0 ≡ pulse e
unfolding go_idle
pulse-go_idle since e now = ground arith

pulse-Drains : (p : Pulse) → Drains (λ e now. pulse e ≡ p)
pulse-Drains p = record {
  at_scan = λ states ids e now h. pulse-scan states ids e now ∙ h;
  at_round = λ e now h. h;
  at_call = λ e rest now a h. h;
  at_idle = λ e since now a h. pulse-go_idle since e now ∙ h;
}

pub pulse-drain_step :
    (states : States) (e : Engine) (now : ℕ) → pulse (drain_step states e now).0 ≡ pulse e
unfolding drain_step
pulse-drain_step states e now =
    resume_at-keeps (λ e' now. pulse e' ≡ pulse e) (pulse-Drains (pulse e)) states e.drain_task e
      now refl refl

pulse-store_command :
    (e : Engine) (id : ℕ) (m : LightMapping) (d : Option ServiceData) (now : ℕ)
    → pulse (store_command e id m d now) ≡ pulse e
unfolding store_command
pulse-store_command e id m none now = refl
pulse-store_command e id m (some d) now = ground arith

pulse-Outcome : (e e' : Engine) (id now : ℕ) → Outcome e id now e' → pulse e' ≡ pulse e
pulse-Outcome e e' id now (ignored p) = ap pulse p
pulse-Outcome e e' id now (stored m d s g p) = ap pulse p ∙ pulse-store_command e id m d now

pub pulse-handle_light_command :
    (py : PyText) (e : Engine) (id : ℕ) (body : Fields) (now : ℕ) {e' : Engine}
    → handle_light_command py e id body now ≡ some e'
    → pulse e' ≡ pulse e
pulse-handle_light_command py e id body now {e'} p =
    pulse-Outcome e e' id now (handle_light_command-Outcome py e id body now p)

pulse-schedule_update :
    (e : Engine) (c : ChannelColor) (cs : ℕ) → pulse (schedule_update e c cs) ≡ pulse e
unfolding schedule_update
pulse-schedule_update e c cs = ground arith

pulse-schedule_updates :
    (e : Engine) (channels : List ChannelColor) (cs : ℕ)
    → pulse (schedule_updates e channels cs) ≡ pulse e
unfolding schedule_updates
pulse-schedule_updates e [] cs = refl
pulse-schedule_updates e (c ∷ channels) cs =
    pulse-schedule_updates (schedule_update e c cs) channels cs ∙ pulse-schedule_update e c cs

pulse-count_frame :
    (e : Engine) (now : ℕ) → e.release_forcing ≡ true → pulse (count_frame e now) ≡ pulse e
unfolding count_frame log_fps
pulse-count_frame e now f = ground arith

-- A frame during a forced release.
pub pulse-handle_frame :
    (e : Engine) (bytes : List ℕ) (now : ℕ)
    → e.release_forcing ≡ true
    → pulse (handle_frame e bytes now) ≡ pulse e
unfolding handle_frame
pulse-handle_frame e bytes now f = elim (Option-cases (parse_huestream_frame bytes)) [
  | inl p ↦ rw p refl
  | inr (fr, p) ↦ rw p (
      ground (
        arith,
        pulse-count_frame e now f,
        pulse-schedule_updates (count_frame e now) fr.channels fr.color_space,
      ))
]
