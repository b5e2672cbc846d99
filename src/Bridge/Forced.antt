-- ===== src/Bridge/Forced.antt =====
-- A release that a TV does not heed: its traffic cannot keep the session from the watchdog.
use ha_hue_entertainment.Prelude.{
  ℕ, ◌≡◌, ◌≢◌, refl, ap, ◌∙◌, sym, Bool, true, false, String, Option, none, some, List, [], ◌∷◌,
  ◌+◌, ◌-◌, ◌<◌, ◌≤◌, arith, Option-cases, inl, inr, if-both, leb, All, subst,
}
use ha_hue_entertainment.Json.{Fields, PyText, get}
use ha_hue_entertainment.UserStore.{get_psk}
use ha_hue_entertainment.HueApi.{light_command, Reply, Outcome, answer, link_button_active}
use ha_hue_entertainment.HueApi.Host.{PyHost}
use ha_hue_entertainment.HueApi.Requests.{
  description_xml, config, create_user, datastore, config_auth, capabilities_of, lights, groups,
  light_by_id, light_state, group_by_id, group_put, stream, catchall, put_catchall, post_catchall,
  delete_catchall, Request, authorized,
}
use ha_hue_entertainment.HueApi.Handlers.{
  one_of, handle_create_user, handle_v1_light_state, handle_v1_put_catchall,
  handle_v1_post_catchall, handle_v1_delete_catchall, handle,
}
use ha_hue_entertainment.HueApi.Guarded.{
  authorized-all, with_json-all, commanded-all, found_or_404-all,
}
use ha_hue_entertainment.Engine.{Engine}
use ha_hue_entertainment.Engine.Classic.{handle_light_command}
use ha_hue_entertainment.Engine.Control.{async_pause, async_resume, on_pause_expired}
use ha_hue_entertainment.Engine.Session.{States, list_or}
use ha_hue_entertainment.Engine.Steps.{fire, step}
use ha_hue_entertainment.Engine.Valid.{IsValid}
use ha_hue_entertainment.Bridge.Released.{IsEnded, frame_watchdog-timeout}
use ha_hue_entertainment.Bridge.Valid.{bridge_run-IsValid}
use ha_hue_entertainment.Engine.Pulse.{
  pulse, pulse-drain_step, pulse-handle_light_command, pulse-handle_frame,
}
use ha_hue_entertainment.Bridge.{
  Bridge, max_yield, sleeping, frame_timeout, frame_watchdog, call_back, serve, handle_pause,
  handle_resume, BridgeEvent, request, pause_service, resume_service, release_service,
  watchdog_resumed, frame, pause_timer, grace_timer, drain, or_refused, bridge_step, bridge_run,
}

-- What can still come while a release is being forced, and neither starts nor stops a session.
abbrev pub is_traffic : BridgeEvent → Bool
is_traffic (request (group_put u id) r states) = false
is_traffic (request (stream u id) r states) = false
is_traffic (request route r states) = true
is_traffic (release_service seconds settle) = false
is_traffic watchdog_resumed = false
is_traffic grace_timer = false
is_traffic _ = true

abbrev pub Traffic : List (ℕ × BridgeEvent) → Type 0
Traffic history = All (λ (x : ℕ × BridgeEvent). is_traffic x.1 ≡ true) history

-- The time at the end of a history.
abbrev pub time_after : ℕ → List (ℕ × BridgeEvent) → ℕ
time_after now [] = now
time_after now ((delay, event) ∷ rest) = time_after (now + delay) rest

-- The watchdog and what it reads are as they were.
abbrev Same : Bridge → Bridge → Type 0
Same b b' = (pulse b'.engine ≡ pulse b.engine) × (b'.watchdog ≡ b.watchdog)

module _ (e : Engine) (now : ℕ) where
  pulse-async_pause : (seconds : ℕ) → pulse (async_pause e seconds now) ≡ pulse e
  unfolding async_pause
  pulse-async_pause seconds = ground arith

  pulse-async_resume : pulse (async_resume e now) ≡ pulse e
  unfolding async_resume
  pulse-async_resume = ground arith

  pulse-pause_timer :
      (timer : Option ℕ) → pulse (fire timer now (on_pause_expired e now) e) ≡ pulse e
  unfolding fire on_pause_expired
  pulse-pause_timer timer = ground arith

handle_pause-Same :
    (b : Bridge) (seconds now : ℕ) → Same b (or_refused b (handle_pause b seconds now))
unfolding handle_pause
handle_pause-Same b seconds now =
    if-both (λ (o : Option Bridge). Same b (or_refused b o)) (leb seconds max_yield) _ _
      (λ _. (pulse-async_pause b.engine now seconds, refl)) (λ _. (refl, refl))

module _ (py : PyText) (states : States) (b : Bridge) (now : ℕ) where
  abbrev Serves : Outcome → Type 0
  Serves o = Same b (call_back py states (record b { api_server = o.api }) o.effect o.reply now).0

  answered-Serves : (reply : Reply) → Serves (answer b.api_server reply)
  unfolding call_back
  answered-Serves reply = (refl, refl)

  command-Serves :
      (body : Fields) (reply : Reply) (n : ℕ)
      → Serves (record { api = b.api_server; effect = some (light_command n body); reply = reply })
  unfolding call_back
  command-Serves body reply n = elim (Option-cases (handle_light_command py b.engine n body now)) [
    | inl p ↦ rw p (refl, refl)
    | inr (e, p) ↦ rw p (pulse-handle_light_command py b.engine n body now p, refl)
  ]

  handle_v1_light_state-Serves :
      (id : String) (r : Request) → Serves (handle_v1_light_state py b.api_server id r)
  unfolding handle_v1_light_state
  handle_v1_light_state-Serves id r =
      with_json-all Serves b.api_server answered-Serves r.body _ (λ fs.
        if-both Serves (py.is_digit id) _ _
          (λ p.
            commanded-all Serves b.api_server answered-Serves (py.int_of id) fs _
              (λ n. command-Serves fs _ n))
          (λ p. answered-Serves _))

  handle_create_user-Serves : (r : Request) → Serves (handle_create_user b.api_server r now)
  unfolding handle_create_user call_back
  handle_create_user-Serves r = with_json-all Serves b.api_server answered-Serves r.body _ (λ fs.
      if-both Serves (link_button_active b.api_server now) _ _ (λ _. (refl, refl))
        (λ _. (refl, refl)))

  handle_v1_put_catchall-Serves :
      (resource id param : String) (r : Request)
      → Serves (handle_v1_put_catchall b.api_server resource id param r)
  unfolding handle_v1_put_catchall
  handle_v1_put_catchall-Serves resource id param r =
      with_json-all Serves b.api_server answered-Serves r.body _ (λ fs. answered-Serves _)

  authorized-Serves :
      (u : String) (o : Outcome)
      → (get_psk b.api_server.user_store u ≢ none → Serves o)
      → Serves (authorized b.api_server u o)
  authorized-Serves = authorized-all Serves b.api_server answered-Serves

  read-Serves :
      (u : String) (reply : Reply) → Serves (authorized b.api_server u (answer b.api_server reply))
  read-Serves u reply = authorized-Serves u (answer b.api_server reply) (λ _. answered-Serves reply)

  found-Serves : (prefix id : String) (fs : Fields) → Serves (one_of b.api_server prefix id fs)
  unfolding one_of
  found-Serves prefix id fs =
      found_or_404-all Serves b.api_server answered-Serves prefix id (get id fs)

module _ (py : PyText) (host : PyHost) where
  bridge_step-Same :
      (b : Bridge) (event : BridgeEvent) (now : ℕ)
      → b.engine.release_forcing ≡ true
      → is_traffic event ≡ true
      → Same b (bridge_step py host b event now)
  unfolding bridge_step serve handle handle_v1_post_catchall handle_v1_delete_catchall handle_resume
      step call_back
  bridge_step-Same b (frame bytes) now f t = (pulse-handle_frame b.engine bytes now f, refl)
  bridge_step-Same b (drain states) now f t = (pulse-drain_step states b.engine now, refl)
  bridge_step-Same b (request description_xml r states) now f t = (refl, refl)
  bridge_step-Same b (request config r states) now f t = (refl, refl)
  bridge_step-Same b (request create_user r states) now f t =
      handle_create_user-Serves py states b now r
  bridge_step-Same b (request (datastore u) r states) now f t = read-Serves py states b now u _
  bridge_step-Same b (request (config_auth u) r states) now f t = read-Serves py states b now u _
  bridge_step-Same b (request (capabilities_of u) r states) now f t =
      read-Serves py states b now u _
  bridge_step-Same b (request (lights u) r states) now f t = read-Serves py states b now u _
  bridge_step-Same b (request (groups u) r states) now f t = read-Serves py states b now u _
  bridge_step-Same b (request (catchall u) r states) now f t = read-Serves py states b now u _
  bridge_step-Same b (request (post_catchall u resource) r states) now f t =
      read-Serves py states b now u _
  bridge_step-Same b (request (delete_catchall u resource id) r states) now f t =
      read-Serves py states b now u _
  bridge_step-Same b (request (light_by_id u id) r states) now f t =
      authorized-Serves py states b now u _ (λ _. found-Serves py states b now _ id _)
  bridge_step-Same b (request (group_by_id u id) r states) now f t =
      authorized-Serves py states b now u _ (λ _. found-Serves py states b now _ id _)
  bridge_step-Same b (request (light_state u id) r states) now f t =
      authorized-Serves py states b now u _ (λ _. handle_v1_light_state-Serves py states b now id r)
  bridge_step-Same b (request (put_catchall u resource id param) r states) now f t =
      authorized-Serves py states b now u _
        (λ _. handle_v1_put_catchall-Serves py states b now resource id param r)
  bridge_step-Same b (request (group_put u id) r states) now f t = cc
  bridge_step-Same b (request (stream u id) r states) now f t = cc
  bridge_step-Same b (release_service seconds settle) now f t = cc
  bridge_step-Same b watchdog_resumed now f t = cc
  bridge_step-Same b grace_timer now f t = cc
  bridge_step-Same b (pause_service seconds) now f t = handle_pause-Same b seconds now
  bridge_step-Same b resume_service now f t = (pulse-async_resume b.engine now, refl)
  bridge_step-Same b pause_timer now f t =
      (pulse-pause_timer b.engine now b.engine.pause_cancel, refl)

  bridge_run-Same :
      (b : Bridge) (now : ℕ) (history : List (ℕ × BridgeEvent))
      → b.engine.release_forcing ≡ true
      → Traffic history
      → Same b (bridge_run py host b now history)
  unfolding bridge_run
  bridge_run-Same b now [] f t = (refl, refl)
  bridge_run-Same b now ((delay, event) ∷ rest) f (t, ts) =
      let one = bridge_step-Same b event (now + delay) f t in
      let more =
        bridge_run-Same (bridge_step py host b event (now + delay)) (now + delay) rest
          (ap (λ p. p.release_forcing) one.0 ∙ f) ts in
      (more.0 ∙ one.0, more.1 ∙ one.1)

  -- A release is being forced on a bridge whose engine satisfies its invariant, and anything comes
  -- but a start or stop of the stream, another release, a grace timer and a poll of the watchdog:
  -- the poll that is due when more than the timeout has passed since the last frame before the
  -- forcing ends the session, the release and the drain loop, clears the API flags, and gives the
  -- lights no states.
  pub forced_release_ends :
      (b : Bridge) (now wake_at : ℕ) (history : List (ℕ × BridgeEvent))
      → IsValid b.engine
      → b.engine.release_forcing ≡ true
      → b.watchdog ≡ sleeping wake_at
      → Traffic history
      → wake_at ≤ time_after now history
      → frame_timeout < time_after now history - b.engine.last_frame_time
      → let b' = bridge_run py host b now history in
        let ended = frame_watchdog b' (time_after now history) in IsEnded b' ended × (ended.1 ≡ [])
  forced_release_ends b now wake_at history v f w traffic due silent =
      let b' = bridge_run py host b now history in
      let later = time_after now history in
      let same = bridge_run-Same b now history f traffic in
      let v' = bridge_run-IsValid py host b now history v in
      let forcing = ap (λ p. p.release_forcing) same.0 ∙ f in
      let active = v'.forcing_active forcing in
      let last = ap (λ p. p.last_frame_time) same.0 in
      let ended =
        frame_watchdog-timeout b' wake_at later v' (same.1 ∙ w) active due
          (subst (λ t. frame_timeout < later - t) (sym last) silent) in
      (
        ended,
        ended.lights_restored ∙ ap list_or (v'.releasing_forgets (v'.forcing_releasing forcing)),
      )
