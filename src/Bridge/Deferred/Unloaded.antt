-- ===== src/Bridge/Deferred/Unloaded.antt =====
-- What an unload leaves, whatever came before: __init__.py, lines 349-389 and 400-411.
use ha_hue_entertainment.Prelude.{◌≡◌, subst, false, String, ℕ}
use ha_hue_entertainment.HueApi.Host.{PyHost}
use ha_hue_entertainment.HaHttp.{HueHttpHost}
use ha_hue_entertainment.Bridge.Lifecycle.{Resolved, Servers, new_servers}
use ha_hue_entertainment.Bridge.Stopped.{NothingRuns}
use ha_hue_entertainment.Bridge.Deferred.{
  unloaded, Life, Step, has_started, stops, leaves, unloads, calls_back, elsewhere, Lives, begins,
  goes_on,
}
use ha_hue_entertainment.Bridge.Deferred.Fits.{Fresh, Fits, IsSound}
use ha_hue_entertainment.Bridge.Deferred.Sound.{
  new_servers-Fresh, set_up_entry-IsSound, deferred_start-IsSound, stop_event-IsSound,
  unload_platforms-IsSound, unload_entry-IsSound, on_unload-IsSound, with_host-IsSound,
}

module _ (python : PyHost) where
  Step-IsSound : {l l' : Life} → Step python l l' → IsSound l → IsSound l'
  Step-IsSound (has_started l m e n) h = deferred_start-IsSound python m l e n h
  Step-IsSound (stops l) h = stop_event-IsSound l h
  Step-IsSound (leaves l e) h = unload_platforms-IsSound l e h
  Step-IsSound (unloads l e) h = unload_entry-IsSound l e h
  Step-IsSound (calls_back l e) h = on_unload-IsSound l e h
  Step-IsSound (elsewhere l host g) h = with_host-IsSound l host g h

  Lives-IsSound : {s : Servers} {l : Life} → Fresh s → Lives python s l → IsSound l
  Lives-IsSound f (begins m state) = set_up_entry-IsSound python m state _ f
  Lives-IsSound f (goes_on r t) = Step-IsSound t (Lives-IsSound f r)

-- However an entry was set up, before, while or after Home Assistant runs, whatever its starts met, be
-- it while its platforms unload, and whatever other entries do with the shared host: once its unload
-- callbacks have been called, no server of it runs and no start of it waits, then and ever after. The
-- conditions: the thread ends in time, and a start runs to its end before anything else.
pub unloaded_life :
    (python : PyHost) (host : HueHttpHost) (server : ℕ) (bridge_id : String) (r : Resolved)
    (l : Life)
    → Lives python (new_servers host server bridge_id r) l
    → l.phase ≡ unloaded
    → NothingRuns l.servers × (l.waits ≡ false)
unloaded_life python host server bridge_id r l lives e =
    let sound = Lives-IsSound python (new_servers-Fresh host server bridge_id r) lives in
    subst (λ ph. Fits ph l.hass_state l.waits l.servers) e sound.fits
