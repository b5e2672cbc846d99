-- ===== src/Bridge/Deferred/Sound.antt =====
-- Each event in the life of an entry keeps it up: __init__.py, lines 349-389 and 400-411.
use ha_hue_entertainment.Prelude.{◌≡◌, ◌≢◌, refl, sym, subst, true, String, ℕ, some, if-both}
use ha_hue_entertainment.HueApi.Host.{PyHost}
use ha_hue_entertainment.HaHttp.{HueHttpHost}
use ha_hue_entertainment.Bridge.Lifecycle.{
  Resolved, Servers, new_servers, Machine, ready, not_ready, failed, Outcome, async_start,
  stop_servers,
}
use ha_hue_entertainment.Bridge.Stopped.{
  NothingRuns, IsProper, IsGood, api-IsGood, stop_servers-NothingRuns,
}
use ha_hue_entertainment.Bridge.Deferred.{
  CoreState, not_started, running, stopping, set_up, unloading, Life, started_now, set_up_entry,
  deferred_start, stop_event, unload_platforms, leaving, unload_entry, on_unload, with_host,
}
use ha_hue_entertainment.Bridge.Deferred.Fits.{
  Fresh, Fits, IsSound, Fits-started, Fits-idle, waiting_only, Fits-stopping, Gone-set_up,
  cancel_deferred_start-Gone, Fits-elsewhere,
}

pub new_servers-Fresh :
    (host : HueHttpHost) (server : ℕ) (bridge_id : String) (r : Resolved)
    → Fresh (new_servers host server bridge_id r)
unfolding new_servers
new_servers-Fresh host server bridge_id r = record {
  no_runner = refl;
  no_port = refl;
  new = refl;
  no_info = refl;
}

stopped-IsProper : (s : Servers) → NothingRuns s → IsProper s.api.site
stopped-IsProper s n = λ e. n.api_stopped.no_port

started_now-IsSound : (o : Outcome) → IsProper o.0.api.site → IsSound (started_now running o)
started_now-IsSound (s, ready) p = record { proper = p; fits = refl }
started_now-IsSound (s, not_ready) p = record { proper = p; fits = refl }
started_now-IsSound (s, failed) p = record { proper = p; fits = refl }

async_start-IsGood :
    (python : PyHost) (m : Machine) (s : Servers)
    → Fresh s
    → IsGood m.dtls_bound (async_start python m s)
async_start-IsGood python m s f = api-IsGood python m s f.no_runner f.no_port f.new f.no_info

pub set_up_entry-IsSound :
    (python : PyHost) (m : Machine) (state : CoreState) (s : Servers)
    → Fresh s
    → IsSound (set_up_entry python m state s)
unfolding set_up_entry
set_up_entry-IsSound python m not_started s f = record { proper = λ e. f.no_port; fits = λ e. f }
set_up_entry-IsSound python m running s f =
    started_now-IsSound (async_start python m s) (async_start-IsGood python m s f).1
set_up_entry-IsSound python m stopping s f = record { proper = λ e. f.no_port; fits = tt }

pub deferred_start-IsSound :
    (python : PyHost) (m : Machine) (l : Life)
    → l.hass_state ≡ not_started
    → l.phase ≢ unloading
    → IsSound l
    → IsSound (deferred_start python m l)
unfolding deferred_start
deferred_start-IsSound python m l e n h =
    let fits = subst (λ state. Fits l.phase state l.waits l.servers) e h.fits in
    if-both IsSound l.waits _ _
      (λ p.
        let waiting = subst (λ w. Fits l.phase not_started w l.servers) p fits in
        let f = waiting_only l.phase l.servers n waiting in
        record {
          proper = (async_start-IsGood python m l.servers f).1;
          fits = Fits-started l.phase l.servers (async_start python m l.servers).0 n waiting;
        })
      (λ p.
        let idle = subst (λ w. Fits l.phase not_started w l.servers) p fits in
        record {
          proper = h.proper;
          fits =
              subst (λ w. Fits l.phase running w l.servers) (sym p)
                (Fits-idle l.phase l.servers n idle);
        })

pub stop_event-IsSound : (l : Life) → IsSound l → IsSound (stop_event l)
unfolding stop_event
stop_event-IsSound l h =
    let n = stop_servers-NothingRuns l.servers h.proper in
    if-both IsSound l.stop_waits _ _
      (λ p. record {
        proper = stopped-IsProper (stop_servers true l.servers) n;
        fits = Fits-stopping l.phase l.hass_state l.waits l.servers _ (λ m. n) h.fits;
      })
      (λ p. record {
        proper = h.proper;
        fits = Fits-stopping l.phase l.hass_state l.waits l.servers _ (λ m. m) h.fits;
      })

pub unload_platforms-IsSound :
    (l : Life) → l.phase ≡ set_up → IsSound l → IsSound (unload_platforms l)
unfolding unload_platforms
unload_platforms-IsSound l e h = record {
  proper = h.proper;
  fits = subst (λ ph. Fits ph l.hass_state l.waits l.servers) e h.fits;
}

pub unload_entry-IsSound : (l : Life) → l.phase ≡ leaving → IsSound l → IsSound (unload_entry l)
unfolding unload_entry
unload_entry-IsSound l e h =
    let n = stop_servers-NothingRuns l.servers h.proper in
    let waiting = subst (λ ph. Fits ph l.hass_state l.waits l.servers) e h.fits in
    record {
      proper = stopped-IsProper (stop_servers true l.servers) n;
      fits = (n, Gone-set_up l.hass_state l.waits l.servers waiting);
    }

pub on_unload-IsSound : (l : Life) → l.phase ≡ unloading → IsSound l → IsSound (on_unload l)
unfolding on_unload
on_unload-IsSound l e h =
    let (n, gone) = subst (λ ph. Fits ph l.hass_state l.waits l.servers) e h.fits in
    record { proper = h.proper; fits = (n, cancel_deferred_start-Gone l.hass_state l.waits gone) }

pub with_host-IsSound :
    (l : Life) (host : HueHttpHost)
    → (host.target ≡ some l.servers.api.site.server
        → l.servers.api.host.target ≡ some l.servers.api.site.server)
    → IsSound l
    → IsSound (with_host l host)
with_host-IsSound l host g h = record {
  proper = h.proper;
  fits =
      Fits-elsewhere l.phase l.hass_state l.waits l.servers (with_host l host).servers
        (λ f. record {
          no_runner = f.no_runner;
          no_port = f.no_port;
          new = f.new;
          no_info = f.no_info;
        })
        (λ n. record {
          api_stopped = record {
            no_runner = n.api_stopped.no_runner;
            no_port = n.api_stopped.no_port;
            no_target = λ hosted t. n.api_stopped.no_target hosted (g t);
          };
          no_dtls = n.no_dtls;
          not_advertised = n.not_advertised;
        })
        h.fits;
}
