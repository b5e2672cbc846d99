-- ===== src/Bridge/Stopped.antt =====
-- What runs after a start of the servers, whether it succeeds or not, and after a stop: __init__.py, lines
-- 326-361.
use ha_hue_entertainment.Prelude.{
  ℕ, ◌≡◌, refl, sym, subst, Bool, true, false, String, none, some, if-both, arith,
}
use ha_hue_entertainment.Prelude.Calls.{returned, other_error, Started}
use ha_hue_entertainment.HueApi.Host.{PyHost}
use ha_hue_entertainment.HueApi.Site.{
  Site, Served, IsServing, IsStopped, start_site, stop_site-IsStopped,
}
use ha_hue_entertainment.HaHttp.{HueHttpHost, attach}
use ha_hue_entertainment.Discovery.{ServiceInfo, service_of, start_discovery, stop_discovery}
use ha_hue_entertainment.Dtls.{DtlsServer, new_server, setup_ctx, then_thread, socket_bound}
use ha_hue_entertainment.Dtls as Dtls
use ha_hue_entertainment.Bridge.Lifecycle.{
  Resolved, Servers, new_servers, Machine, ready, not_ready, failed, Outcome, stop_both, advertised,
  after_dtls, after_api, async_start, stop_servers,
}

-- The DTLS server has no thread and no context.
pub record NoDtls (d : DtlsServer) : Type 0 where
  pub not_running : d.running ≡ false
  pub no_thread : d.thread ≡ false
  pub no_context : d.context ≡ false

pub record NothingRuns (s : Servers) : Type 0 where
  pub api_stopped : IsStopped s.api
  pub no_dtls : NoDtls s.dtls
  pub not_advertised : s.discovery.service_info ≡ none

-- The API is served and announced, and the DTLS server is on; its thread is there if its port could be
-- bound.
pub record AllRun (dtls_bound : Bool) (s : Servers) : Type 0 where
  pub api_serving : IsServing s.api.site s.api.host
  pub dtls_running : s.dtls.running ≡ true
  pub dtls_thread : s.dtls.thread ≡ dtls_bound
  pub info : ServiceInfo
  pub is_advertised : s.discovery.service_info ≡ some info

-- A start that is reported as not ready leaves nothing; another exception leaves the API served.
abbrev pub IsStarted : Bool → Outcome → Type 0
IsStarted dtls_bound (s, ready) = AllRun dtls_bound s
IsStarted dtls_bound (s, not_ready) = NothingRuns s
IsStarted dtls_bound (s, failed) = IsServing s.api.site s.api.host

-- A site listens only through its runner.
abbrev pub IsProper : Site → Type 0
IsProper site = site.runner ≡ false → site.listening ≡ false

abbrev pub IsGood : Bool → Outcome → Type 0
IsGood dtls_bound (s, start) = IsStarted dtls_bound (s, start) × IsProper s.api.site

stopped_dtls : (d : DtlsServer) → NoDtls (Dtls.async_stop true d)
unfolding Dtls.async_stop
stopped_dtls d = record { not_running = refl; no_thread = ground arith; no_context = refl }

pub stop_servers-NothingRuns :
    (s : Servers) → IsProper s.api.site → NothingRuns (stop_servers true s)
unfolding stop_servers stop_discovery
stop_servers-NothingRuns s h = record {
  api_stopped = stop_site-IsStopped s.api h;
  no_dtls = stopped_dtls s.dtls;
  not_advertised = refl;
}

stop_both-NothingRuns :
    (s : Servers)
    → IsProper s.api.site
    → s.discovery.service_info ≡ none
    → NothingRuns (stop_both s)
unfolding stop_both
stop_both-NothingRuns s h n = record {
  api_stopped = stop_site-IsStopped s.api h;
  no_dtls = stopped_dtls s.dtls;
  not_advertised = n;
}

module _ (host : PyHost) (m : Machine) where
  advertised-IsGood :
      (s : Servers)
      → IsProper s.api.site
      → IsServing s.api.site s.api.host
      → s.dtls.running ≡ true
      → s.dtls.thread ≡ true
      → IsGood m.dtls_bound (after_dtls host m s (returned tt))
  unfolding start_discovery socket_bound
  advertised-IsGood s proper serving r t =
      let d = start_discovery host m.registered s.discovery in
      let on : Servers = record s { dtls = socket_bound m.dtls_bound s.dtls } in
      if-both (λ c. IsGood m.dtls_bound (advertised on d.after c)) m.registered (returned tt)
        other_error
        (λ p. (
          record {
            api_serving = serving;
            dtls_running = r;
            dtls_thread = rw t refl;
            info = service_of host s.discovery;
            is_advertised = refl;
          },
          proper,
        ))
        (λ p. (serving, proper))

  dtls-IsGood :
      (s : Servers)
      → IsProper s.api.site
      → IsServing s.api.site s.api.host
      → s.dtls ≡ new_server
      → IsGood m.dtls_bound (after_api host m s (returned tt))
  unfolding Dtls.async_start setup_ctx
  dtls-IsGood s proper serving e =
      let P : Started DtlsServer → Type 0 =
        λ d. IsGood m.dtls_bound (after_dtls host m (record s { dtls = d.after }) d.result) in
      let all : DtlsServer = record {
        running = true;
        thread = true;
        context = true;
        psk_cb = true;
        loop = true;
      } in
      subst (λ d. P (Dtls.async_start m.context d)) (sym e)
        (if-both (λ d. P (then_thread d)) m.context _ _
          (λ p. advertised-IsGood (record s { dtls = all }) proper serving refl refl)
          (λ p. (serving, proper)))

  pub api-IsGood :
      (s : Servers)
      → s.api.site.runner ≡ false
      → s.api.site.listening ≡ false
      → s.dtls ≡ new_server
      → s.discovery.service_info ≡ none
      → IsGood m.dtls_bound (async_start host m s)
  unfolding async_start start_site
  api-IsGood s r l e n =
      let P : Started Served → Type 0 =
        λ a. IsGood m.dtls_bound (after_api host m (record s { api = a.after }) a.result) in
      let attached : Served = record s.api { host = attach m.hass s.api.host s.api.site.server } in
      let bound : Served = record s.api {
        site = record s.api.site { runner = true; listening = true };
      } in
      let unbound : Served = record s.api { site = record s.api.site { runner = true } } in
      if-both P s.api.site.hosted _ _
        (λ p. dtls-IsGood (record s { api = attached }) (λ q. l) (rw p refl) e)
        (λ p.
          if-both P m.bound _ _
            (λ q. dtls-IsGood (record s { api = bound }) (λ w. ground arith) (rw p refl) e)
            (λ q. (stop_both-NothingRuns (record s { api = unbound }) (λ w. l) n, λ w. refl)))

-- Whatever the ports, OpenSSL and zeroconf do: a start of the servers of an entry either returns, and
-- then the API is served and announced and the DTLS server is on, with a thread that goes on if it could
-- bind its port and has ended if not; or raises ConfigEntryNotReady, and then none does; or raises another exception,
-- and then the API is still served. After any of these a stop, with a thread that ends in time, leaves
-- nothing running.
pub async_start-IsStarted :
    (python : PyHost) (m : Machine) (host : HueHttpHost) (server : ℕ) (bridge_id : String)
    (r : Resolved)
    → IsStarted m.dtls_bound (async_start python m (new_servers host server bridge_id r))
      × NothingRuns
          (stop_servers true (async_start python m (new_servers host server bridge_id r)).0)
unfolding new_servers
async_start-IsStarted python m host server bridge_id r =
    let (started, proper) =
      api-IsGood python m (new_servers host server bridge_id r) refl refl refl refl in
    (started, stop_servers-NothingRuns _ proper)
