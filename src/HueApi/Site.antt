-- ===== src/HueApi/Site.antt =====
-- Where the API is served: `HueAPIServer.async_start` and `async_stop`, hue_api.py, lines 134-157.
use ha_hue_entertainment.Prelude.{
  ℕ, ◌≡◌, ◌≢◌, refl, subst, Bool, true, false, some, if◌then◌else◌, if-both, arith, Option-cases,
  inl, inr,
}
use ha_hue_entertainment.Prelude.Calls.{returned, os_error, Started}
use ha_hue_entertainment.HaHttp.{HassHttp, HueHttpHost, attach, detach}

-- A server object. The host on Home Assistant's HTTP server is shared by all and stands beside it.
pub record Site : Type 0 where
  pub server : ℕ  -- the object itself
  pub hosted : Bool  -- `_http_host` is not None
  pub runner : Bool  -- `_http_runner` is not None
  pub listening : Bool  -- the runner has a site that is bound to the port

pub record Served : Type 0 where
  pub host : HueHttpHost
  pub site : Site

abbrev pub new_site : ℕ → Bool → Site
new_site server hosted = record {
  server = server;
  hosted = hosted;
  runner = false;
  listening = false;
}

-- `bound`: the port could be bound, where OSError is raised otherwise.
unfoldable pub start_site : HassHttp → Bool → Served → Started Served
unfolding attach
start_site hass bound s =
    if s.site.hosted
    then record {
      after = record s { host = attach hass s.host s.site.server };
      result = returned tt;
    }
    else if bound
    then record {
      after = record s { site = record s.site { runner = true; listening = true } };
      result = returned tt;
    }
    else record { after = record s { site = record s.site { runner = true } }; result = os_error }

unfoldable pub stop_site : Served → Served
unfolding detach
stop_site s = record {
  host = if s.site.hosted then detach s.host s.site.server else s.host;
  site = record s.site {
    runner = false;
    listening = if s.site.runner then false else s.site.listening;
  };
}

-- The server answers: it has its port, or is the one that Home Assistant's server hands requests to.
abbrev pub IsServing : Site → HueHttpHost → Type 0
IsServing site host = if site.hosted then host.target ≡ some site.server else site.listening ≡ true

-- It holds no port, and is not the one that Home Assistant's server hands requests to, if it has been.
pub record IsStopped (s : Served) : Type 0 where
  pub no_runner : s.site.runner ≡ false
  pub no_port : s.site.listening ≡ false
  pub no_target : s.site.hosted ≡ true → s.host.target ≢ some s.site.server

detach-not_target : (host : HueHttpHost) (server : ℕ) → (detach host server).target ≢ some server
unfolding detach
detach-not_target host server e = elim (Option-cases host.target) [
  | inl p ↦ ground arith
  | inr (t, p) ↦ ground arith
]

-- A server is stopped by its stop, if it is one that listens only through its runner.
pub stop_site-IsStopped :
    (s : Served) → (s.site.runner ≡ false → s.site.listening ≡ false) → IsStopped (stop_site s)
unfolding stop_site
stop_site-IsStopped s h = record {
  no_runner = refl;
  no_port = if-both (λ b. b ≡ false) s.site.runner _ _ (λ p. refl) (λ p. h p);
  no_target = λ p e. detach-not_target s.host s.site.server (
      subst (λ b. (if b then detach s.host s.site.server else s.host).target ≡ some s.site.server) p
        e);
}
