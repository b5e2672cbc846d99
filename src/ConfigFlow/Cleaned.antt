-- ===== src/ConfigFlow/Cleaned.antt =====
-- What the clean-up of the dialog leaves: config_flow.py, lines 90-100.
use ha_hue_entertainment.Prelude.{
  ℕ, ◌≡◌, ◌≢◌, refl, sym, ◌∙◌, subst, Bool, true, false, Option, none, some, some-injective,
  if◌then◌else◌, arith,
}
use ha_hue_entertainment.HueApi.Site.{IsServing, Served, stop_site, stop_site-IsStopped}
use ha_hue_entertainment.Discovery.{Discovery, stop_discovery}
use ha_hue_entertainment.ConfigFlow.Steps.{
  Task, no_task, TempApi, Flow, form_user, form_pre_pairing, progress, done_paired, done_not_paired,
  form_not_paired, raised, aborted, entry, Step, cleanup_temp_servers, stop_temp_api,
  stop_temp_discovery, cancel_task,
}

-- No temporary server is served, by itself or by Home Assistant's, and none is announced.
pub record NoServers (f : Flow) : Type 0 where
  pub no_api : f.temp_api ≡ none
  pub no_discovery : f.temp_discovery ≡ none
  pub no_port : f.port_held ≡ false
  pub no_target : (server : ℕ) → f.attached ≡ some server → f.host.target ≢ some server
  pub no_service : f.advertised ≡ false

-- What the clean-up needs to know of the server: it is the one that was attached or has the port.
pub record HasServer (f : Flow) (temp : TempApi) : Type 0 where
  pub has_api : f.temp_api ≡ some temp
  pub attached_is : f.attached ≡ (if temp.site.hosted then some temp.site.server else none)
  pub proper : temp.site.runner ≡ false → temp.site.listening ≡ false
  pub service_is : f.temp_discovery ≡ none → f.advertised ≡ false

pub record Waits (f : Flow) : Type 0 where
  pub temp : TempApi
  pub has_server : HasServer f temp
  pub serving : IsServing temp.site f.host
  pub announced : f.advertised ≡ true
  pub has_task : f.task ≢ no_task

abbrev pub IsClean : Step → Type 0
IsClean (f, form_user) = NoServers f × (f.task ≡ no_task)
IsClean (f, form_pre_pairing) = NoServers f × (f.task ≡ no_task)
IsClean (f, progress) = Waits f
IsClean (f, done_paired) = NoServers f
IsClean (f, done_not_paired) = NoServers f
IsClean (f, form_not_paired) = NoServers f
IsClean (f, raised) = Unit
IsClean (f, aborted reason) = NoServers f
IsClean (f, entry lights bridge_id users) = NoServers f

not_attached :
    (hosted : Bool) (own server : ℕ) (target : Option ℕ)
    → (hosted ≡ true → target ≢ some own)
    → (if hosted then some own else none) ≡ some server
    → target ≢ some server
not_attached true own server target n e =
    subst (λ k. target ≢ some k) (some-injective own server e) (n refl)
not_attached false own server target n e = absurd (ground arith)

-- The service that is announced is taken back.
stopped-NoServers :
    (d : Option Discovery) (g : Flow) (task : Task)
    → g.temp_api ≡ none
    → g.port_held ≡ false
    → ((server : ℕ) → g.attached ≡ some server → g.host.target ≢ some server)
    → g.temp_discovery ≡ d
    → (d ≡ none → g.advertised ≡ false)
    → NoServers (record (stop_temp_discovery d g) { task = task })
unfolding stop_discovery
stopped-NoServers none g task a p t e s = record {
  no_api = a;
  no_discovery = e;
  no_port = p;
  no_target = t;
  no_service = s refl;
}
stopped-NoServers (some d) g task a p t e s = record {
  no_api = a;
  no_discovery = refl;
  no_port = p;
  no_target = t;
  no_service = refl;
}

pub cleaned : (f : Flow) (temp : TempApi) → HasServer f temp → NoServers (cleanup_temp_servers f)
unfolding cleanup_temp_servers stop_site
cleaned f temp h =
    let s : Served = record { host = f.host; site = temp.site } in
    let off = stop_site-IsStopped s h.proper in
    let P : Option TempApi → Type 0 = λ t.
      NoServers (record (stop_temp_discovery f.temp_discovery (stop_temp_api t f)) {
        task = cancel_task f.task;
      }) in
    subst P (sym h.has_api) (
      stopped-NoServers f.temp_discovery (stop_temp_api (some temp) f) (cancel_task f.task) refl
        off.no_port
        (λ server e.
          not_attached temp.site.hosted temp.site.server server (stop_site s).host.target
            off.no_target (sym h.attached_is ∙ e))
        refl h.service_is)

pub paired_flow :
    (f : Flow) (temp : TempApi) (paired : Bool)
    → HasServer f temp
    → HasServer (record f { paired = paired }) temp
paired_flow f temp paired h = record {
  has_api = h.has_api;
  attached_is = h.attached_is;
  proper = h.proper;
  service_is = h.service_is;
}
