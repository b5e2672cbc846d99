-- ===== src/ConfigFlow/Clean.antt =====
-- The temporary server of the dialog is there while the dialog waits for the TV, and at no other time.
pub mod Runs
use ha_hue_entertainment.Prelude.{
  ℕ, ◌≡◌, ◌≢◌, refl, sym, ◌∙◌, ap, subst, Bool, true, false, not, ◌&&◌, String, Option, none, some,
  some-injective, List, [], ◌∷◌, if◌then◌else◌, if-both, arith, Bool-cases, inl, inr,
}
use ha_hue_entertainment.Prelude.Calls.{Called, returned, os_error, other_error, Started}
use ha_hue_entertainment.Json.{PyText}
use ha_hue_entertainment.HueApi.Host.{PyHost}
use ha_hue_entertainment.HueApi.{set_link_button}
use ha_hue_entertainment.HueApi.Requests.{Route, Request}
use ha_hue_entertainment.HueApi.Handlers.{handle}
use ha_hue_entertainment.HueApi.Site.{
  IsServing, Site, new_site, Served, start_site, stop_site, stop_site-IsStopped,
}
use ha_hue_entertainment.HaHttp.{HassHttp, HueHttpHost, attach, resolve_use_ha_http, http_mode_auto}
use ha_hue_entertainment.Discovery.{Discovery, start_discovery, stop_discovery}
use ha_hue_entertainment.ConfigFlow.Steps.{
  Task, no_task, pending, finished, TempApi, Flow, Surroundings, Shown, form_user, form_pre_pairing,
  progress, done_paired, done_not_paired, form_not_paired, raised, aborted, entry, Step,
  cleanup_temp_servers, stop_temp_api, stop_temp_discovery, cancel_task, temp_api_of, open_with,
  open_pairing, close_pairing, started_or_aborted, with_discovery, discovered, pairing_by,
  async_step_user, async_step_pre_pairing, async_step_pairing, async_step_paired,
  async_step_not_paired, create_entry,
}
use ha_hue_entertainment.ConfigFlow.Dialog.{
  new_flow, DialogEvent, chosen, confirmed, continued, task_ended, request, requested, on_chosen,
  on_confirmed, on_continued, ended_with, dialog_step, dialog_run,
}
use ha_hue_entertainment.ConfigFlow.Cleaned.{
  NoServers, HasServer, Waits, IsClean, cleaned, paired_flow,
}

discovered-IsClean :
    (f : Flow) (t : TempApi) (c : Called Unit)
    → HasServer f t
    → IsServing t.site f.host
    → f.advertised ≡ true
    → IsClean (discovered c f)
discovered-IsClean f t (returned u) e s a = record {
  temp = t;
  has_server = record {
    has_api = e.has_api;
    attached_is = e.attached_is;
    proper = e.proper;
    service_is = e.service_is;
  };
  serving = s;
  announced = a;
  has_task = λ n. ground arith;
}
discovered-IsClean f t os_error e s a = tt
discovered-IsClean f t other_error e s a = tt

module _ (python : PyHost) (around : Surroundings) where
  with_discovery-IsClean :
      (f : Flow) (t : TempApi)
      → f.attached ≡ (if t.site.hosted then some t.site.server else none)
      → (t.site.runner ≡ false → t.site.listening ≡ false)
      → IsServing t.site f.host
      → IsClean (with_discovery python around f t)
  unfolding start_discovery
  with_discovery-IsClean f t a p s =
      discovered-IsClean _ (record t { api = set_link_button t.api true around.now }) _
        (record {
          has_api = refl;
          attached_is = a;
          proper = p;
          service_is = λ n. absurd (ground arith);
        })
        s refl

  open_with-IsClean :
      (f : Flow) (t : TempApi)
      → f.advertised ≡ false
      → t.site.listening ≡ false
      → IsClean (open_with python around f t)
  unfolding open_with start_site attach
  open_with-IsClean f t a l =
      let P : Started Served → Type 0 = λ s. IsClean (
        started_or_aborted python around
          (record f {
            temp_user_store = some t.api.user_store;
            host = s.after.host;
            attached = if t.site.hosted then some t.site.server else none;
            port_held = s.after.site.listening;
          })
          (record t { site = s.after.site }) s.result) in
      let at : HueHttpHost → Bool → Flow = λ host held. record f {
        temp_user_store = some t.api.user_store;
        host = host;
        attached = if t.site.hosted then some t.site.server else none;
        port_held = held;
      } in
      let bound : TempApi = record t { site = record t.site { runner = true; listening = true } } in
      let failed : TempApi = record t { site = record t.site { runner = true } } in
      if-both P t.site.hosted _ _
        (λ p.
          with_discovery-IsClean (at (attach around.hass f.host t.site.server) t.site.listening) t
            refl (λ r. l) (rw p refl))
        (λ p.
          if-both P around.bound _ _
            (λ q.
              with_discovery-IsClean (at f.host true) bound refl (λ r. absurd (ground arith))
                (rw p refl))
            (λ q.
              cleaned (record (at f.host t.site.listening) { temp_api = some failed }) failed
                (record {
                  has_api = refl;
                  attached_is = refl;
                  proper = λ r. l;
                  service_is = λ n. a;
                })))

  open_pairing-IsClean : (f : Flow) → f.advertised ≡ false → IsClean (open_pairing python around f)
  unfolding open_pairing temp_api_of
  open_pairing-IsClean f a = open_with-IsClean f (temp_api_of python around f) a refl

  pub pre_pairing-IsClean :
      (f : Flow)
      → f.advertised ≡ false
      → f.task ≡ no_task
      → IsClean (async_step_pre_pairing python around f true)
  unfolding async_step_pre_pairing async_step_pairing
  pre_pairing-IsClean f a e =
      subst (λ task. IsClean (pairing_by task python around f)) (sym e) (open_pairing-IsClean f a)

  close_pairing-IsClean :
      (f : Flow) (temp : TempApi) (result : Option Bool)
      → HasServer f temp
      → IsClean (close_pairing f result)
  unfolding close_pairing
  close_pairing-IsClean f temp none h =
      cleaned (record f { paired = false }) temp (paired_flow f temp false h)
  close_pairing-IsClean f temp (some true) h =
      cleaned (record f { paired = true }) temp (paired_flow f temp true h)
  close_pairing-IsClean f temp (some false) h =
      cleaned (record f { paired = false }) temp (paired_flow f temp false h)

  pub pairing_by-IsClean :
      (f : Flow) (task : Task) → f.task ≡ task → Waits f → IsClean (pairing_by task python around f)
  pairing_by-IsClean f no_task e w = absurd (w.has_task e)
  pairing_by-IsClean f pending e w = w
  pairing_by-IsClean f (finished result) e w = close_pairing-IsClean f w.temp result w.has_server
