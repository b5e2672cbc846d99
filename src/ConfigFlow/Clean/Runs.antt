-- ===== src/ConfigFlow/Clean/Runs.antt =====
-- Every event of the dialog keeps the invariant of its servers: config_flow.py, lines 76-216.
use ha_hue_entertainment.Prelude.{
  ℕ, ◌≡◌, ◌≢◌, refl, sym, ◌∙◌, ap, subst, Bool, String, Option, none, some, some-injective, List,
  [], ◌∷◌, if-both, arith,
}
use ha_hue_entertainment.Json.{PyText}
use ha_hue_entertainment.HueApi.Host.{PyHost}
use ha_hue_entertainment.HueApi.Requests.{Route, Request}
use ha_hue_entertainment.HueApi.Handlers.{handle}
use ha_hue_entertainment.HueApi.Site.{IsServing}
use ha_hue_entertainment.HaHttp.{HueHttpHost}
use ha_hue_entertainment.ConfigFlow.Steps.{
  Task, no_task, pending, finished, TempApi, Flow, Surroundings, Shown, form_user, form_pre_pairing,
  progress, done_paired, done_not_paired, form_not_paired, raised, aborted, entry, Step,
  async_step_user, async_step_pre_pairing, async_step_pairing, async_step_paired,
  async_step_not_paired, create_entry,
}
use ha_hue_entertainment.ConfigFlow.Dialog.{
  new_flow, DialogEvent, chosen, confirmed, continued, task_ended, request, requested, on_chosen,
  on_confirmed, on_continued, ended_with, dialog_step, dialog_run,
}
use ha_hue_entertainment.ConfigFlow.Cleaned.{NoServers, HasServer, Waits, IsClean}
use ha_hue_entertainment.ConfigFlow.Clean.{pre_pairing-IsClean, pairing_by-IsClean}

module _ (py : PyText) (python : PyHost) where
  on_chosen-IsClean :
      (around : Surroundings) (f : Flow) (shown : Shown) (configured : Bool) (hex : String)
      (lights : List String)
      → IsClean (f, shown)
      → IsClean (on_chosen py python around f shown configured hex lights)
  unfolding async_step_user async_step_pre_pairing
  on_chosen-IsClean around f form_user configured hex lights (c, t) =
      if-both IsClean configured _ _ (λ p. c)
        (λ p. (
          record {
            no_api = c.no_api;
            no_discovery = c.no_discovery;
            no_port = c.no_port;
            no_target = c.no_target;
            no_service = c.no_service;
          },
          t,
        ))
  on_chosen-IsClean around f form_pre_pairing configured hex lights c = c
  on_chosen-IsClean around f progress configured hex lights c = c
  on_chosen-IsClean around f done_paired configured hex lights c = c
  on_chosen-IsClean around f done_not_paired configured hex lights c = c
  on_chosen-IsClean around f form_not_paired configured hex lights c = c
  on_chosen-IsClean around f raised configured hex lights c = c
  on_chosen-IsClean around f (aborted reason) configured hex lights c = c
  on_chosen-IsClean around f (entry ls id users) configured hex lights c = c

  on_confirmed-IsClean :
      (around : Surroundings) (f : Flow) (shown : Shown)
      → IsClean (f, shown)
      → IsClean (on_confirmed py python around f shown)
  unfolding async_step_not_paired create_entry
  on_confirmed-IsClean around f form_user c = c
  on_confirmed-IsClean around f form_pre_pairing (c, t) =
      pre_pairing-IsClean python around f c.no_service t
  on_confirmed-IsClean around f progress c = c
  on_confirmed-IsClean around f done_paired c = c
  on_confirmed-IsClean around f done_not_paired c = c
  on_confirmed-IsClean around f form_not_paired c = c
  on_confirmed-IsClean around f raised c = c
  on_confirmed-IsClean around f (aborted reason) c = c
  on_confirmed-IsClean around f (entry ls id users) c = c

  on_continued-IsClean :
      (around : Surroundings) (f : Flow) (shown : Shown)
      → IsClean (f, shown)
      → IsClean (on_continued py python around f shown)
  unfolding async_step_pairing async_step_paired async_step_not_paired create_entry
  on_continued-IsClean around f form_user c = c
  on_continued-IsClean around f form_pre_pairing c = c
  on_continued-IsClean around f progress c = pairing_by-IsClean python around f f.task refl c
  on_continued-IsClean around f done_paired c = c
  on_continued-IsClean around f done_not_paired c = c
  on_continued-IsClean around f form_not_paired c = c
  on_continued-IsClean around f raised c = c
  on_continued-IsClean around f (aborted reason) c = c
  on_continued-IsClean around f (entry ls id users) c = c

  ended_task :
      (result : Option Bool) (task : Task) → task ≢ no_task → ended_with result task ≢ no_task
  ended_task result no_task n = n
  ended_task result pending n = λ e. ground arith
  ended_task result (finished earlier) n = n

  -- What keeps the servers of the flow, and its task or the fact that it has none, keeps the invariant.
  kept-IsClean :
      (f g : Flow) (shown : Shown)
      → (NoServers f → NoServers g)
      → (f.task ≡ no_task → g.task ≡ no_task)
      → (Waits f → Waits g)
      → IsClean (f, shown)
      → IsClean (g, shown)
  kept-IsClean f g form_user n t w (c, u) = (n c, t u)
  kept-IsClean f g form_pre_pairing n t w (c, u) = (n c, t u)
  kept-IsClean f g progress n t w c = w c
  kept-IsClean f g done_paired n t w c = n c
  kept-IsClean f g done_not_paired n t w c = n c
  kept-IsClean f g form_not_paired n t w c = n c
  kept-IsClean f g raised n t w c = tt
  kept-IsClean f g (aborted reason) n t w c = n c
  kept-IsClean f g (entry ls id users) n t w c = n c

  requested-IsClean :
      (f : Flow) (shown : Shown) (temp : Option TempApi) (route : Route) (r : Request) (now : ℕ)
      → f.temp_api ≡ temp
      → IsClean (f, shown)
      → IsClean (requested py python f temp route r now, shown)
  requested-IsClean f shown none route r now e c = c
  requested-IsClean f shown (some t) route r now e c =
      kept-IsClean f (requested py python f (some t) route r now) shown
        (λ s. let n : none ≡ some t = sym s.no_api ∙ e in absurd (ground arith)) (λ k. k)
        (λ w.
          let same : w.temp ≡ t = some-injective w.temp t (sym w.has_server.has_api ∙ e) in
          let h = subst (HasServer f) same w.has_server in
          record {
            temp = record t { api = (handle py python t.api route r now).api };
            has_server = record {
              has_api = refl;
              attached_is = h.attached_is;
              proper = h.proper;
              service_is = h.service_is;
            };
            announced = w.announced;
            serving = subst (λ (x : TempApi). IsServing x.site f.host) same w.serving;
            has_task = w.has_task;
          })
        c

  ended-IsClean :
      (f : Flow) (shown : Shown) (result : Option Bool)
      → IsClean (f, shown)
      → IsClean (record f { task = ended_with result f.task }, shown)
  ended-IsClean f shown result c =
      kept-IsClean f (record f { task = ended_with result f.task }) shown
        (λ s. record {
          no_api = s.no_api;
          no_discovery = s.no_discovery;
          no_port = s.no_port;
          no_target = s.no_target;
          no_service = s.no_service;
        })
        (λ e. ap (ended_with result) e)
        (λ w. record {
          temp = w.temp;
          has_server = record {
            has_api = w.has_server.has_api;
            attached_is = w.has_server.attached_is;
            proper = w.has_server.proper;
            service_is = w.has_server.service_is;
          };
          announced = w.announced;
          serving = w.serving;
          has_task = ended_task result f.task w.has_task;
        })
        c

  dialog_step-IsClean :
      (around : Surroundings) (event : DialogEvent) (f : Flow) (shown : Shown)
      → IsClean (f, shown)
      → IsClean (dialog_step py python around event (f, shown))
  unfolding dialog_step
  dialog_step-IsClean around (chosen configured hex lights) f shown c =
      on_chosen-IsClean around f shown configured hex lights c
  dialog_step-IsClean around confirmed f shown c = on_confirmed-IsClean around f shown c
  dialog_step-IsClean around continued f shown c = on_continued-IsClean around f shown c
  dialog_step-IsClean around (task_ended result) f shown c = ended-IsClean f shown result c
  dialog_step-IsClean around (request route r now) f shown c =
      requested-IsClean f shown f.temp_api route r now refl c

  run-IsClean :
      (d : Step) (events : List (Surroundings × DialogEvent))
      → IsClean d
      → IsClean (dialog_run py python d events)
  unfolding dialog_run
  run-IsClean d [] c = c
  run-IsClean (f, shown) ((around, event) ∷ rest) c =
      run-IsClean (dialog_step py python around event (f, shown)) rest
        (dialog_step-IsClean around event f shown c)

  -- Whatever the user, Home Assistant, the TV and the clock do, with every failure of the ports: while
  -- the dialog waits for the TV a temporary server is there and answers, it is announced, and the wait
  -- has its task; in every other form, after every abort and once the entry is made, no temporary server
  -- has the port or is the one that Home Assistant's own server hands requests to, and none is announced.
  -- A dialog that an exception has left is not covered.
  pub dialog_run-IsClean :
      (host : HueHttpHost) (events : List (Surroundings × DialogEvent))
      → IsClean (dialog_run py python (new_flow host, form_user) events)
  unfolding new_flow
  dialog_run-IsClean host events =
      run-IsClean (new_flow host, form_user) events
        (
          record {
            no_api = refl;
            no_discovery = refl;
            no_port = refl;
            no_target = λ server e. absurd (ground arith);
            no_service = refl;
          },
          refl,
        )
