-- ===== src/ConfigFlow/Dialog.antt =====
-- The dialog for a new entry as Home Assistant runs it, with the task that waits and the requests that its
-- temporary server gets: config_flow.py, lines 76-216. A dialog that has raised stays as it is.
use ha_hue_entertainment.Prelude.{ℕ, Bool, true, false, String, Option, none, some, List, [], ◌∷◌}
use ha_hue_entertainment.Json.{PyText}
use ha_hue_entertainment.HueApi.Host.{PyHost}
use ha_hue_entertainment.HueApi.Requests.{Route, Request}
use ha_hue_entertainment.HueApi.Handlers.{handle}
use ha_hue_entertainment.HaHttp.{HueHttpHost}
use ha_hue_entertainment.ConfigFlow.Steps.{
  Task, no_task, pending, finished, TempApi, Flow, Surroundings, Shown, form_user, form_pre_pairing,
  progress, done_paired, done_not_paired, form_not_paired, raised, aborted, entry, Step,
  async_step_user, async_step_pre_pairing, async_step_pairing, async_step_paired,
  async_step_not_paired,
}

unfoldable pub new_flow : HueHttpHost → Flow
new_flow host = record {
  lights = [];
  bridge_id = "";
  paired = false;
  task = no_task;
  temp_api = none;
  temp_discovery = none;
  temp_user_store = none;
  host = host;
  attached = none;
  port_held = false;
  advertised = false;
}

pub data DialogEvent : Type 0 where
  chosen : Bool → String → List String → DialogEvent  -- the lights, in the first form
  confirmed : DialogEvent  -- a form without fields
  continued : DialogEvent  -- Home Assistant goes on by itself
  task_ended : Option Bool → DialogEvent
  request : Route → Request → ℕ → DialogEvent  -- to the temporary server

abbrev pub ended_with : Option Bool → Task → Task
ended_with result no_task = no_task
ended_with result pending = finished result
ended_with result (finished earlier) = finished earlier

module _ (py : PyText) (python : PyHost) where
  -- A request is answered while the temporary server is there; it may pair a user.
  abbrev pub requested : Flow → Option TempApi → Route → Request → ℕ → Flow
  requested f none route r now = f
  requested f (some t) route r now =
      let o = handle py python t.api route r now in
      record f {
        temp_api = some (record t { api = o.api });
        temp_user_store = some o.api.user_store;
      }

  abbrev pub on_chosen : Surroundings → Flow → Shown → Bool → String → List String → Step
  on_chosen around f form_user configured hex lights =
      async_step_user python around f configured hex (some lights)
  on_chosen around f form_pre_pairing configured hex lights = (f, form_pre_pairing)
  on_chosen around f progress configured hex lights = (f, progress)
  on_chosen around f done_paired configured hex lights = (f, done_paired)
  on_chosen around f done_not_paired configured hex lights = (f, done_not_paired)
  on_chosen around f form_not_paired configured hex lights = (f, form_not_paired)
  on_chosen around f raised configured hex lights = (f, raised)
  on_chosen around f (aborted reason) configured hex lights = (f, aborted reason)
  on_chosen around f (entry ls id users) configured hex lights = (f, entry ls id users)

  abbrev pub on_confirmed : Surroundings → Flow → Shown → Step
  on_confirmed around f form_user = (f, form_user)
  on_confirmed around f form_pre_pairing = async_step_pre_pairing python around f true
  on_confirmed around f progress = (f, progress)
  on_confirmed around f done_paired = (f, done_paired)
  on_confirmed around f done_not_paired = (f, done_not_paired)
  on_confirmed around f form_not_paired = async_step_not_paired f true
  on_confirmed around f raised = (f, raised)
  on_confirmed around f (aborted reason) = (f, aborted reason)
  on_confirmed around f (entry ls id users) = (f, entry ls id users)

  abbrev pub on_continued : Surroundings → Flow → Shown → Step
  on_continued around f form_user = (f, form_user)
  on_continued around f form_pre_pairing = (f, form_pre_pairing)
  on_continued around f progress = async_step_pairing python around f
  on_continued around f done_paired = async_step_paired f
  on_continued around f done_not_paired = async_step_not_paired f false
  on_continued around f form_not_paired = (f, form_not_paired)
  on_continued around f raised = (f, raised)
  on_continued around f (aborted reason) = (f, aborted reason)
  on_continued around f (entry ls id users) = (f, entry ls id users)

  unfoldable pub dialog_step : Surroundings → DialogEvent → Step → Step
  unfolding async_step_user async_step_pre_pairing async_step_pairing async_step_paired
      async_step_not_paired handle
  dialog_step around (chosen configured hex lights) (f, shown) =
      on_chosen around f shown configured hex lights
  dialog_step around confirmed (f, shown) = on_confirmed around f shown
  dialog_step around continued (f, shown) = on_continued around f shown
  dialog_step around (task_ended result) (f, shown) =
      (record f { task = ended_with result f.task }, shown)
  dialog_step around (request route r now) (f, shown) = (requested f f.temp_api route r now, shown)

  unfoldable pub dialog_run : Step → List (Surroundings × DialogEvent) → Step
  unfolding dialog_step
  dialog_run d [] = d
  dialog_run d ((around, event) ∷ rest) = dialog_run (dialog_step around event d) rest
