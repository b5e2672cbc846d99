-- ===== src/Tests/Unload.antt =====
-- An entry that is set up and leaves before Home Assistant has started, which it does in between.
use ha_hue_entertainment.Prelude.{◌≡◌, refl, true, false, arith}
use ha_hue_entertainment.HaHttp.{new_host}
use ha_hue_entertainment.Bridge.Lifecycle.{Servers, Machine, new_servers}
use ha_hue_entertainment.Bridge.Stopped.{NothingRuns}
use ha_hue_entertainment.Bridge.Deferred.{
  not_started, unloaded, Life, set_up_entry, deferred_start, unload_platforms, unload_entry,
  on_unload, Lives, begins, goes_on, has_started, leaves, unloads, calls_back,
}
use ha_hue_entertainment.Bridge.Deferred.Unloaded.{unloaded_life}
use ha_hue_entertainment.Tests.{host}
use ha_hue_entertainment.Tests.Flow.{hass, resolved}

abbrev all_well : Machine
all_well = record {
  hass = hass;
  bound = true;
  context = true;
  dtls_bound = true;
  registered = true;
}

abbrev servers : Servers
servers = new_servers new_host 1 "001788fffe000001" resolved

abbrev deferred_life : Life
deferred_life =
    deferred_start host all_well (unload_platforms (set_up_entry host all_well not_started servers))

deferred_life-Lives : Lives host servers (on_unload (unload_entry deferred_life))
unfolding set_up_entry deferred_start unload_platforms unload_entry on_unload
deferred_life-Lives =
    goes_on
      (goes_on
        (goes_on (goes_on (begins all_well not_started) (leaves _ refl))
          (has_started _ all_well refl (λ e. ground arith)))
        (unloads _ refl))
      (calls_back _ refl)

unloaded_phase : (on_unload (unload_entry deferred_life)).phase ≡ unloaded
unfolding on_unload
unloaded_phase = refl

unloaded_life_example :
    NothingRuns (on_unload (unload_entry deferred_life)).servers
    × ((on_unload (unload_entry deferred_life)).waits ≡ false)
unloaded_life_example =
    unloaded_life host new_host 1 "001788fffe000001" resolved
      (on_unload (unload_entry deferred_life)) deferred_life-Lives unloaded_phase
