-- ===== src/Engine/Drain/Sent.antt =====
-- What the drain loop sends: `_drain_until_idle_or_cancelled` of entertainment.py.
use ha_hue_entertainment.Prelude.{ℕ, ◌≡◌, true, false, Option, none, some, List}
use ha_hue_entertainment.ServiceData.{Service, ServiceData}
use ha_hue_entertainment.Engine.{Engine, LightMapping, get_mapping}
use ha_hue_entertainment.Engine.Session.{States}
use ha_hue_entertainment.Engine.Drain.Transition.{IsCompleted}
use ha_hue_entertainment.Engine.Drain.{
  Action, call, Found, is_unavailable, service_or, take_slot, count_command,
}

-- A command for one of the lights: it is what stands in the dirty slot, completed, and the light is not
-- unavailable.
pub record Sent (states : States) (ms : List LightMapping) (now : ℕ) (s : Service) (d : ServiceData)
    : Type 0 where
  pub id : ℕ
  pub light : LightMapping
  pub command : ServiceData
  pub found : get_mapping id ms ≡ some light
  pub dirty : light.dirty ≡ true
  pub queued : light.pending_data ≡ some command
  pub service_is : s ≡ service_or command.service
  pub data_is : IsCompleted light command d
  pub available : is_unavailable (states light.entity_id) ≡ false

-- What is dirty now was so before, with the same slot.
record Older (ms ms' : List LightMapping) : Type 0 where
  before :
      (j : ℕ) (m : LightMapping)
      → get_mapping j ms' ≡ some m
      → m.dirty ≡ true
      → get_mapping j ms ≡ some m

-- One turn of the loop, by what it finds.
data Visited (states : States) (id : ℕ) (e : Engine) (now : ℕ)
    (r : Engine × Option (Service × ServiceData)) : Type 0 where
  skipped : r ≡ (e, none) → Visited states id e now r
  taken :
      (m : LightMapping)
      → get_mapping id e.mappings ≡ some m
      → m.dirty ≡ true
      → r ≡ (
        count_command e id (take_slot states m now).0 (take_slot states m now).1,
        (take_slot states m now).1,
      )
      → Visited states id e now r

-- What a scan finds: its slots are older, and a command that it has found is one of theirs.
record Scanned (states : States) (ms : List LightMapping) (now : ℕ) (f : Found) : Type 0 where
  older : Older ms f.0.mappings
  sent :
      (s : Service) (d : ServiceData) (ids : List ℕ)
      → f.1 ≡ some (s, d, ids)
      → Sent states ms now s d

Calls : States → List LightMapping → ℕ → Action → Type 0
Calls states ms now a = (s : Service) (d : ServiceData) → a ≡ call s d → Sent states ms now s d
