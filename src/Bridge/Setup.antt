-- ===== src/Bridge/Setup.antt =====
-- The set-up of an entry, lines 182-230, as far as it builds the state: the lights are numbered from 1
-- for the engine as for the API.
use ha_hue_entertainment.Prelude.{ℕ, suc, String, none, some, List, [], ◌∷◌, false, length}
use ha_hue_entertainment.UserStore.{Users, UserStore, async_load, import_initial_users}
use ha_hue_entertainment.Engine.{LightMapping, new_mapping, new_engine}
use ha_hue_entertainment.Bridge.{Bridge, absent}

-- The mappings from the light with number i.
unfoldable pub mappings_from : ℕ → List String → List LightMapping
mappings_from i [] = []
mappings_from i (entity_id ∷ rest) = new_mapping i entity_id ∷ mappings_from (suc i) rest

pub record Config : Type 0 where
  pub bridge_id : String
  pub mac : String
  pub host_ip : String
  pub http_port : ℕ
  pub light_entities : List String
  pub stored : Users  -- in Home Assistant's store
  pub initial_users : Users  -- left by the config flow

unfoldable pub setup_store : Users → Users → UserStore
unfolding async_load import_initial_users
setup_store stored initial_users =
    let opened : UserStore = record { ha_store = some stored; users = [] } in
    import_initial_users (async_load opened (some stored)) initial_users

unfoldable pub async_setup_entry : Config → ℕ → Bridge
unfolding mappings_from setup_store new_engine
async_setup_entry c now = record {
  api_server = record {
    bridge_id = c.bridge_id;
    mac = c.mac;
    host_ip = c.host_ip;
    http_port = c.http_port;
    channel_count = length c.light_entities;
    light_entities = c.light_entities;
    user_store = setup_store c.stored c.initial_users;
    link_button_expires = 0;
    entertainment_active = false;
    entertainment_owner = none;
  };
  engine = new_engine now (mappings_from 1 c.light_entities);
  watchdog = absent;
}
