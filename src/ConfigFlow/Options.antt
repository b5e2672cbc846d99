-- ===== src/ConfigFlow/Options.antt =====
-- `OptionsFlowHandler`, the dialog that changes an entry: config_flow.py, lines 219-328. Its pairing uses the
-- servers of the entry that runs.
use text.Mathlib.Text.{◌==◌ as str_eq}
use ha_hue_entertainment.Prelude.{
  ℕ, Bool, true, false, not, ◌&&◌, String, Option, none, some, List, [], if◌then◌else◌,
}
use ha_hue_entertainment.HueApi.{HueApiServer, set_link_button}
use ha_hue_entertainment.HaHttp.{http_mode_auto}
use ha_hue_entertainment.ConfigFlow.{names_of}
use ha_hue_entertainment.ConfigFlow.Steps.{Task, no_task, pending, finished, is_paired}

-- What the form gives; keys that it lacks are none.
pub record OptionsInput : Type 0 where
  pub lights : List String
  pub http_mode : Option String
  pub bind_ip : Option String
  pub pair_now : Option Bool

pub record OptionsFlow : Type 0 where
  pub lights : List String
  pub bind_ip : Option String
  pub http_mode : String
  pub paired : Bool
  pub task : Task
  pub initial_users : List String  -- of the task that waits

abbrev pub new_options_flow : OptionsFlow
new_options_flow = record {
  lights = [];
  bind_ip = none;
  http_mode = http_mode_auto;
  paired = false;
  task = no_task;
  initial_users = [];
}

pub data OptionsShown : Type 0 where
  form_init : Bool → List String → String → String → OptionsShown  -- an error at the IP; the defaults
  progress done_paired done_not_paired form_not_paired : OptionsShown
  saved : List String → Option String → String → OptionsShown

abbrev pub options_of : OptionsFlow → OptionsShown
options_of f = saved f.lights f.bind_ip f.http_mode

-- Functions of the language on texts: `s.strip()`, and whether `ipaddress.IPv4Address(s)` returns.
pub record IpText : Type 0 where
  pub strip : String → String
  pub is_ipv4 : String → Bool

abbrev pub OptionsStep : Type 0
OptionsStep = OptionsFlow × HueApiServer × OptionsShown

abbrev pub options_pairing_by : Task → OptionsFlow → HueApiServer → ℕ → OptionsStep
options_pairing_by no_task f api now = (
  record f { task = pending; initial_users = names_of api.user_store.users },
  set_link_button api true now,
  progress,
)
options_pairing_by pending f api now = (f, api, progress)
options_pairing_by (finished result) f api now = (
  record f { paired = is_paired result },
  api,
  if is_paired result then done_paired else done_not_paired,
)

unfoldable pub options_step_pairing : OptionsFlow → HueApiServer → ℕ → OptionsStep
unfolding set_link_button
options_step_pairing f api now = options_pairing_by f.task f api now

abbrev or_text : Option String → String
or_text none = ""
or_text (some s) = s

abbrev or_mode : Option String → String → String
or_mode none mode = mode
or_mode (some m) mode = m

abbrev pub or_false_flag : Option Bool → Bool
or_false_flag none = false
or_false_flag (some b) = b

abbrev pub raw_ip_of : IpText → OptionsInput → String
raw_ip_of py input = py.strip (or_text input.bind_ip)

abbrev pub is_refused : IpText → String → Bool
is_refused py raw_ip = not (str_eq raw_ip "") && not (py.is_ipv4 raw_ip)

abbrev pub with_input : OptionsFlow → OptionsInput → OptionsFlow
with_input f input = record f {
  lights = input.lights;
  http_mode = or_mode input.http_mode http_mode_auto;
}

abbrev pub with_ip : OptionsFlow → String → OptionsFlow
with_ip f raw_ip = record f { bind_ip = if str_eq raw_ip "" then none else some raw_ip }

abbrev pub pairing_or_saved : Bool → OptionsFlow → HueApiServer → ℕ → OptionsStep
pairing_or_saved true f api now = options_step_pairing f api now
pairing_or_saved false f api now = (f, api, options_of f)

-- The form again, with what was typed.
abbrev pub shown_again : OptionsInput → String → OptionsShown
shown_again input current_mode =
    form_init true input.lights (or_text input.bind_ip) (or_mode input.http_mode current_mode)

-- A submitted form.
abbrev pub submitted : IpText → OptionsFlow → HueApiServer → String → OptionsInput → ℕ → OptionsStep
submitted py f api current_mode input now =
    if is_refused py (raw_ip_of py input)
    then (with_input f input, api, shown_again input current_mode)
    else pairing_or_saved (or_false_flag input.pair_now)
        (with_ip (with_input f input) (raw_ip_of py input)) api now

-- `current_…`: what the entry has, from its options or its data.
unfoldable pub async_step_init :
    IpText
    → OptionsFlow
    → HueApiServer
    → List String
    → String
    → String
    → Option OptionsInput
    → ℕ
    → OptionsStep
unfolding options_step_pairing
async_step_init py f api current_lights current_bind_ip current_mode none now =
    (f, api, form_init false current_lights current_bind_ip current_mode)
async_step_init py f api current_lights current_bind_ip current_mode (some input) now =
    submitted py f api current_mode input now

unfoldable pub options_step_paired : OptionsFlow → HueApiServer → OptionsStep
options_step_paired f api = (f, api, options_of f)

unfoldable pub options_step_not_paired : OptionsFlow → HueApiServer → Bool → OptionsStep
options_step_not_paired f api answered =
    if answered then (f, api, options_of f) else (f, api, form_not_paired)
