-- ===== src/ConfigFlow/ValidIp.antt =====
-- The address that the options dialog keeps: config_flow.py, lines 48-54 and 230-243.
use text.Mathlib.Text.{◌==◌ as str_eq}
use ha_hue_entertainment.Prelude.{
  ℕ, ◌≡◌, Bool, true, false, String, Option, none, some, List, if◌then◌else◌, if-both, arith,
}
use ha_hue_entertainment.HueApi.{HueApiServer}
use ha_hue_entertainment.ConfigFlow.Steps.{Task, no_task, pending, finished}
use ha_hue_entertainment.ConfigFlow.Options.{
  OptionsInput, OptionsFlow, IpText, OptionsStep, options_pairing_by, options_step_pairing,
  raw_ip_of, is_refused, with_input, with_ip, pairing_or_saved, shown_again, or_false_flag,
  async_step_init,
}

-- No address, or a well-formed one.
abbrev pub IsValidIp : IpText → Option String → Type 0
IsValidIp py none = Unit
IsValidIp py (some ip) = py.is_ipv4 ip ≡ true

pairing_by-IsValidIp :
    (py : IpText) (task : Task) (f : OptionsFlow) (api : HueApiServer) (now : ℕ)
    → IsValidIp py f.bind_ip
    → IsValidIp py (options_pairing_by task f api now).0.bind_ip
pairing_by-IsValidIp py no_task f api now h = h
pairing_by-IsValidIp py pending f api now h = h
pairing_by-IsValidIp py (finished result) f api now h = h

chosen_ip :
    (py : IpText) (raw_ip : String)
    → is_refused py raw_ip ≡ false
    → IsValidIp py (if str_eq raw_ip "" then none else some raw_ip)
chosen_ip py raw_ip h =
    if-both (IsValidIp py) (str_eq raw_ip "") none (some raw_ip) (λ p. tt) (λ p. ground arith)

accepted-IsValidIp :
    (py : IpText) (pair_now : Bool) (f : OptionsFlow) (api : HueApiServer) (now : ℕ)
    → IsValidIp py f.bind_ip
    → IsValidIp py (pairing_or_saved pair_now f api now).0.bind_ip
unfolding options_step_pairing
accepted-IsValidIp py true f api now h = pairing_by-IsValidIp py f.task f api now h
accepted-IsValidIp py false f api now h = h

-- Whatever is submitted, the dialog keeps no address but a well-formed one: any other text brings the
-- form back, and what was kept before stays.
async_step_init-IsValidIp :
    (py : IpText) (f : OptionsFlow) (api : HueApiServer) (lights : List String) (ip mode : String)
    (input : Option OptionsInput) (now : ℕ)
    → IsValidIp py f.bind_ip
    → IsValidIp py (async_step_init py f api lights ip mode input now).0.bind_ip
unfolding async_step_init
async_step_init-IsValidIp py f api lights ip mode none now h = h
async_step_init-IsValidIp py f api lights ip mode (some input) now h =
    let raw_ip = raw_ip_of py input in
    let accepted = with_ip (with_input f input) raw_ip in
    if-both (λ (s : OptionsStep). IsValidIp py s.0.bind_ip) (is_refused py raw_ip)
      (with_input f input, api, shown_again input mode)
      (pairing_or_saved (or_false_flag input.pair_now) accepted api now) (λ p. h)
      (λ p.
        accepted-IsValidIp py (or_false_flag input.pair_now) accepted api now
          (chosen_ip py raw_ip p))
