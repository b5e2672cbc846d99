-- ===== src/Engine/Control.antt =====
-- Pause, resume and release with their timers: entertainment.py, lines 551-709.
use ha_hue_entertainment.Prelude.{ℕ, ◌+◌, true, false, none, some, ltb, if◌then◌else◌}
use ha_hue_entertainment.Json.{is_some}
use ha_hue_entertainment.Engine.{Engine, notify, reset_mappings}

abbrev pub default_yield : ℕ
default_yield = 2000

-- `seconds if seconds > 0 else DEFAULT_YIELD_SECONDS`
abbrev pub resolve : ℕ → ℕ
resolve seconds = if ltb 0 seconds then seconds else default_yield

unfoldable pub cancel_pause : Engine → Engine
cancel_pause e = record e { paused_until = none; pause_cancel = none }

unfoldable pub cancel_release : Engine → ℕ → Engine
unfolding notify
cancel_release e now =
    let cleared = record e {
      releasing_flag = false;
      release_forcing = false;
      release_cancel = none;
    } in
    if e.releasing_flag then notify cleared now else cleared

unfoldable pub async_pause : Engine → ℕ → ℕ → Engine
unfolding cancel_pause reset_mappings notify
async_pause e seconds now =
    let until = now + resolve seconds in
    let flushed = reset_mappings (cancel_pause e) in
    let marked = notify (record flushed { paused_until = some until }) now in
    if e.releasing_flag then e else record marked { pause_cancel = some until }

unfoldable pub async_resume : Engine → ℕ → Engine
unfolding cancel_pause notify
async_resume e now =
    if e.releasing_flag
    then e
    else if is_some e.paused_until
    then notify (cancel_pause e) now
    else e

-- The second component is how long the call then sleeps before it returns.
unfoldable pub async_release : Engine → ℕ → ℕ → ℕ → Engine × ℕ
unfolding cancel_pause reset_mappings notify
async_release e seconds settle_seconds now =
    let flushed = reset_mappings (cancel_pause e) in
    let marked =
      notify
        (record flushed { saved_states = none; releasing_flag = true; release_forcing = false })
        now in
    (record marked { release_cancel = some (now + resolve seconds) }, settle_seconds)

-- The timer that `async_pause` set has fired.
unfoldable pub on_pause_expired : Engine → ℕ → Engine
unfolding notify
on_pause_expired e now = notify (record e { paused_until = none; pause_cancel = none }) now

-- The timer that `async_release` set has fired.
unfoldable pub on_release_grace_expired : Engine → ℕ → Engine
unfolding cancel_release notify
on_release_grace_expired e now =
    let fired = record e { release_cancel = none } in
    if fired.releasing_flag
    then (if fired.active
        then notify (record fired { release_forcing = true }) now
        else cancel_release fired now)
    else fired
