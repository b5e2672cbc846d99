-- ===== src/Bridge/Deferred/Fits.antt =====
-- What the life of an entry keeps up, phase by phase: __init__.py, lines 349-389 and 400-411.
use ha_hue_entertainment.Prelude.{◌≡◌, ◌≢◌, refl, Bool, true, false, none, arith}
use ha_hue_entertainment.Dtls.{new_server}
use ha_hue_entertainment.Bridge.Lifecycle.{Servers}
use ha_hue_entertainment.Bridge.Stopped.{NothingRuns, IsProper}
use ha_hue_entertainment.Bridge.Deferred.{
  CoreState, not_started, running, stopping, Phase, set_up, refused, leaving, unloading, unloaded,
  Life, cancel_deferred_start,
}

-- As the set-up made them.
pub record Fresh (s : Servers) : Type 0 where
  pub no_runner : s.api.site.runner ≡ false
  pub no_port : s.api.site.listening ≡ false
  pub new : s.dtls ≡ new_server
  pub no_info : s.discovery.service_info ≡ none

-- A start put off has left the servers as they were; none waits once Home Assistant runs.
abbrev pub Waiting : CoreState → Bool → Servers → Type 0
Waiting not_started waits s = waits ≡ true → Fresh s
Waiting running waits s = waits ≡ false
Waiting stopping waits s = Unit

-- None waits, once Home Assistant runs.
abbrev pub Gone : CoreState → Bool → Type 0
Gone not_started waits = Unit
Gone running waits = waits ≡ false
Gone stopping waits = Unit

abbrev pub Fits : Phase → CoreState → Bool → Servers → Type 0
Fits set_up state waits s = Waiting state waits s
Fits refused state waits s = waits ≡ false
Fits leaving state waits s = Waiting state waits s
Fits unloading state waits s = NothingRuns s × Gone state waits
Fits unloaded state waits s = NothingRuns s × (waits ≡ false)

pub record IsSound (l : Life) : Type 0 where
  pub proper : IsProper l.servers.api.site
  pub fits : Fits l.phase l.hass_state l.waits l.servers

pub Fits-started :
    (ph : Phase) (s s' : Servers)
    → ph ≢ unloading
    → Fits ph not_started true s
    → Fits ph running false s'
Fits-started set_up s s' n f = refl
Fits-started refused s s' n f = refl
Fits-started leaving s s' n f = refl
Fits-started unloading s s' n f = absurd (n refl)
Fits-started unloaded s s' n f = absurd (ground arith)

pub Fits-idle :
    (ph : Phase) (s : Servers)
    → ph ≢ unloading
    → Fits ph not_started false s
    → Fits ph running false s
Fits-idle set_up s n f = refl
Fits-idle refused s n f = refl
Fits-idle leaving s n f = refl
Fits-idle unloading s n f = absurd (n refl)
Fits-idle unloaded s n f = f

pub waiting_only :
    (ph : Phase) (s : Servers) → ph ≢ unloading → Fits ph not_started true s → Fresh s
waiting_only set_up s n f = f refl
waiting_only refused s n f = absurd (ground arith)
waiting_only leaving s n f = f refl
waiting_only unloading s n f = absurd (n refl)
waiting_only unloaded s n f = absurd (ground arith)

pub Fits-stopping :
    (ph : Phase) (state : CoreState) (w : Bool) (s s' : Servers)
    → (NothingRuns s → NothingRuns s')
    → Fits ph state w s
    → Fits ph stopping w s'
Fits-stopping set_up state w s s' g f = tt
Fits-stopping refused state w s s' g f = f
Fits-stopping leaving state w s s' g f = tt
Fits-stopping unloading state w s s' g f = (g f.0, tt)
Fits-stopping unloaded state w s s' g f = (g f.0, f.1)

pub Gone-set_up : (state : CoreState) (w : Bool) (s : Servers) → Waiting state w s → Gone state w
Gone-set_up not_started w s f = tt
Gone-set_up running w s f = f
Gone-set_up stopping w s f = tt

pub cancel_deferred_start-Gone :
    (state : CoreState) (w : Bool) → Gone state w → cancel_deferred_start state w ≡ false
unfolding cancel_deferred_start
cancel_deferred_start-Gone not_started w g = refl
cancel_deferred_start-Gone running w g = g
cancel_deferred_start-Gone stopping w g = refl

pub Fits-elsewhere :
    (ph : Phase) (state : CoreState) (w : Bool) (s s' : Servers)
    → (Fresh s → Fresh s')
    → (NothingRuns s → NothingRuns s')
    → Fits ph state w s
    → Fits ph state w s'
Fits-elsewhere set_up not_started w s s' k g f = λ e. k (f e)
Fits-elsewhere set_up running w s s' k g f = f
Fits-elsewhere set_up stopping w s s' k g f = tt
Fits-elsewhere leaving not_started w s s' k g f = λ e. k (f e)
Fits-elsewhere leaving running w s s' k g f = f
Fits-elsewhere leaving stopping w s s' k g f = tt
Fits-elsewhere refused state w s s' k g f = f
Fits-elsewhere unloading state w s s' k g f = (g f.0, f.1)
Fits-elsewhere unloaded state w s s' k g f = (g f.0, f.1)
