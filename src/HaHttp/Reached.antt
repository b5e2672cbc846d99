-- ===== src/HaHttp/Reached.antt =====
-- Which server answers a request through Home Assistant's server, and what it may change there:
-- ha_http.py, lines 150-158 and 165-185.
use ha_hue_entertainment.Prelude.{
  ℕ, ◌≡◌, refl, ◌∙◌, ap, subst, true, false, Option, none, some, List, ◌==◌, if◌then◌else◌, arith,
  Bool-cases, inl, inr, if-both,
}
use ha_hue_entertainment.Json.{PyText}
use ha_hue_entertainment.HueApi.{HueApiServer, link_button_active}
use ha_hue_entertainment.HueApi.Host.{PyHost}
use ha_hue_entertainment.HueApi.Requests.{Route, config, Request, error_reply}
use ha_hue_entertainment.HueApi.Handlers.{handle}
use ha_hue_entertainment.HueApi.Guarded.{handle-IsGuarded}
use ha_hue_entertainment.HaHttp.{
  WebRequest, IpAddress, is_lan_request, HueHttpHost, Answered, refused, unavailable, by_hass,
  by_server, forwarded, dispatch, shim, shimmed_to,
}
use ha_hue_entertainment.HaHttp.Attached.{HostEvent, host_after, Serves, host_after-IsHosted}
use ha_hue_entertainment.HaHttp.Refused.{IsDirect, is_lan_request-IsDirect, IsDirect-is_lan_request}

-- The servers after the answer: a handler changes its own.
abbrev pub servers_after : (ℕ → HueApiServer) → Answered → ℕ → HueApiServer
servers_after servers refused j = servers j
servers_after servers (unavailable body) j = servers j
servers_after servers by_hass j = servers j
servers_after servers (by_server i o) j = if i == j then o.api else servers j

-- What a view answers after the events of the host.
pub data IsDispatched (py : PyText) (python : PyHost) (ip : IpAddress) (servers : ℕ → HueApiServer)
    (past : List HostEvent) (web : WebRequest) (route : Route) (request : Request) (now : ℕ)
    : Answered → Type 0 where
  off_lan :
      (IsDirect ip web → ⊥) → IsDispatched py python ip servers past web route request now refused
  idle :
      IsDirect ip web
      → ((i : ℕ) → Serves i past → ⊥)
      → IsDispatched py python ip servers past web route request now
          (unavailable (error_reply 901 web.path "bridge not running"))
  served :
      (i : ℕ)
      → IsDirect ip web
      → Serves i past
      → IsDispatched py python ip servers past web route request now
          (by_server i (handle py python (servers i) route request now))

module _ (py : PyText) (python : PyHost) (ip : IpAddress) (servers : ℕ → HueApiServer) where
  forwarded-IsDispatched :
      (past : List HostEvent) (web : WebRequest) (route : Route) (request : Request) (now : ℕ)
      → IsDirect ip web
      → (target : Option ℕ) → (host_after past).target ≡ target
      → IsDispatched py python ip servers past web route request now
          (forwarded py python ip servers target web route request now)
  forwarded-IsDispatched past web route request now d none h =
      idle d (λ i s. let e = (host_after-IsHosted past i).0.1 s in ground arith)
  forwarded-IsDispatched past web route request now d (some i) h =
      served i d ((host_after-IsHosted past i).0.0 h)

  -- After any attachments and detachments a view answers a request that is not a direct one from the
  -- local network with "not found", hands any other to the server that is attached, and answers that
  -- the bridge is not running exactly when no server is.
  pub dispatch-IsDispatched :
      (past : List HostEvent) (web : WebRequest) (route : Route) (request : Request) (now : ℕ)
      → IsDispatched py python ip servers past web route request now
          (dispatch py python ip servers (host_after past) web route request now)
  unfolding dispatch
  dispatch-IsDispatched past web route request now =
      if-both (IsDispatched py python ip servers past web route request now) (is_lan_request ip web)
        _ _
        (λ p.
          forwarded-IsDispatched past web route request now (is_lan_request-IsDirect ip web p)
            (host_after past).target refl)
        (λ p. off_lan (λ d. let e = IsDirect-is_lan_request ip web d in ground arith))

  handled_users :
      (i j : ℕ) (route : Route) (request : Request) (now : ℕ)
      → (i ≡ j → link_button_active (servers j) now ≡ false)
      → (servers_after servers
          (by_server i (handle py python (servers i) route request now))
          j).user_store
        ≡ (servers j).user_store
  handled_users i j route request now h = elim (Bool-cases (i == j)) [
    | inl p ↦
        (let e : i ≡ j = ground arith in
          rw p (
            (handle-IsGuarded py python (servers i) request now route).users_kept
              (ap (λ n. link_button_active (servers n) now) e ∙ h e)
            ∙ ap (λ n. (servers n).user_store) e))
    | inr p ↦ rw p refl
  ]

  answered_users :
      (past : List HostEvent) (web : WebRequest) (route : Route) (request : Request) (now j : ℕ)
      → ((IsDirect ip web × Serves j past × (link_button_active (servers j) now ≡ true)) → ⊥)
      → (answer : Answered) → IsDispatched py python ip servers past web route request now answer
      → (servers_after servers answer j).user_store ≡ (servers j).user_store
  answered_users past web route request now j h _ (off_lan n) = refl
  answered_users past web route request now j h _ (idle d n) = refl
  answered_users past web route request now j h _ (served i d s) =
      handled_users i j route request now (λ e.
        elim (Bool-cases (link_button_active (servers j) now)) [
          | inl p ↦ absurd (h (d, subst (λ n. Serves n past) e s, p))
          | inr p ↦ p
        ])

  -- After any attachments and detachments, a view changes who is paired with a server only for a
  -- direct request from the local network, to the server that is attached, with its link button
  -- pressed.
  pub dispatch-users :
      (past : List HostEvent) (web : WebRequest) (route : Route) (request : Request) (now j : ℕ)
      → ((IsDirect ip web × Serves j past × (link_button_active (servers j) now ≡ true)) → ⊥)
      → (servers_after servers
          (dispatch py python ip servers (host_after past) web route request now)
          j).user_store
        ≡ (servers j).user_store
  dispatch-users past web route request now j h =
      answered_users past web route request now j h _
        (dispatch-IsDispatched past web route request now)

  kept_by_config :
      (i j : ℕ) (request : Request) (now : ℕ)
      → servers_after servers (by_server i (handle py python (servers i) config request now)) j
        ≡ servers j
  unfolding handle
  kept_by_config i j request now = elim (Bool-cases (i == j)) [
    | inl p ↦ (let e : i ≡ j = ground arith in rw p (ap servers e))
    | inr p ↦ rw p refl
  ]

  shimmed_kept :
      (target : Option ℕ) (web : WebRequest) (request : Request) (now j : ℕ)
      → servers_after servers (shimmed_to py python ip servers target web request now) j ≡ servers j
  shimmed_kept none web request now j = refl
  shimmed_kept (some i) web request now j =
      if-both (λ a. servers_after servers a j ≡ servers j) web.authenticated _ _ (λ p. refl)
        (λ p.
          if-both (λ a. servers_after servers a j ≡ servers j) (is_lan_request ip web) _ _
            (λ q. kept_by_config i j request now) (λ q. refl))

  to_hass :
      (target : Option ℕ) (web : WebRequest) (request : Request) (now : ℕ)
      → ((web.authenticated ≡ false) × IsDirect ip web → ⊥)
      → shimmed_to py python ip servers target web request now ≡ by_hass
  to_hass none web request now h = refl
  to_hass (some i) web request now h =
      if-both (λ a. a ≡ by_hass) web.authenticated _ _ (λ p. refl)
        (λ p.
          if-both (λ a. a ≡ by_hass) (is_lan_request ip web) _ _
            (λ q. absurd (h (p, is_lan_request-IsDirect ip web q))) (λ q. refl))

  -- Before Home Assistant's own GET /api/config: a request that is authenticated, or not a direct one
  -- from the local network, gets Home Assistant's handler; and no server changes by any.
  shim-IsHarmless :
      (host : HueHttpHost) (web : WebRequest) (request : Request) (now : ℕ)
      → (((web.authenticated ≡ false) × IsDirect ip web → ⊥)
          → shim py python ip servers host web request now ≡ by_hass)
        × ((j : ℕ)
            → servers_after servers (shim py python ip servers host web request now) j ≡ servers j)
  unfolding shim
  shim-IsHarmless host web request now =
      (to_hass host.target web request now, shimmed_kept host.target web request now)
