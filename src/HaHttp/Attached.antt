-- ===== src/HaHttp/Attached.antt =====
-- Who is served after any attachments and detachments: ha_http.py, lines 101-132.
use ha_hue_entertainment.Prelude.{
  ℕ, ◌≡◌, ◌≢◌, refl, sym, ◌∙◌, ap, ◌↔◌, Bool, true, false, Option, none, some, some-injective, List,
  [], ◌∷◌, ◌++◌, if◌then◌else◌, arith, if-both, subst,
}
use ha_hue_entertainment.HaHttp.{
  HassHttp, View, HueHttpHost, new_host, routes, hosted_views, config_views, register_views, attach,
  is_target, detach,
}

pub data HostEvent : Type 0 where
  attached : HassHttp → ℕ → HostEvent
  detached : ℕ → HostEvent

unfoldable pub host_step : HueHttpHost → HostEvent → HueHttpHost
unfolding attach detach
host_step host (attached hass server) = attach hass host server
host_step host (detached server) = detach host server

-- The host after the events, of which the newest stands first.
unfoldable pub host_after : List HostEvent → HueHttpHost
unfolding host_step
host_after [] = new_host
host_after (event ∷ past) = host_step (host_after past) event

-- The server has been attached, and after its last attachment no other was and it was not detached.
pub data Serves (server : ℕ) : List HostEvent → Type 0 where
  newest : (hass : HassHttp) (past : List HostEvent) → Serves server (attached hass server ∷ past)
  other_detached :
      (other : ℕ) (past : List HostEvent)
      → other ≢ server
      → Serves server past
      → Serves server (detached other ∷ past)

-- What Home Assistant was like at the first attachment.
abbrev pub or_first : Option HassHttp → HassHttp → Option HassHttp
or_first none hass = some hass
or_first (some first) hass = some first

abbrev pub first_attachment : List HostEvent → Option HassHttp
first_attachment [] = none
first_attachment (attached hass server ∷ past) = or_first (first_attachment past) hass
first_attachment (detached server ∷ past) = first_attachment past

abbrev pub views_for : Option HassHttp → List View
views_for none = []
views_for (some hass) = hosted_views routes ++ config_views hass

abbrev pub is_first : Option HassHttp → Bool
is_first none = false
is_first (some hass) = true

without : Option ℕ → ℕ → Option ℕ
without target server = if is_target target server then none else target

without-some :
    (target : Option ℕ) (s server : ℕ)
    → without target s ≡ some server
    → (s ≢ server) × (target ≡ some server)
unfolding without
without-some none s server h = absurd (ground arith)
without-some (some t) s server h = (λ e. ground arith, ground arith)

without_other : (s server : ℕ) → s ≢ server → without (some server) s ≡ some server
unfolding without
without_other s server n = ground arith

detach-target : (host : HueHttpHost) (s : ℕ) → (detach host s).target ≡ without host.target s
unfolding detach without
detach-target host s = ground arith

detach-views :
    (host : HueHttpHost) (s : ℕ)
    → ((detach host s).registered ≡ host.registered) × ((detach host s).views ≡ host.views)
unfolding detach
detach-views host s =
    if-both (λ (h : HueHttpHost). (h.registered ≡ host.registered) × (h.views ≡ host.views))
      (is_target host.target s) _ _ (λ p. (refl, refl)) (λ p. (refl, refl))

target-Serves :
    (past : List HostEvent) (server : ℕ)
    → (host_after past).target ≡ some server
    → Serves server past
unfolding host_after
target-Serves [] server h = absurd (ground arith)
target-Serves (attached hass s ∷ past) server h =
    subst (λ i. Serves i (attached hass s ∷ past)) (some-injective s server h) (newest hass past)
target-Serves (detached s ∷ past) server h =
    let (n, kept) =
      without-some (host_after past).target s server
        (sym (detach-target (host_after past) s) ∙ h) in
    other_detached s past n (target-Serves past server kept)

Serves-target :
    (server : ℕ) (past : List HostEvent)
    → Serves server past
    → (host_after past).target ≡ some server
unfolding host_after attach
Serves-target server _ (newest hass past) = refl
Serves-target server _ (other_detached other past n s) =
    detach-target (host_after past) other
    ∙ ap (λ t. without t other) (Serves-target server past s)
    ∙ without_other other server n

first_or_kept :
    (hass : HassHttp) (s : ℕ) (host : HueHttpHost) (first : Option HassHttp)
    → host.registered ≡ is_first first
    → host.views ≡ views_for first
    → ((attach hass host s).registered ≡ is_first (or_first first hass))
      × ((attach hass host s).views ≡ views_for (or_first first hass))
unfolding attach register_views
first_or_kept hass s host none r v = (rw r, rw r (ap (λ l. l ++ views_for (some hass)) v))
first_or_kept hass s host (some first) r v = (rw r refl, rw r v)

views_after :
    (past : List HostEvent)
    → ((host_after past).registered ≡ is_first (first_attachment past))
      × ((host_after past).views ≡ views_for (first_attachment past))
unfolding host_after
views_after [] = (refl, refl)
views_after (attached hass s ∷ past) =
    first_or_kept hass s (host_after past) (first_attachment past) (views_after past).0
      (views_after past).1
views_after (detached s ∷ past) =
    let (r, v) = views_after past in
    let (r', v') = detach-views (host_after past) s in (r' ∙ r, v' ∙ v)

-- Whatever servers were attached and detached, in whatever order: exactly that server is the target
-- that was attached, and then neither replaced by another nor detached; and the views are those of
-- the routes, registered once, at the first attachment.
pub host_after-IsHosted :
    (past : List HostEvent) (server : ℕ)
    → (((host_after past).target ≡ some server) ↔ Serves server past)
      × ((host_after past).views ≡ views_for (first_attachment past))
host_after-IsHosted past server =
    ((target-Serves past server, Serves-target server past), (views_after past).1)
