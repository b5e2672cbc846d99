-- ===== src/HaHttp/Refused.antt =====
-- What a request that comes through Home Assistant's server reaches: ha_http.py, lines 49-64.
use text.Mathlib.Text.{◌==◌ as str_eq}
use ha_hue_entertainment.Prelude.{
  ◌≡◌, refl, Bool, true, false, String, Option, none, some, List, [], ◌∷◌, arith, Bool-cases, inl,
  inr, All,
}
use ha_hue_entertainment.HaHttp.{
  WebRequest, proxy_headers, any_header, IpAddress, not_global, remote_on_lan, is_lan_request,
}

-- The request carries no header of a proxy, and comes from an address that is known, well formed and
-- not one of the internet's.
pub record IsDirect (ip : IpAddress) (web : WebRequest) : Type 0 where
  pub no_proxy : All (λ h. web.has_header h ≡ false) proxy_headers
  pub on_lan : (a : String) × (web.remote ≡ some a) × (str_eq a "" ≡ false) × (ip a ≡ some false)

no_header :
    (web : WebRequest) (hs : List String)
    → any_header web hs ≡ false
    → All (λ h. web.has_header h ≡ false) hs
unfolding any_header
no_header web [] e = tt
no_header web (h ∷ hs) e = elim (Bool-cases (web.has_header h)) [
  | inl p ↦ absurd (ground arith)
  | inr p ↦ (p, no_header web hs (ground arith))
]

headers_absent :
    (web : WebRequest) (hs : List String)
    → All (λ h. web.has_header h ≡ false) hs
    → any_header web hs ≡ false
unfolding any_header
headers_absent web [] e = refl
headers_absent web (h ∷ hs) (p, rest) = rw p (headers_absent web hs rest)

not_global-some : (r : Option Bool) → not_global r ≡ true → r ≡ some false
not_global-some none h = absurd (ground arith)
not_global-some (some true) h = absurd (ground arith)
not_global-some (some false) h = refl

remote_on_lan-some :
    (ip : IpAddress) (remote : Option String)
    → remote_on_lan ip remote ≡ true
    → (a : String) × (remote ≡ some a) × (str_eq a "" ≡ false) × (ip a ≡ some false)
remote_on_lan-some ip none h = absurd (ground arith)
remote_on_lan-some ip (some a) h = elim (Bool-cases (str_eq a "")) [
  | inl p ↦ absurd (ground arith)
  | inr p ↦ (a, refl, p, not_global-some (ip a) (ground arith))
]

pub is_lan_request-IsDirect :
    (ip : IpAddress) (web : WebRequest) → is_lan_request ip web ≡ true → IsDirect ip web
unfolding is_lan_request
is_lan_request-IsDirect ip web h = elim (Bool-cases (any_header web proxy_headers)) [
  | inl p ↦ absurd (ground arith)
  | inr p ↦ record {
    no_proxy = no_header web proxy_headers p;
    on_lan = remote_on_lan-some ip web.remote (ground arith);
  }
]

pub IsDirect-is_lan_request :
    (ip : IpAddress) (web : WebRequest) → IsDirect ip web → is_lan_request ip web ≡ true
unfolding is_lan_request
IsDirect-is_lan_request ip web d =
    let (a, r, e, g) = d.on_lan in rw (headers_absent web proxy_headers d.no_proxy, r, e, g) refl
