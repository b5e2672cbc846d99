-- ===== src/HueApi/Resources.antt =====
-- What else the API serves of itself: hue_api.py, lines 204-252, 339-362, 401-417 and 435-455.
use Prim.Native.String.{◌++◌ as ◌&◌}
use text.Mathlib.Text.{◌==◌ as str_eq}
use ha_hue_entertainment.Prelude.{ℕ, true, false, String, List, [], ◌∷◌, ◌++◌, if◌then◌else◌}
use ha_hue_entertainment.Json.{Value, null, bool, str, obj, Fields, PyText}
use ha_hue_entertainment.UserStore.{Users, type_or}
use ha_hue_entertainment.HueApi.{HueApiServer, link_button_active, Reply, page, fields, dict}
use ha_hue_entertainment.HueApi.Host.{PyHost, number, list}
use ha_hue_entertainment.HueApi.Lights.{build_v1_lights, build_v1_groups}

whitelist_of : Users → List (String × Value)
whitelist_of [] = []
whitelist_of ((username, user) ∷ rest) =
    (
      username,
      dict (
          ("create date", str "2026-01-01T00:00:00")
          ∷ ("last use date", str "2026-01-01T00:00:00")
          ∷ ("name", type_or user.devicetype)
          ∷ []),
    )
    ∷ whitelist_of rest

-- All entries but the last, which is the whitelist.
unfoldable pub public_config : PyHost → HueApiServer → ℕ → List (String × Value)
unfolding link_button_active
public_config host api now =
    ("name", str "Hue Entertainment Bridge")
    ∷ ("datastoreversion", str "163")
    ∷ ("swversion", str "1967054020")
    ∷ ("apiversion", str "1.67.0")
    ∷ ("mac", str api.mac)
    ∷ ("bridgeid", str (host.upper api.bridge_id))
    ∷ ("factorynew", bool false)
    ∷ ("replacesbridgeid", null)
    ∷ ("modelid", str "BSB002")
    ∷ ("starterkitid", str "")
    ∷ ("ipaddress", str api.host_ip)
    ∷ ("dhcp", bool true)
    ∷ ("netmask", str "255.255.255.0")
    ∷ ("gateway", str (host.before_last_dot api.host_ip & ".1"))
    ∷ ("UTC", str host.utc)
    ∷ ("localtime", str host.localtime)
    ∷ ("timezone", str "Europe/London")
    ∷ ("zigbeechannel", number 25)
    ∷ ("linkbutton", bool (link_button_active api now))
    ∷ ("portalservices", bool false)
    ∷ (
      "portalstate",
      dict (
          ("signedon", bool false)
          ∷ ("incoming", bool false)
          ∷ ("outgoing", bool false)
          ∷ ("communication", str "disconnected")
          ∷ []),
    )
    ∷ (
      "internetservices",
      dict (
          ("internet", str "disconnected")
          ∷ ("remoteaccess", str "disconnected")
          ∷ ("swupdate", str "disconnected")
          ∷ ("time", str "disconnected")
          ∷ []),
    )
    ∷ (
      "swupdate2",
      dict (
          ("checkforupdate", bool false)
          ∷ ("state", str "noupdates")
          ∷ ("autoinstall", dict (("on", bool false) ∷ ("updatetime", str "T14:00:00") ∷ []))
          ∷ []),
    )
    ∷ ("backup", dict (("errorcode", number 0) ∷ ("status", str "idle") ∷ []))
    ∷ []

unfoldable pub build_v1_config : PyHost → HueApiServer → ℕ → Fields
unfolding public_config whitelist_of
build_v1_config host api now =
    fields
      (public_config host api now ++ (("whitelist", dict (whitelist_of api.user_store.users)) ∷ []))

-- What `d.pop(key, None)` leaves of the dict.
unfoldable pub pop : String → Fields → Fields
pop key Fields.end = Fields.end
pop key (Fields.field k v rest) = if str_eq k key then rest else Fields.field k v (pop key rest)

-- GET /description.xml
unfoldable pub handle_description_xml : PyText → PyHost → HueApiServer → Reply
handle_description_xml py host api =
    let serial = host.lower (host.without_colons api.mac) in
    page (
      "<?xml version=\"1.0\" encoding=\"UTF-8\"?>\n"
      & "<root xmlns=\"urn:schemas-upnp-org:device-1-0\">\n"
      & "<specVersion><major>1</major><minor>0</minor></specVersion>\n"
      & ("<URLBase>http://" & api.host_ip & ":" & py.str_of api.http_port & "/</URLBase>\n")
      & "<device>\n"
      & "<deviceType>urn:schemas-upnp-org:device:Basic:1</deviceType>\n"
      & ("<friendlyName>Philips hue (" & api.host_ip & ")</friendlyName>\n")
      & "<manufacturer>Signify</manufacturer>\n"
      & "<manufacturerURL>http://www.meethue.com</manufacturerURL>\n"
      & "<modelDescription>Philips hue Personal Wireless Lighting</modelDescription>\n"
      & "<modelName>Philips hue bridge 2015</modelName>\n"
      & "<modelNumber>BSB002</modelNumber>\n"
      & "<modelURL>http://www.meethue.com</modelURL>\n"
      & ("<serialNumber>" & serial & "</serialNumber>\n")
      & ("<UDN>uuid:2f402f80-da50-11e1-9b23-" & serial & "</UDN>\n")
      & "<presentationURL>index.html</presentationURL>\n"
      & "</device>\n"
      & "</root>")

abbrev resource : ℕ → Value
resource n = dict (("available", number n) ∷ ("total", number n) ∷ [])

unfoldable pub capabilities : HueApiServer → Fields
capabilities api = fields (
    ("lights", resource 50)
    ∷ ("sensors", resource 250)
    ∷ ("groups", resource 64)
    ∷ ("scenes", resource 200)
    ∷ ("schedules", resource 100)
    ∷ ("rules", resource 250)
    ∷ ("resourcelinks", resource 64)
    ∷ (
      "streaming",
      dict (
          ("available", number 1)
          ∷ ("total", number 1)
          ∷ ("channels", number api.channel_count)
          ∷ []),
    )
    ∷ ("timezones", dict (("values", list []) ∷ []))
    ∷ [])

unfoldable pub full_datastore : PyText → PyHost → HueApiServer → ℕ → Fields
unfolding build_v1_lights build_v1_groups build_v1_config
full_datastore py host api now = fields (
    ("lights", obj (build_v1_lights py host api))
    ∷ ("groups", obj (build_v1_groups py api))
    ∷ ("config", obj (build_v1_config host api now))
    ∷ ("schedules", dict [])
    ∷ ("scenes", dict [])
    ∷ ("rules", dict [])
    ∷ ("sensors", dict [])
    ∷ ("resourcelinks", dict [])
    ∷ [])
