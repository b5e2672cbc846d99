-- ===== src/ConfigFlow/Mac.antt =====
-- The MAC address of a bridge id, config_flow.py, lines 70-73, against the way the id is made, lines 115-116.
use Prim.Native.String.{count}
use ha_hue_entertainment.Prelude.{◌≡◌, ◌∙◌, ap, false, String, arith}
use ha_hue_entertainment.Prelude.Text.{take, drop, contains, take-drop, take_all, replace_inserted}
use ha_hue_entertainment.HueApi.Host.{PyHost}
use ha_hue_entertainment.ConfigFlow.{with_colons, mac_from_bridge_id, bridge_id_of}

-- The MAC address of a bridge id is made of the twelve digits that the id was made of, unless "FFFE"
-- occurs in one of their halves.
pub mac_from_bridge_id-bridge_id_of :
    (host : PyHost) (raw : String)
    → count raw ≡ 12
    → contains "FFFE" (take 6 raw) ≡ false
    → contains "FFFE" (drop 6 raw) ≡ false
    → mac_from_bridge_id host (bridge_id_of raw) ≡ with_colons (host.lower raw)
unfolding mac_from_bridge_id bridge_id_of
mac_from_bridge_id-bridge_id_of host raw n h k =
    ap (λ s. with_colons (host.lower (take 12 s)))
      (replace_inserted (take 6 raw) (drop 6 raw) h k ∙ take-drop 6 raw)
    ∙ ap (λ s. with_colons (host.lower s)) (take_all 12 raw (ground arith))
