-- ===== src/Engine/Drain/Transition.antt =====
-- What becomes of the data of a command on its way out: `_dynamic_transition` and
-- `_drain_until_idle_or_cancelled` of entertainment.py.
use ha_hue_entertainment.Prelude.{
  ℕ, ◌<◌, ◌%◌, ◌≤◌, ◌≡◌, ◌⊎◌, refl, true, false, none, some, arith, if-both,
}
use ha_hue_entertainment.ServiceData.{ServiceData}
use ha_hue_entertainment.Engine.{LightMapping}
use ha_hue_entertainment.Engine.Drain.{dynamic_transition, outgoing}

-- The command without its service. A REST command keeps the transition that it has or has not; a stream
-- command gets one: 0 as the first command to the light, and between 100 ms and 2 s otherwise, in tenths
-- of a second.
pub record IsCompleted (light : LightMapping) (command d : ServiceData) : Type 0 where
  pub same : record d { transition = none } ≡ record command { service = none; transition = none }
  pub own : light.explicit_transition ≡ true → d.transition ≡ command.transition
  pub added :
      light.explicit_transition ≡ false
      → (t : ℕ) × (d.transition ≡ some t)
        × (t % 100 ≡ 0)
        × (((light.last_sent ≡ 0) × (t ≡ 0)) ⊎ ((0 < light.last_sent) × (100 ≤ t) × (t ≤ 2000)))

pub outgoing-IsCompleted :
    (m : LightMapping) (d : ServiceData) (now : ℕ) → IsCompleted m d (outgoing m d now)
unfolding outgoing dynamic_transition
outgoing-IsCompleted m d now = record {
  same =
      if-both
        (λ (x : ServiceData).
          record x { transition = none } ≡ record d { service = none; transition = none })
        m.explicit_transition _ _ (λ p. refl) (λ p. refl);
  own = λ h. ground arith;
  added = λ h. (dynamic_transition m.last_sent now, ground arith, ground arith, ground arith);
}
