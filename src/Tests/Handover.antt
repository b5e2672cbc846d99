-- ===== src/Tests/Handover.antt =====
-- Two frames put, of which the loop gets the newer.
use ha_hue_entertainment.Prelude.{refl, some, [], ◌∷◌}
use ha_hue_entertainment.Mailbox.{put}
use ha_hue_entertainment.Mailbox.Handoff.{
  World, at_start, puts_frame, Reach, here, next, IsConsistent, Reach-IsConsistent,
}

abbrev stored : World
stored = record at_start {
  box = (put at_start.box (1 ∷ [])).0;
  waking = (put at_start.box (1 ∷ [])).1;
  puts = 1;
  last_put = some (1 ∷ []);
}

stored_Reach : Reach stored
unfolding put
stored_Reach = next here (puts_frame at_start (1 ∷ []) refl)

Reach-IsConsistent_example : IsConsistent stored
Reach-IsConsistent_example = Reach-IsConsistent stored_Reach
