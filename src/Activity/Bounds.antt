-- ===== src/Activity/Bounds.antt =====
-- The log of src-tauri/src/activity.rs is bounded, and its identifiers fall from the newest entry to
-- the oldest.
use keynoxis.Base.{
  ℕ, zero, suc, ◌+◌, ◌≤◌, ◌<◌, List, [], ◌∷◌, Option, String, ◌≡◌, refl, arith, take, length,
  length-take,
}
use keynoxis.State.{RuntimeState, ActivityCategory, ActivityStatus, ActivityEntry}
use keynoxis.Activity.{max_activity_entries, u64_mod, record_activity, entry_of}

-- The identifiers fall along the list, from below the bound.
abbrev pub Falling : ℕ → List ActivityEntry → Type 0
Falling n [] = Unit
Falling n (e ∷ es) = (e.id < n) × Falling e.id es

pub record IsLog (r : RuntimeState) : Type 0 where
  pub bounded : length r.activity ≤ max_activity_entries
  pub falling : Falling r.next_activity_id r.activity

take-Falling : (k n : ℕ) (es : List ActivityEntry) → Falling n es → Falling n (take k es)
take-Falling zero n es f = tt
take-Falling (suc k) n [] f = tt
take-Falling (suc k) n (e ∷ es) f = (f.0, take-Falling k e.id es f.1)

-- Where the log has at most 2000 entries, whose identifiers fall from below the counter, and the
-- counter does not wrap, a further entry keeps that so, and it is the first of the log.
record_activity-IsLog :
    (now : ℕ) (c : ActivityCategory) (s : ActivityStatus) (title : String) (detail : Option String)
    (r : RuntimeState)
    → IsLog r
    → r.next_activity_id + 1 < u64_mod
    → IsLog (record_activity now c s title detail r)
      × (take 1 (record_activity now c s title detail r).activity
          ≡ entry_of r.next_activity_id now c s title detail ∷ [])
unfolding record_activity
record_activity-IsLog now c s title detail r l h =
    let e = entry_of r.next_activity_id now c s title detail in
    (
      record {
        bounded = omega (arith, length-take max_activity_entries (e ∷ r.activity));
        falling = (ground arith, take-Falling 1999 _ _ l.falling);
      },
      refl,
    )
