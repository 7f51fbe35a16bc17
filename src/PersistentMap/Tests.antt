-- ===== src/PersistentMap/Tests.antt =====
-- A persistent map of at most two cells.
use navigation.Prelude.{◌≡◌, ◌≤◌, refl, Option, some, List, [], ◌∷◌, All, length, pos, ◌-ℤ◌}
use navigation.Float.{Millis, millis, milli}
use navigation.PersistentMap.{
  PersistentMap, keys, update, store_all, store, evict, evict_stale, evict_excess, delete_all,
  delete, stale_keys, by_time, insert,
}
use navigation.PersistentMap.Entries.{IsDistinct}
use navigation.PersistentMap.Eviction.{IsFresh, update-Keeps}

abbrev obstacles : PersistentMap Millis
obstacles = record {
  reso = milli (pos 250);
  decay_sec = milli (pos 30000);
  max_cells = 2;
  obstacle_height = milli (pos 300);
  entries =
      ((pos 0, pos 0), milli (pos 1000))
      ∷ ((pos 1, pos 0), milli (pos 20000))
      ∷ ((pos 2, pos 0), milli (pos 15000))
      ∷ [];
}

abbrev scan : Option (List (Millis × Millis))
scan = some ((milli (pos 250), milli (pos 0)) ∷ (milli (pos 0), milli (pos 500)) ∷ [])

-- The first cell is stale, the second is seen again, and the third is the oldest of three.
update_run :
    update scan (milli (pos 35000)) obstacles
    ≡ some (record obstacles {
      entries = ((pos 1, pos 0), milli (pos 35000)) ∷ ((pos 0, pos 2), milli (pos 35000)) ∷ [];
    })
unfolding update store_all store evict evict_stale evict_excess delete_all delete stale_keys by_time
    insert ◌-ℤ◌
update_run = refl

update-Keeps_example :
    (m' : PersistentMap Millis) × (update scan (milli (pos 35000)) obstacles ≡ some m')
    × IsDistinct (keys m'.entries)
    × (length m'.entries ≤ 2)
    × All (IsFresh (milli (pos 30000)) (milli (pos 35000))) m'.entries
update-Keeps_example = update-Keeps scan (milli (pos 35000)) obstacles (refl, (refl, (refl, tt)))
