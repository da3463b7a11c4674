-- ===== src/Core/Cache/Tests.antt =====
-- Runs of core/cache.go at concrete caches.
use mathlib.Core.List.{Permᴰ}
use go_ha.Prelude.{ℕ, String, ◌≡◌, refl, inr, true, false, List, [], ◌∷◌, arith, if◌then◌else◌}
use go_ha.Prelude.Dict.{lookup}
use go_ha.Core.Event.{EntityState}
use go_ha.Core.Cache.{new_entity_cache, begin_seed, finish_seed, stream, Update, applies, removes}
use go_ha.Core.Cache.Window.{writes, latest, finish_seed-stream}
use go_ha.Core.Cache.Order.{apply_all, apply_all-perm, AllDistinct}

abbrev lamp : String → ℕ → EntityState
lamp state time = record {
  entity_id = "light.hall";
  state = state;
  attributes = [];
  last_changed = time;
  last_updated = time;
}

abbrev racing : List Update
racing = applies (lamp "on" 7) ∷ removes "light.hall" ∷ applies (lamp "off" 9) ∷ []

finish_seed-stream_example :
    let after = finish_seed (lamp "on" 5 ∷ []) (stream racing (begin_seed new_entity_cache)) in
    (lookup "light.hall" after.entities ≡ (
      if writes racing new_entity_cache "light.hall"
      then lookup "light.hall" (stream racing new_entity_cache).entities
      else latest "light.hall" (lamp "on" 5 ∷ [])))
    × (after.seeded ≡ true)
    × (after.pending ≡ false)
finish_seed-stream_example =
    finish_seed-stream racing (lamp "on" 5 ∷ []) new_entity_cache "light.hall"

abbrev batch : List EntityState
batch = lamp "on" 7 ∷ lamp "off" 9 ∷ []

batch-AllDistinct : AllDistinct batch
batch-AllDistinct = (omega arith, (inr (omega arith), tt), (omega arith, tt, tt))

apply_all-perm_example :
    lookup "light.hall" (apply_all (lamp "on" 7 ∷ lamp "off" 9 ∷ []) new_entity_cache).entities
    ≡ lookup "light.hall" (apply_all (lamp "off" 9 ∷ lamp "on" 7 ∷ []) new_entity_cache).entities
apply_all-perm_example =
    apply_all-perm new_entity_cache (Permᴰ.swap refl refl) batch-AllDistinct "light.hall"
