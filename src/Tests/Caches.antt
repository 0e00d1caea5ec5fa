-- ===== src/Tests/Caches.antt =====
-- The result cache at three calls.
use dozzle_gaia_fork.Cache.{Cache, new_cache, get_with_hit, get_all, AllHits, get_all-get_with_hit}
use dozzle_gaia_fork.Common.{ℕ, ◌+◌, Bool, false, [], ◌∷◌, ◌≡◌, refl}
use dozzle_gaia_fork.Common.Int.{pos, ◌-ℤ◌}

abbrev count_calls : ℕ → ℕ × Bool
count_calls n = (n + 40, false)

abbrev empty : Cache ℕ
empty = new_cache 0 (pos 100)

get_all-get_with_hit_example :
    ((get_all count_calls
        (get_with_hit count_calls empty (pos 5) (pos 7)).0
        ((pos 50, pos 50) ∷ (pos 107, pos 108) ∷ [])).0.calls
      ≡ empty.calls + 1)
    × AllHits 40
        (get_all count_calls
          (get_with_hit count_calls empty (pos 5) (pos 7)).0
          ((pos 50, pos 50) ∷ (pos 107, pos 108) ∷ [])).1
unfolding ◌-ℤ◌ new_cache
get_all-get_with_hit_example =
    get_all-get_with_hit count_calls empty (pos 5) (pos 7) 40
      ((pos 50, pos 50) ∷ (pos 107, pos 108) ∷ []) refl refl refl (refl, (refl, tt))
