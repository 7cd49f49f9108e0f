-- ===== src/Examples/Lists.antt =====
-- What the control plane lists, and an invalidation of the cache.
use vial_gateway.Prelude.{ℕ, ◌≡◌, refl, true, List, [], ◌∷◌, Option, none, some, if◌then◌else◌}
use vial_gateway.Text.{Text, codes, elem}
use vial_gateway.Number.{parse_int}
use vial_gateway.Control.Activation.{is_json}
use vial_gateway.Control.Lists.{Event, page, limit_of, start_of, list_audit}
use vial_gateway.Cache.Invalidate.{
  ScanPage, all_keys, pattern_of, unlink, sweep, invalidate_cache, invalidate_cache-strings,
}
use vial_gateway.Examples.Setup.{store, calls}

abbrev event : Text → Event
event id = (id, record { at = []; actor = []; action = []; target = [] })

-- A stream of two events.
abbrev two_events : Text → ℕ → Option (List Event)
two_events start count = some (event (codes "2-0") ∷ event (codes "1-0") ∷ [])

first_page : list_audit two_events (codes "1") [] ≡ page (event (codes "2-0") ∷ []) (codes "2-0")
unfolding list_audit start_of limit_of parse_int
first_page = refl

-- One page, with one key.
abbrev one_key : Text → List (Option ScanPage)
one_key pattern =
    some (record { keys = codes "vial-gateway:cache:app:x" ∷ []; unlinked = true }) ∷ []

invalidates :
    is_json (invalidate_cache one_key calls (codes "root") (some (codes "app")) store).1 ≡ true
unfolding invalidate_cache sweep unlink
invalidates = refl

invalidate_cache-strings_example :
    (invalidate_cache one_key calls (codes "root") (some (codes "app")) store).0.strings (codes "k")
    ≡ (if elem (codes "k") (all_keys (one_key (pattern_of (codes "app"))))
        then none
        else store.strings (codes "k"))
invalidate_cache-strings_example =
    invalidate_cache-strings one_key calls (codes "root") (codes "app") store (codes "k")
      invalidates
