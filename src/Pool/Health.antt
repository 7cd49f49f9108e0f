-- ===== src/Pool/Health.antt =====
-- The health checks of a pool: startHealthChecks of cmd/gateway/app.go. Each endpoint has a timer of its
-- own, so that checks come in any order; a check is the endpoint that it is of, and what client.Do
-- gives for it. `Probe` is that response, if any, as its status and whether there was no error.
use vial_gateway.Prelude.{
  ℕ, zero, suc, ◌+◌, ◌≤◌, ◌≡◌, refl, Bool, true, false, ◌&&◌, List, [], ◌∷◌, Option, none, some,
  length, get_elem?, leb, ltb, ◌==◌, if◌then◌else◌, arith, Option-cases, Bool-cases, inl, inr, ap,
  ◌∙◌, ==_iff,
}
use vial_gateway.Text.{Text}
use vial_gateway.Std.{Std}
use vial_gateway.Path.{join_url_path}
use vial_gateway.Pool.{Endpoint, Pool, pick, has_healthy, u64_mod}
use vial_gateway.Pool.Pick.{pick_only_healthy, pick_of_has_healthy, any_of_elem}

abbrev pub Probe : Type 0
Probe = Option (ℕ × Bool)

unfoldable pub is_healthy : Probe → Bool
is_healthy none = false
is_healthy (some (status, clean)) = clean && leb 200 status && ltb status 400

module _ {B : Type 0} where
  -- The URL that a check asks for.
  unfoldable pub health_url : Std → Text → Endpoint B → Text
  health_url std health_path e =
      std.urls.to_string (record e.url { path = join_url_path e.url.path health_path })

  -- endpoint.healthy.Store, for the endpoint at an index
  unfoldable pub store_health : ℕ → Bool → List (Endpoint B) → List (Endpoint B)
  store_health i healthy [] = []
  store_health zero healthy (e ∷ es) = record e { healthy = healthy } ∷ es
  store_health (suc i) healthy (e ∷ es) = e ∷ store_health i healthy es

  -- check of the endpoint at an index, where `get` is what client.Do gives for a URL
  unfoldable pub check : Std → Text → (Text → Probe) → ℕ → Pool B → Pool B
  check std health_path get i pool = elim (get_elem? pool.endpoints i) [
    | none ↦ pool
    | some e ↦ record pool {
      endpoints = store_health i (is_healthy (get (health_url std health_path e))) pool.endpoints;
    }
  ]

  -- Checks in the order in which they end.
  unfoldable pub check_all : Std → Text → List (ℕ × (Text → Probe)) → Pool B → Pool B
  check_all std health_path [] pool = pool
  check_all std health_path ((i, get) ∷ checks) pool =
      check_all std health_path checks (check std health_path get i pool)

  -- What the last check of an endpoint found, or else what held before.
  unfoldable pub last_found : Std → Text → List (ℕ × (Text → Probe)) → ℕ → Endpoint B → Bool → Bool
  last_found std health_path [] i e before = before
  last_found std health_path ((j, get) ∷ checks) i e before =
      last_found std health_path checks i e
        (if j == i then is_healthy (get (health_url std health_path e)) else before)

  store-same :
      (i : ℕ) (b : Bool) (es : List (Endpoint B)) (e : Endpoint B)
      → get_elem? es i ≡ some e
      → get_elem? (store_health i b es) i ≡ some (record e { healthy = b })
  unfolding store_health
  store-same i b [] e h = cc
  store-same zero b (x ∷ es) e h = ground arith
  store-same (suc i) b (x ∷ es) e h = store-same i b es e h

  store-other :
      (i j : ℕ) (b : Bool) (es : List (Endpoint B))
      → (j == i) ≡ false
      → get_elem? (store_health j b es) i ≡ get_elem? es i
  unfolding store_health
  store-other i j b [] h = refl
  store-other zero zero b (x ∷ es) h = cc
  store-other (suc i) zero b (x ∷ es) h = refl
  store-other zero (suc j) b (x ∷ es) h = refl
  store-other (suc i) (suc j) b (x ∷ es) h = store-other i j b es (ground arith)

  check-elem :
      (std : Std) (health_path : Text) (get : Text → Probe) (i j : ℕ) (pool : Pool B)
      (e : Endpoint B) (b : Bool)
      → get_elem? pool.endpoints i ≡ some (record e { healthy = b })
      → get_elem? (check std health_path get j pool).endpoints i
        ≡ some (record e {
          healthy = if j == i then is_healthy (get (health_url std health_path e)) else b;
        })
  unfolding check health_url
  check-elem std health_path get i j pool e b h = elim (Bool-cases (j == i)) [
    | inl same ↦
        let met : j ≡ i = (==_iff j i).0 same in
        let there : get_elem? pool.endpoints j ≡ some (record e { healthy = b }) = rw met h in
        rw (there, check) (rw same (rw (← met) (store-same j _ pool.endpoints _ there)))
    | inr other ↦ elim (Option-cases (get_elem? pool.endpoints j)) [
      | inl none_there ↦ rw (none_there, check) (rw other h)
      | inr (x, there) ↦ rw (there, check) (rw other (store-other i j _ pool.endpoints other ∙ h))
    ]
  ]

  check_all-elem :
      (std : Std) (health_path : Text) (checks : List (ℕ × (Text → Probe))) (i : ℕ) (pool : Pool B)
      (e : Endpoint B) (b : Bool)
      → get_elem? pool.endpoints i ≡ some (record e { healthy = b })
      → get_elem? (check_all std health_path checks pool).endpoints i
        ≡ some (record e { healthy = last_found std health_path checks i e b })
  unfolding check_all last_found
  check_all-elem std health_path [] i pool e b h = h
  check_all-elem std health_path ((j, get) ∷ checks) i pool e b h =
      check_all-elem std health_path checks i (check std health_path get j pool) e _
        (check-elem std health_path get i j pool e b h)

  length-store :
      (i : ℕ) (b : Bool) (es : List (Endpoint B)) → length (store_health i b es) ≡ length es
  unfolding store_health
  length-store i b [] = refl
  length-store zero b (e ∷ es) = refl
  length-store (suc i) b (e ∷ es) = ap (λ n. suc n) (length-store i b es)

  store-none :
      (i j : ℕ) (b : Bool) (es : List (Endpoint B))
      → get_elem? es i ≡ none
      → get_elem? (store_health j b es) i ≡ none
  unfolding store_health
  store-none i j b [] h = refl
  store-none zero j b (e ∷ es) h = cc
  store-none (suc i) zero b (e ∷ es) h = h
  store-none (suc i) (suc j) b (e ∷ es) h = store-none i j b es h

  -- What checks leave of a pool: its counter, and the number of its endpoints.
  abbrev SamePool : Pool B → Pool B → Type 0
  SamePool p q =
      (q.next ≡ p.next)
      × (length q.endpoints ≡ length p.endpoints)
      × ((i : ℕ) → get_elem? p.endpoints i ≡ none → get_elem? q.endpoints i ≡ none)

  check-SamePool :
      (std : Std) (health_path : Text) (get : Text → Probe) (j : ℕ) (pool : Pool B)
      → SamePool pool (check std health_path get j pool)
  unfolding check
  check-SamePool std health_path get j pool = elim (Option-cases (get_elem? pool.endpoints j)) [
    | inl away ↦ rw (away, check) (refl, refl, λ i h. h)
    | inr (e, there) ↦
        rw (there, check)
          (refl, length-store j _ pool.endpoints, λ i h. store-none i j _ pool.endpoints h)
  ]

  check_all-SamePool :
      (std : Std) (health_path : Text) (checks : List (ℕ × (Text → Probe))) (pool : Pool B)
      → SamePool pool (check_all std health_path checks pool)
  unfolding check_all
  check_all-SamePool std health_path [] pool = (refl, refl, λ i h. h)
  check_all-SamePool std health_path ((j, get) ∷ checks) pool =
      let (next, size, missing) = check-SamePool std health_path get j pool in
      let (next', size', missing') =
        check_all-SamePool std health_path checks (check std health_path get j pool) in
      (next' ∙ next, size' ∙ size, λ i h. missing' i (missing i h))

  -- An endpoint of the pool whose last check found it up, or that was up before the first.
  abbrev pub FoundUp : Std → Text → List (ℕ × (Text → Probe)) → Pool B → ℕ → Type 0
  FoundUp std health_path checks pool i =
      (e : Endpoint B) × (get_elem? pool.endpoints i ≡ some e)
      × (last_found std health_path checks i e e.healthy ≡ true)

  picked-FoundUp :
      (std : Std) (health_path : Text) (checks : List (ℕ × (Text → Probe))) (pool : Pool B) (i : ℕ)
      → (pick (check_all std health_path checks pool)).1 ≡ some i
      → FoundUp std health_path checks pool i
  picked-FoundUp std health_path checks pool i h =
      let pool' = check_all std health_path checks pool in
      let (found, at, up) = pick_only_healthy pool' i h in
      elim (Option-cases (get_elem? pool.endpoints i)) [
        | inl away ↦ cc ((check_all-SamePool std health_path checks pool).2 i away, at)
        | inr (e, there) ↦
            let after = check_all-elem std health_path checks i pool e e.healthy there in
            (e, there, ground arith)
      ]

  -- After any checks, a pick gives an endpoint whose last check was answered by a status from 200 to
  -- 399, or that had no check and was up before; and there is a pick if there is such an endpoint,
  -- while the counter is a turn away from wrapping.
  pub pick_of_checks :
      (std : Std) (health_path : Text) (checks : List (ℕ × (Text → Probe))) (pool : Pool B)
      → pool.next + length pool.endpoints ≤ u64_mod
      → let picked = (pick (check_all std health_path checks pool)).1 in
        ((i : ℕ) → picked ≡ some i → FoundUp std health_path checks pool i)
        × ((i : ℕ) → FoundUp std health_path checks pool i → (k : ℕ) × (picked ≡ some k))
  unfolding has_healthy
  pick_of_checks std health_path checks pool room = (
    picked-FoundUp std health_path checks pool,
    λ i up.
        let pool' = check_all std health_path checks pool in
        let (next, size, missing) = check_all-SamePool std health_path checks pool in
        let after = check_all-elem std health_path checks i pool up.0 up.0.healthy up.1 in
        let healthy : has_healthy pool' ≡ true = any_of_elem pool'.endpoints i (rw after up.2) in
        let (k, e, picked, at, alive) = pick_of_has_healthy pool' (omega arith) healthy in
        (k, picked),
  )
