-- ===== src/Console/Finite.antt =====
-- The numbers that statistics of cmd/gateway/admin_ui.go shows; encoding/json takes finite ones only.
use vial_gateway.Prelude.{
  ◌≡◌, refl, Bool, true, not, ◌&&◌, List, [], ◌∷◌, Option, none, some, ok, err, arith, Bool-cases,
  Option-cases, inl, inr, ◌⊎◌, all,
}
use vial_gateway.Text.{Text, codes, is_empty}
use vial_gateway.Dict.{lookup, insert, lookup-insert}
use vial_gateway.Console.Statistics.{
  Sample, QueryResult, Prometheus, RouteStatistic, Statistics, not_configured, unavailable, queries,
  by_route, finite_or_zero, sample_of, samples_of, query_prometheus, collect, route_statistics,
  value_of, body_of, statistics,
}

module _ {F : Type 0} (p : Prometheus F) where
  abbrev pub is_finite : F → Bool
  is_finite x = not (p.is_nan x) && not (p.is_inf x)

  finite_or_zero-is_finite :
      (o : Option F) → is_finite p.zero_value ≡ true → is_finite (finite_or_zero p o) ≡ true
  finite_or_zero-is_finite none zero = zero
  finite_or_zero-is_finite (some x) zero = ground arith

  abbrev finite_sample : Sample F → Bool
  finite_sample s = is_finite s.value

  sample_of-is_finite :
      (metric : List (Text × Text)) (value : List Text) (s : Sample F)
      → is_finite p.zero_value ≡ true
      → sample_of p metric value ≡ some s
      → finite_sample s ≡ true
  unfolding sample_of
  sample_of-is_finite metric [] s zero h = cc
  sample_of-is_finite metric (at ∷ []) s zero h = cc
  sample_of-is_finite metric (at ∷ raw ∷ next ∷ more) s zero h = cc
  sample_of-is_finite metric (at ∷ raw ∷ []) s zero h = elim (Option-cases (p.unquote raw)) [
    | inl bad ↦ absurd (ground arith)
    | inr (encoded, read) ↦
        let finite = finite_or_zero-is_finite (p.parse_float encoded) zero in ground arith
  ]

  samples_of-is_finite :
      (rs : List QueryResult)
      → is_finite p.zero_value ≡ true
      → all finite_sample (samples_of p rs) ≡ true
  unfolding samples_of
  samples_of-is_finite [] zero = refl
  samples_of-is_finite (r ∷ rs) zero =
      let later = samples_of-is_finite rs zero in
      elim (Option-cases (sample_of p r.metric r.value)) [
        | inl skipped ↦ rw (skipped, samples_of) later
        | inr (s, kept) ↦
            rw (kept, samples_of)
              (rw (sample_of-is_finite r.metric r.value s zero kept, later) refl)
      ]

  query-is_finite :
      (expression : Text) (samples : List (Sample F))
      → is_finite p.zero_value ≡ true
      → query_prometheus p expression ≡ some samples
      → all finite_sample samples ≡ true
  unfolding query_prometheus
  query-is_finite expression samples zero h = elim (Option-cases (p.get expression)) [
    | inl lost ↦ absurd (ground arith)
    | inr ((status, none), got) ↦ absurd (ground arith)
    | inr ((status, some payload), got) ↦
        let finite = samples_of-is_finite payload.result zero in ground arith
  ]

  -- Whatever is looked up in the values is finite.
  abbrev FiniteValues : List (Text × F) → Type 0
  FiniteValues values = (name : Text) → is_finite (value_of p name values) ≡ true

  insert-FiniteValues :
      (name : Text) (x : F) (values : List (Text × F))
      → is_finite x ≡ true
      → FiniteValues values
      → FiniteValues (insert name x values)
  insert-FiniteValues name x values finite h key =
      ground (arith, lookup-insert name key x values, h key)

  collect-FiniteValues :
      (qs : List (Text × Text)) (values filled : List (Text × F))
      → is_finite p.zero_value ≡ true
      → FiniteValues values
      → collect p qs values ≡ some filled
      → FiniteValues filled
  unfolding collect
  collect-FiniteValues [] values filled zero h done =
      let same : values ≡ filled = cc in rw (← same) h
  collect-FiniteValues ((name, expression) ∷ qs) values filled zero h done =
      elim (Option-cases (query_prometheus p expression)) [
        | inl lost ↦ absurd (ground arith)
        | inr ([], got) ↦ collect-FiniteValues qs values filled zero h (rw (got, collect) at done)
        | inr (s ∷ others, got) ↦
            let finite = query-is_finite expression (s ∷ others) zero got in
            collect-FiniteValues qs (insert name s.value values) filled zero
              (insert-FiniteValues name s.value values (ground arith) h) (rw (got, collect) at done)
      ]

  -- One of the queries gets no answer.
  abbrev pub AnyFails : List (Text × Text) → Type 0
  AnyFails [] = ⊥
  AnyFails ((name, expression) ∷ qs) = (query_prometheus p expression ≡ none) ⊎ AnyFails qs

  collect-AnyFails :
      (qs : List (Text × Text)) (values : List (Text × F))
      → collect p qs values ≡ none
      → AnyFails qs
  unfolding collect
  collect-AnyFails [] values h = cc
  collect-AnyFails ((name, expression) ∷ qs) values h =
      elim (Option-cases (query_prometheus p expression)) [
        | inl lost ↦ inl lost
        | inr ([], got) ↦ inr (collect-AnyFails qs values (rw (got, collect) at h))
        | inr (s ∷ others, got) ↦
            inr (collect-AnyFails qs (insert name s.value values) (rw (got, collect) at h))
      ]

  abbrev pub finite_route : RouteStatistic F → Bool
  finite_route r = is_finite r.requests_per_second && not (is_empty r.route)

  route_statistics-finite :
      (samples : List (Sample F))
      → all finite_sample samples ≡ true
      → all finite_route (route_statistics p samples) ≡ true
  unfolding route_statistics
  route_statistics-finite [] h = refl
  route_statistics-finite (s ∷ samples) h =
      ground (arith, route_statistics-finite samples (ground arith))

  -- The numbers of an answer are finite, and its routes have names.
  pub record IsFinite (body : Statistics F) : Type 0 where
    pub requests : is_finite body.requests_per_second ≡ true
    pub errors : is_finite body.error_rate_percent ≡ true
    pub failures : is_finite body.upstream_failures_per_second ≡ true
    pub hits : is_finite body.cache_hit_rate_percent ≡ true
    pub routes : all finite_route body.routes ≡ true

  -- The statistics are refused where Prometheus is not configured, and unavailable if one of the queries
  -- fails; or every query was answered, and every number that is shown is finite, and every route named:
  -- where zero is finite, and sorting the routes brings in no others.
  pub statistics_cases :
      (sort : List (RouteStatistic F) → List (RouteStatistic F)) (url : Text)
      → is_finite p.zero_value ≡ true
      → ((keep : RouteStatistic F → Bool) (rs : List (RouteStatistic F))
          → all keep rs ≡ true
          → all keep (sort rs) ≡ true)
      → let r = statistics p sort url in
        ((is_empty url ≡ true) × (r ≡ err not_configured))
        ⊎ ((AnyFails queries ⊎ (query_prometheus p by_route ≡ none)) × (r ≡ err unavailable))
        ⊎ ((body : Statistics F) × (r ≡ ok body) × IsFinite body)
  unfolding statistics
  statistics_cases sort url zero sorted = elim (Bool-cases (is_empty url)) [
    | inl unset ↦ inl (unset, rw (unset, statistics) refl)
    | inr set ↦ elim (Option-cases (collect p queries [])) [
      | inl lost ↦
          inr (inl (inl (collect-AnyFails queries [] lost), rw (set, statistics) (rw lost refl)))
      | inr (values, filled) ↦ elim (Option-cases (query_prometheus p by_route)) [
        | inl lost ↦ inr (inl (inr lost, rw (set, statistics) (rw (filled, lost) refl)))
        | inr (samples, got) ↦
            let finite =
              collect-FiniteValues queries [] values zero (λ name. unfold lookup in zero) filled in
            inr (
              inr (
                body_of p values (sort (route_statistics p samples)),
                rw (set, statistics) (rw (filled, got) refl),
                record {
                  requests = finite (codes "requests_per_second");
                  errors = finite (codes "error_rate_percent");
                  failures = finite (codes "upstream_failures_per_second");
                  hits = finite (codes "cache_hit_rate_percent");
                  routes =
                      sorted finite_route (route_statistics p samples) (
                        route_statistics-finite samples
                          (query-is_finite by_route samples zero got));
                },
              ))
      ]
    ]
  ]
