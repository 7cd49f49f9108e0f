-- ===== src/Console/Statistics.antt =====
-- statistics and queryPrometheus of cmd/gateway/admin_ui.go. A float64 is a value of `F`; `Prometheus` is
-- what strconv, math and encoding/json do with it, and what the client gets for an expression.
use vial_gateway.Prelude.{
  ℕ, Bool, not, ◌||◌, List, [], ◌∷◌, ◌++◌, Option, none, some, Result, ok, err, if◌then◌else◌, ◌==◌,
}
use vial_gateway.Text.{Text, codes, text_eq, is_empty}
use vial_gateway.Dict.{lookup, insert, or_empty}

-- prometheusSample, and a result of prometheusQueryResponse with its values as JSON
pub record Sample (F : Type 0) : Type 0 where
  pub metric : List (Text × Text)
  pub value : F

pub record QueryResult : Type 0 where
  pub metric : List (Text × Text)
  pub value : List Text

pub record Payload : Type 0 where
  pub status : Text
  pub result : List QueryResult

pub record Prometheus (F : Type 0) : Type 0 where
  -- the status of the response, and its body where it decodes; `none` is an error of the client
  pub get : Text → Option (ℕ × Option Payload)
  -- json.Unmarshal of a value into a string
  pub unquote : Text → Option Text
  -- strconv.ParseFloat
  pub parse_float : Text → Option F
  pub is_nan : F → Bool
  pub is_inf : F → Bool
  pub zero_value : F

-- adminRouteStatistic, and the answer of statistics
pub record RouteStatistic (F : Type 0) : Type 0 where
  pub route : Text
  pub requests_per_second : F

pub record Statistics (F : Type 0) : Type 0 where
  pub requests_per_second : F
  pub error_rate_percent : F
  pub upstream_failures_per_second : F
  pub cache_hit_rate_percent : F
  pub routes : List (RouteStatistic F)

pub data StatisticsError : Type 0 where
  not_configured unavailable : StatisticsError

abbrev requests : Text
requests = codes "sum(rate(vial_gateway_requests_total[5m]))"

-- The expressions of the loop, by their names; the last one is by route.
unfoldable pub queries : List (Text × Text)
queries =
    (codes "requests_per_second", requests)
    ∷ (
      codes "error_rate_percent",
      codes "100 * sum(rate(vial_gateway_requests_total{status=~\"5..\"}[5m])) / "
          ++ codes "clamp_min(sum(rate(vial_gateway_requests_total[5m])), 0.000001)",
    )
    ∷ (
      codes "upstream_failures_per_second",
      codes "sum(rate(vial_gateway_upstream_attempts_total{result!=\"ok\"}[5m]))",
    )
    ∷ (
      codes "cache_hit_rate_percent",
      codes "100 * sum(rate(vial_gateway_cache_total{result=\"hit\"}[5m])) / "
          ++ codes
              "clamp_min(sum(rate(vial_gateway_cache_total{result=~\"hit|miss\"}[5m])), 0.000001)",
    )
    ∷ []

abbrev pub by_route : Text
by_route = codes "sum by (route) (rate(vial_gateway_requests_total[5m]))"

module _ {F : Type 0} (p : Prometheus F) where
  -- The number of a sample: zero where it does not parse, or is no finite number.
  abbrev pub finite_or_zero : Option F → F
  finite_or_zero none = p.zero_value
  finite_or_zero (some x) = if p.is_nan x || p.is_inf x then p.zero_value else x

  -- A result as a sample, unless it is skipped.
  unfoldable pub sample_of : List (Text × Text) → List Text → Option (Sample F)
  sample_of metric (at ∷ raw ∷ []) = elim (p.unquote raw) [
    | none ↦ none
    | some encoded ↦
        some (record { metric = metric; value = finite_or_zero (p.parse_float encoded) })
  ]
  sample_of metric other = none

  unfoldable pub samples_of : List QueryResult → List (Sample F)
  unfolding sample_of
  samples_of [] = []
  samples_of (r ∷ rs) =
      let later = samples_of rs in
      elim (sample_of r.metric r.value) [ none ↦ later | some sample ↦ sample ∷ later ]

  -- queryPrometheus; `none` is an error
  unfoldable pub query_prometheus : Text → Option (List (Sample F))
  unfolding samples_of
  query_prometheus expression = elim (p.get expression) [
    | none ↦ none
    | some (status, decoded) ↦ if not (status == 200) then none else elim decoded [
      | none ↦ none
      | some payload ↦
          if not (text_eq payload.status (codes "success"))
          then none
          else some (samples_of payload.result)
    ]
  ]

  -- The loop over the queries, which fills `values`.
  unfoldable pub collect : List (Text × Text) → List (Text × F) → Option (List (Text × F))
  collect [] values = some values
  collect ((name, expression) ∷ rest) values = elim (query_prometheus expression) [
    | none ↦ none
    | some [] ↦ collect rest values
    | some (sample ∷ others) ↦ collect rest (insert name sample.value values)
  ]

  -- The loop over the samples by route.
  unfoldable pub route_statistics : List (Sample F) → List (RouteStatistic F)
  route_statistics [] = []
  route_statistics (sample ∷ samples) =
      let route = or_empty (lookup (codes "route") sample.metric) in
      let later = route_statistics samples in
      if is_empty route
      then later
      else record { route = route; requests_per_second = sample.value } ∷ later

  -- values[name]
  abbrev pub value_of : Text → List (Text × F) → F
  value_of name values = elim (lookup name values) [ none ↦ p.zero_value | some x ↦ x ]

  abbrev pub body_of : List (Text × F) → List (RouteStatistic F) → Statistics F
  body_of values routes = record {
    requests_per_second = value_of (codes "requests_per_second") values;
    error_rate_percent = value_of (codes "error_rate_percent") values;
    upstream_failures_per_second = value_of (codes "upstream_failures_per_second") values;
    cache_hit_rate_percent = value_of (codes "cache_hit_rate_percent") values;
    routes = routes;
  }

  -- statistics, for the URL of Prometheus and with what sort.Slice makes of the routes
  unfoldable pub statistics :
      (List (RouteStatistic F) → List (RouteStatistic F))
      → Text
      → Result StatisticsError (Statistics F)
  statistics sort url = if is_empty url then err not_configured else elim (collect queries []) [
    | none ↦ err unavailable
    | some values ↦ elim (query_prometheus by_route) [
      | none ↦ err unavailable
      | some samples ↦ ok (body_of values (sort (route_statistics samples)))
    ]
  ]
