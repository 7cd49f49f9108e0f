-- ===== src/Serve/Admission.antt =====
-- Which requests pass the guards of a route, and what those that do not pass change.
use vial_gateway.Prelude.{
  ◌+◌, ◌≡◌, refl, Bool, true, false, not, ◌&&◌, Option, some, arith, Option-cases, Bool-cases, inl,
  inr, ◌⊎◌, if◌then◌else◌,
}
use vial_gateway.Prelude.Int.{not_pos, leb_ℤ, pos}
use vial_gateway.Text.{Text}
use vial_gateway.Std.{Std}
use vial_gateway.Header.{header_bytes}
use vial_gateway.Scopes.{has_scopes}
use vial_gateway.Route.{Principal, CompiledRoute}
use vial_gateway.RateLimit.Request.{Link, Limits}
use vial_gateway.Store.{Store}
use vial_gateway.Auth.{authenticate}
use vial_gateway.Serve.{
  Arrival, Gate, Verdict, refused, admitted, slot_free, rated, rate_of, within, admit,
}

abbrev pub is_admitted : Verdict → Bool
is_admitted (admitted p) = true
is_admitted (refused status code) = false

rated-parts :
    (p : Principal) (d : Limits × Bool) (s : Gate)
    → ((rated p d s).0.limits ≡ d.0)
      × (is_admitted (rated p d s).1 ≡ d.1)
      × ((rated p d s).0.taken ≡ (if is_admitted (rated p d s).1 then s.taken + 1 else s.taken))
      × (is_admitted (rated p d s).1 ≡ true → (rated p d s).1 ≡ admitted p)
rated-parts p (limits, false) s = (refl, refl, refl, λ h. cc)
rated-parts p (limits, true) s = (refl, refl, refl, λ h. refl)

module _ {B : Type 0} (std : Std) (verify_jwt : Text → Option Principal) where
  -- What holds of a request that is charged to the rate limit of its principal `p`.
  pub record Charged (route : CompiledRoute B) (link : Link) (store : Store) (a : Arrival)
      (s : Gate) (p : Principal) (r : Gate × Verdict) : Type 0 where
    pub known : authenticate std verify_jwt route.auth link store a.header ≡ some p
    pub scoped : has_scopes p.scopes route.config.scopes ≡ true
    pub fits : within std verify_jwt route a ≡ true
    pub free : slot_free route.sem s.taken ≡ true
    pub limits : r.0.limits ≡ (rate_of std verify_jwt route link a p s.limits).0
    pub decided : is_admitted r.1 ≡ (rate_of std verify_jwt route link a p s.limits).1
    pub named : is_admitted r.1 ≡ true → r.1 ≡ admitted p
    pub slots : r.0.taken ≡ (if is_admitted r.1 then s.taken + 1 else s.taken)

  fitting :
      (route : CompiledRoute B) (a : Arrival)
      → (not (not_pos route.max_header)
          && not (leb_ℤ (pos (header_bytes a.header)) route.max_header))
        ≡ false
      → leb_ℤ a.content_length route.config.max_body_bytes ≡ true
      → within std verify_jwt route a ≡ true
  fitting route a short small = ground arith

  charged :
      (route : CompiledRoute B) (link : Link) (store : Store) (a : Arrival) (s : Gate)
      (p : Principal)
      → authenticate std verify_jwt route.auth link store a.header ≡ some p
      → has_scopes p.scopes route.config.scopes ≡ true
      → within std verify_jwt route a ≡ true
      → slot_free route.sem s.taken ≡ true
      → Charged route link store a s p (rated p (rate_of std verify_jwt route link a p s.limits) s)
  charged route link store a s p known scoped fits free =
      let (limits, decided, slots, named) =
        rated-parts p (rate_of std verify_jwt route link a p s.limits) s in
      record {
        known = known;
        scoped = scoped;
        fits = fits;
        free = free;
        limits = limits;
        decided = decided;
        named = named;
        slots = slots;
      }

  -- A request is refused and changes neither the rate limits nor the slots, or it fits the limits of
  -- the route, found a slot free and comes from a principal with the route's scopes: then the rate
  -- limit of that principal is charged and decides, and a slot is taken if it admits.
  pub admit_cases :
      (route : CompiledRoute B) (link : Link) (store : Store) (a : Arrival) (s : Gate)
      → let r = admit std verify_jwt route link store a s in
        ((is_admitted r.1 ≡ false) × (r.0 ≡ s))
        ⊎ ((p : Principal) × Charged route link store a s p r)
  unfolding admit
  admit_cases route link store a s =
      elim (Bool-cases (
        not (not_pos route.max_header)
        && not (leb_ℤ (pos (header_bytes a.header)) route.max_header))) [
          | inl long ↦ inl (rw long (refl, refl))
          | inr short ↦ elim (Bool-cases (leb_ℤ a.content_length route.config.max_body_bytes)) [
            | inr large ↦ inl (rw (short, large) (refl, refl))
            | inl small ↦ elim (Bool-cases (slot_free route.sem s.taken)) [
              | inr full ↦ inl (rw (short, small, full) (refl, refl))
              | inl free ↦
                  elim (Option-cases (authenticate std verify_jwt route.auth link store a.header)) [
                    | inl unknown ↦ inl (rw (short, small, free, unknown) (refl, refl))
                    | inr (p, known) ↦ elim (Bool-cases (has_scopes p.scopes route.config.scopes)) [
                      | inr lacks ↦ inl (rw (short, small, free, known) (rw lacks (refl, refl)))
                      | inl scoped ↦ inr (
                          rw (short, small, free, known)
                            (rw scoped (
                              p,
                              charged route link store a s p known scoped
                                  (fitting route a short small) free,
                            )))
                    ]
                  ]
            ]
          ]
        ]
