-- ===== src/Serve/Isolation.antt =====
-- What a request to a route leaves as it was: the slots, and the upstreams and Redis where it is refused.
use vial_gateway.Prelude.{
  ℕ, ◌+◌, ◌≡◌, refl, Bool, true, false, arith, Option-cases, inl, inr, ◌⊎◌, ap, sym, subst, ◌∙◌,
}
use vial_gateway.Text.{Text}
use vial_gateway.Route.{Principal, CompiledRoute}
use vial_gateway.RateLimit.Request.{Link}
use vial_gateway.Cache.{cache_key}
use vial_gateway.Answer.{fault}
use vial_gateway.Serve.{Gate, Verdict, refused, admitted, admit}
use vial_gateway.Serve.Admission.{is_admitted, Charged, admit_cases}
use vial_gateway.Serve.Exchange.{
  Request, Deps, Site, answer, arrival_of, asked_of, hit, respond, serve_http,
}

pub Verdict-cases :
    (v : Verdict)
    → ((status : ℕ) × (code : Text) × (v ≡ refused status code))
      ⊎ ((p : Principal) × (v ≡ admitted p))
Verdict-cases (refused status code) = inl (status, code, refl)
Verdict-cases (admitted p) = inr (p, refl)

admitted-injective : (p q : Principal) → admitted p ≡ admitted q → p ≡ q
admitted-injective p q e = cc

module _ {B W : Type 0} (deps : Deps W) where
  respond-gate :
      (route : CompiledRoute B) (link : Link) (answered : Bool) (q : Request) (p : Principal)
      (s : Site B W)
      → (respond deps route link answered q p s).0.gate ≡ s.gate
  unfolding respond
  respond-gate route link answered q p s =
      elim (Option-cases
        (hit deps link (cache_key deps.std route link (asked_of q) p.id) q s.store)) [
          | inl miss ↦ rw (miss, respond) refl
          | inr (page, found) ↦ rw (found, respond) refl
        ]

  -- What the guards say of a request.
  abbrev pub guards : CompiledRoute B → Link → Request → Site B W → Gate × Verdict
  guards route link q s = admit deps.std deps.verify_jwt route link s.store (arrival_of q) s.gate

  abbrev pub ChargedTo : CompiledRoute B → Link → Request → Site B W → Principal → Type 0
  ChargedTo route link q s p =
      Charged deps.std deps.verify_jwt route link s.store (arrival_of q) s.gate p
        (guards route link q s)

  admitted-ChargedTo :
      (route : CompiledRoute B) (link : Link) (q : Request) (s : Site B W) (p : Principal)
      → (guards route link q s).1 ≡ admitted p
      → ChargedTo route link q s p × ((guards route link q s).0.taken ≡ s.gate.taken + 1)
  admitted-ChargedTo route link q s p e =
      let let_in : is_admitted (guards route link q s).1 ≡ true = ap is_admitted e in
      elim (admit_cases deps.std deps.verify_jwt route link s.store (arrival_of q) s.gate) [
        | inl (refusal, _) ↦ cc
        | inr (p', c) ↦ (
          subst (ChargedTo route link q s) (admitted-injective p' p (sym (c.named let_in) ∙ e)) c,
          c.slots ∙ rw let_in refl,
        )
      ]

  refused-keeps :
      (route : CompiledRoute B) (link : Link) (q : Request) (s : Site B W) (status : ℕ)
      (code : Text)
      → (guards route link q s).1 ≡ refused status code
      → ((guards route link q s).0.taken ≡ s.gate.taken)
        × (((guards route link q s).0.limits ≡ s.gate.limits)
            ⊎ ((p : Principal) × ChargedTo route link q s p))
  refused-keeps route link q s status code e =
      let left_out : is_admitted (guards route link q s).1 ≡ false = ap is_admitted e in
      elim (admit_cases deps.std deps.verify_jwt route link s.store (arrival_of q) s.gate) [
        | inl (_, same) ↦ (ap (λ g. g.taken) same, inl (ap (λ g. g.limits) same))
        | inr (p, c) ↦ (c.slots ∙ rw left_out refl, inr (p, c))
      ]

  -- A request is answered by a fault and neither sent anywhere nor let near the cache, or the guards
  -- admit it. One that is answered by a fault without being admitted leaves the rate limits as they
  -- were, or fitted the limits of the route, found a slot free and came from a principal with the
  -- route's scopes, whose rate limit was charged and refused it; one that is admitted was charged to
  -- such a principal, whose rate limit let it in. Either way the rate limits are those that the guards
  -- left, and the slots of the route that are taken are as many after it as before.
  pub serve_http_cases :
      (route : CompiledRoute B) (link : Link) (answered : Bool) (q : Request) (s : Site B W)
      → let r = serve_http deps route link answered q s in
        (r.0.gate.taken ≡ s.gate.taken)
        × (r.0.gate.limits ≡ (guards route link q s).0.limits)
        × (((status : ℕ) × (code : Text) × (r.1 ≡ answer (fault status code))
              × (r.0.sending ≡ s.sending)
              × (r.0.store ≡ s.store)
              × ((r.0.gate.limits ≡ s.gate.limits)
                  ⊎ ((p : Principal) × ChargedTo route link q s p)))
            ⊎ ((p : Principal) × ((guards route link q s).1 ≡ admitted p)
                × ChargedTo route link q s p))
  unfolding serve_http admit
  serve_http_cases route link answered q s = elim (Verdict-cases (guards route link q s).1) [
    | inl (status, code, e) ↦
        let (slots, limits) = refused-keeps route link q s status code e in
        rw (e, serve_http) (slots, refl, inl (status, code, refl, refl, refl, limits))
    | inr (p, e) ↦
        let (c, one_more) = admitted-ChargedTo route link q s p e in
        let gate : (respond deps route link answered q p
              (record s { gate = (guards route link q s).0 })).0.gate.taken
            ≡ s.gate.taken + 1 =
          ap (λ g. g.taken)
            (respond-gate route link answered q p (record s { gate = (guards route link q s).0 }))
          ∙ one_more in
        let limits : (respond deps route link answered q p
              (record s { gate = (guards route link q s).0 })).0.gate.limits
            ≡ (guards route link q s).0.limits =
          ap (λ g. g.limits)
            (respond-gate route link answered q p
              (record s { gate = (guards route link q s).0 })) in
        (rw (e, serve_http) (omega (arith, gate)), rw (e, serve_http) limits, inr (p, e, c))
  ]
