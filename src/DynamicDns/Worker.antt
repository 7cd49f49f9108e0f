-- ===== src/DynamicDns/Worker.antt =====
-- The loop of the Dynamic DNS worker: run of cmd/gateway/dynamic_dns.go, with its counters. A round is
-- what the endpoints answer in it, and whether the context is cancelled during it and after it.
use vial_gateway.Prelude.{
  ℕ, ◌+◌, ◌≡◌, refl, Bool, true, false, List, [], ◌∷◌, Option, some, Result, ok, err, ◌&&◌, arith,
  Bool-cases, inl, inr, ◌⊎◌, if◌then◌else◌, sym, ap, ◌∙◌, subst,
}
use vial_gateway.Text.{Text}
use vial_gateway.Std.{Std}
use vial_gateway.Config.Types.{DynamicDnsConfig}
use vial_gateway.DynamicDns.{
  Replies, SyncError, sync, replace_ip, is_public, is_success, sync_cases,
}

pub record Round : Type 0 where
  pub replies : Replies
  pub cancelled : Bool
  pub stopped : Bool

-- dynamicDNSWorker, and vial_gateway_dynamic_dns_updates_total by result
pub record Worker : Type 0 where
  pub last_ip : Text
  pub errors : ℕ
  pub updated : ℕ
  pub unchanged : ℕ

module _ (std : Std) (c : DynamicDnsConfig) where
  abbrev counted : Worker → Text × Option Text × Result SyncError Bool → Worker
  counted w (ip, url, err e) = record w { last_ip = ip; errors = w.errors + 1 }
  counted w (ip, url, ok true) = record w { last_ip = ip; updated = w.updated + 1 }
  counted w (ip, url, ok false) = record w { last_ip = ip; unchanged = w.unchanged + 1 }

  abbrev fails : Text × Option Text × Result SyncError Bool → Bool
  fails (ip, url, err e) = true
  fails (ip, url, ok changed) = false

  -- run, from lastIP and the counters
  unfoldable pub run : List Round → Worker → Worker
  run [] w = w
  run (r ∷ rounds) w =
      let result = sync std r.replies c w.last_ip in
      let next = counted w result in
      let rest = run rounds next in
      if fails result && r.cancelled
      then record w { last_ip = result.0 }
      else if r.stopped
      then next
      else rest

  -- An address that was confirmed in one of the rounds: it is public, and the update for it was answered
  -- by a 2xx status.
  abbrev pub Confirmed : Text → List Round → Type 0
  Confirmed ip [] = ⊥
  Confirmed ip (r ∷ rounds) =
      ((address : List ℕ) × (status : ℕ) × (is_public std address ≡ true)
        × (ip ≡ std.nets.ip_string address)
        × (r.replies.update (replace_ip (r.replies.escape ip) 0 c.update_url) ≡ some status)
        × (is_success status ≡ true))
      ⊎ Confirmed ip rounds

  sync-Confirmed :
      (r : Round) (rounds : List Round) (last : Text)
      → let ip = (sync std r.replies c last).0 in (ip ≡ last) ⊎ Confirmed ip (r ∷ rounds)
  sync-Confirmed r rounds last = elim (sync_cases std r.replies c last) [
    | inl same ↦ inl same
    | inr (address, status, public, named, url, answered, good, changed) ↦
        inr (inl (address, status, public, named, answered, good))
  ]

  counted-last :
      (w : Worker) (result : Text × Option Text × Result SyncError Bool)
      → (counted w result).last_ip ≡ result.0
  counted-last w (ip, url, err e) = refl
  counted-last w (ip, url, ok true) = refl
  counted-last w (ip, url, ok false) = refl

  -- A round, and what is left to do after it.
  run-cases :
      (r : Round) (rounds : List Round) (w : Worker)
      → let result = sync std r.replies c w.last_ip in
        ((run (r ∷ rounds) w).last_ip ≡ result.0)
        ⊎ (run (r ∷ rounds) w ≡ run rounds (counted w result))
  unfolding run
  run-cases r rounds w =
      let result = sync std r.replies c w.last_ip in
      let met = counted-last w result in
      elim (Bool-cases (fails result && r.cancelled)) [
        | inl gone ↦ inl (ground arith)
        | inr on ↦ elim (Bool-cases r.stopped) [
          | inl stop ↦ inl (ground arith)
          | inr go ↦ inr (ground arith)
        ]
      ]

  -- What the worker remembers after any rounds is what it began with, or an address that was confirmed in
  -- one of them.
  run-Confirmed :
      (rounds : List Round) (w : Worker)
      → let ip = (run rounds w).last_ip in (ip ≡ w.last_ip) ⊎ Confirmed ip rounds
  unfolding run
  run-Confirmed [] w = inl refl
  run-Confirmed (r ∷ rounds) w =
      let result = sync std r.replies c w.last_ip in
      let P : Text → Type 0 = λ ip. (ip ≡ w.last_ip) ⊎ Confirmed ip (r ∷ rounds) in
      let here : P result.0 = sync-Confirmed r rounds w.last_ip in
      elim (run-cases r rounds w) [
        | inl ends ↦ subst P (sym ends) here
        | inr on ↦
            subst P (sym (ap (λ x. x.last_ip) on)) (elim (run-Confirmed rounds (counted w result)) [
              | inr later ↦ inr (inr later)
              | inl same ↦ subst P (sym (same ∙ counted-last w result)) here
            ])
      ]
