-- ===== src/DynamicDns.antt =====
-- The Dynamic DNS worker: sync of cmd/gateway/dynamic_dns.go. `replies` is what the endpoints answer;
-- the result names the URL of the update, where one is asked for.
pub mod Worker
use vial_gateway.Prelude.{
  ℕ, suc, zero, ◌≡◌, refl, Bool, true, false, not, ◌&&◌, List, [], ◌∷◌, ◌++◌, Option, none, some,
  if◌then◌else◌, leb, Result, ok, err, arith, Option-cases, Bool-cases, inl, inr, ◌⊎◌, ◌∙◌,
}
use vial_gateway.Prelude.Int.{pos}
use vial_gateway.Text.{Text, codes, text_eq, has_prefix, trim_space}
use vial_gateway.Text.Equality.{text_eq_refl}
use vial_gateway.Std.{Std}
use vial_gateway.Config.Types.{DynamicDnsConfig}
use vial_gateway.Forward.{Stream, read_bounded}

-- What the worker's client does: the status and body of the check, the status of an update; `none` is
-- an error.
pub record Replies : Type 0 where
  pub check : Text → Option (ℕ × Stream)
  pub update : Text → Option ℕ
  -- url.QueryEscape
  pub escape : Text → Text

pub data SyncError : Type 0 where
  undiscovered not_read not_public not_updated : SyncError
  bad_check_status bad_update_status : ℕ → SyncError

-- A reply of the 2xx statuses.
abbrev pub is_success : ℕ → Bool
is_success status = leb 200 status && not (leb 300 status)

abbrev placeholder : Text
placeholder = codes "{ip}"

-- strings.ReplaceAll(s, "{ip}", by), with the bytes of a placeholder that are still to skip
unfoldable pub replace_ip : Text → ℕ → Text → Text
replace_ip by skip [] = []
replace_ip by (suc skip) (c ∷ s) = replace_ip by skip s
replace_ip by zero (c ∷ s) = elim (has_prefix (c ∷ s) placeholder) [
  | true ↦ by ++ replace_ip by 3 s
  | false ↦ c ∷ replace_ip by 0 s
]

module _ (std : Std) where
  abbrev pub is_public : List ℕ → Bool
  is_public ip =
      std.nets.is_global_unicast ip && not (std.nets.is_private ip) && not (std.nets.is_loopback ip)

  -- The address that the check endpoint names, as text.
  unfoldable pub discover : Replies → Text → Result SyncError Text
  discover replies url = elim (replies.check url) [
    | none ↦ err undiscovered
    | some (status, body) ↦
        if not (is_success status)
        then err (bad_check_status status)
        else elim (read_bounded (pos 128) body) [
          | none ↦ err not_read
          | some text ↦ elim (std.nets.parse_ip (trim_space std.unicode text)) [
            | none ↦ err not_public
            | some ip ↦ if is_public ip then ok (std.nets.ip_string ip) else err not_public
          ]
        ]
  ]

  abbrev pub updated : Text → Text → Text → Option ℕ → Text × Option Text × Result SyncError Bool
  updated last ip url none = (last, some url, err not_updated)
  updated last ip url (some status) =
      if is_success status
      then (ip, some url, ok true)
      else (last, some url, err (bad_update_status status))

  -- sync, from lastIP: lastIP after it, the update asked for, and whether the record changed
  unfoldable pub sync :
      Replies → DynamicDnsConfig → Text → Text × Option Text × Result SyncError Bool
  sync replies c last = elim (discover replies c.check_url) [
    | err e ↦ (last, none, err e)
    | ok ip ↦
        let url = replace_ip (replies.escape ip) 0 c.update_url in
        if text_eq ip last then (last, none, ok false) else updated last ip url (replies.update url)
  ]

  discover-cases :
      (replies : Replies) (url : Text)
      → ((e : SyncError) × (discover replies url ≡ err e))
        ⊎ ((ip : Text) × (discover replies url ≡ ok ip))
  discover-cases replies url = go (discover replies url)
    where
      go :
          (r : Result SyncError Text)
          → ((e : SyncError) × (r ≡ err e)) ⊎ ((ip : Text) × (r ≡ ok ip))
      go (err e) = inl (e, refl)
      go (ok ip) = inr (ip, refl)

  discover-public :
      (replies : Replies) (url ip : Text)
      → discover replies url ≡ ok ip
      → (address : List ℕ) × (is_public address ≡ true) × (ip ≡ std.nets.ip_string address)
  unfolding discover
  discover-public replies url ip h = elim (Option-cases (replies.check url)) [
    | inl lost ↦ absurd (ground arith)
    | inr ((status, body), found) ↦ elim (Option-cases (read_bounded (pos 128) body)) [
      | inl unread ↦ absurd (ground arith)
      | inr (text, read) ↦ elim (Option-cases (std.nets.parse_ip (trim_space std.unicode text))) [
        | inl bad ↦ absurd (ground arith)
        | inr (address, parsed) ↦ (address, ground arith, ground arith)
      ]
    ]
  ]

  -- The worker remembers a new address only if it is public and the update for it was asked for and
  -- answered by a 2xx status; else it keeps the address that it had.
  pub sync_cases :
      (replies : Replies) (c : DynamicDnsConfig) (last : Text)
      → let r = sync replies c last in
        (r.0 ≡ last)
        ⊎ ((address : List ℕ) × (status : ℕ) × (is_public address ≡ true)
            × (r.0 ≡ std.nets.ip_string address)
            × (r.1 ≡ some (replace_ip (replies.escape r.0) 0 c.update_url))
            × (replies.update (replace_ip (replies.escape r.0) 0 c.update_url) ≡ some status)
            × (is_success status ≡ true)
            × (r.2 ≡ ok true))
  unfolding sync
  sync_cases replies c last = elim (discover-cases replies c.check_url) [
    | inl (e, failed) ↦ inl (rw (failed, sync) refl)
    | inr (ip, found) ↦ elim (Bool-cases (text_eq ip last)) [
      | inl same ↦ inl (rw (found, sync) (rw same refl))
      | inr new ↦
          let url = replace_ip (replies.escape ip) 0 c.update_url in
          elim (Option-cases (replies.update url)) [
            | inl lost ↦ inl (rw (found, sync) (rw (new, lost) refl))
            | inr (status, answered) ↦ elim (Bool-cases (is_success status)) [
              | inr bad ↦ inl (rw (found, sync) (rw (new, answered) (rw bad refl)))
              | inl good ↦
                  let (address, public, named) = discover-public replies c.check_url ip found in
                  rw (found, sync)
                    (rw (new, answered)
                      (rw good (inr (address, status, public, named, refl, answered, good, refl))))
            ]
          ]
    ]
  ]

  discover-same :
      (replies later : Replies) (url : Text)
      → later.check url ≡ replies.check url
      → discover later url ≡ discover replies url
  unfolding discover
  discover-same replies later url same = rw (discover, same) refl

  sync-changed :
      (replies : Replies) (c : DynamicDnsConfig) (last : Text)
      → (sync replies c last).2 ≡ ok true
      → discover replies c.check_url ≡ ok (sync replies c last).0
  unfolding sync
  sync-changed replies c last h = elim (discover-cases replies c.check_url) [
    | inl (e, failed) ↦ absurd (ground arith)
    | inr (ip, found) ↦ elim (Bool-cases (text_eq ip last)) [
      | inl same ↦ absurd (ground arith)
      | inr new ↦
          elim (Option-cases (replies.update (replace_ip (replies.escape ip) 0 c.update_url))) [
            | inl lost ↦ absurd (ground arith)
            | inr (status, answered) ↦ elim (Bool-cases (is_success status)) [
              | inr bad ↦ absurd (ground arith)
              | inl good ↦ ground arith
            ]
          ]
    ]
  ]

  settled :
      (later : Replies) (c : DynamicDnsConfig) (ip : Text)
      → discover later c.check_url ≡ ok ip
      → sync later c ip ≡ (ip, none, ok false)
  unfolding sync
  settled later c ip found = rw (found, sync) (rw (text_eq_refl ip) refl)

  -- After a sync that changed the record, one that discovers the same asks for no update and leaves
  -- the worker as it is, whatever the update endpoint would answer.
  sync_settles :
      (replies later : Replies) (c : DynamicDnsConfig) (last : Text)
      → (sync replies c last).2 ≡ ok true
      → later.check c.check_url ≡ replies.check c.check_url
      → sync later c (sync replies c last).0 ≡ ((sync replies c last).0, none, ok false)
  sync_settles replies later c last h same =
      settled later c (sync replies c last).0
        (discover-same replies later c.check_url same ∙ sync-changed replies c last h)
