-- ===== src/Outbox/Tests.antt =====
-- The theorems on the outbox relay at concrete inputs.
use voice_verse_ai.Common.{◌≡◌, refl, ◌≢◌, ◌≤◌, false, none, [], ◌∷◌, All, err, arith}
use voice_verse_ai.Outbox.{Event, pending, delay_seconds, lease_batch, relay_events}
use voice_verse_ai.Outbox.Retry.{delay_seconds_lem}
use voice_verse_ai.Outbox.Exclusive.{IsHeldIn, Spares, lease_batch-exclusive, relay_events-Spares}

abbrev event : Event
event = record {
  id = "event";
  status = pending;
  available_at = 5;
  occurred_at = 5;
  attempt_count = 0;
  lease_id = none;
  leased_until = none;
  published_at = none;
  last_error = none;
}

delays : (delay_seconds 1 ≡ 10) × (delay_seconds 9 ≡ 300)
unfolding delay_seconds
delays = (refl, refl)

delay_seconds_lem_example :
    (delay_seconds 1 ≤ delay_seconds 9) × (10 ≤ delay_seconds 1) × (delay_seconds 9 ≤ 300)
delay_seconds_lem_example = delay_seconds_lem 1 9 (omega arith) (omega arith)

-- One relay leases the event, and another one asks nine seconds later.
lease_batch-exclusive_example :
    All
      (λ (e : Event).
        IsHeldIn "lease" e
          (lease_batch 25 9000 30 "other"
            (λ id. false)
            (lease_batch 25 10 30 "lease" (λ id. false) (event ∷ [])).0).0
        × All
            (λ (f : Event). f.id ≢ e.id)
            (lease_batch 25 9000 30 "other"
              (λ id. false)
              (lease_batch 25 10 30 "lease" (λ id. false) (event ∷ [])).0).1)
      (lease_batch 25 10 30 "lease" (λ id. false) (event ∷ [])).1
lease_batch-exclusive_example =
    lease_batch-exclusive 25 10 30 25 9000 30 "lease" "other" (λ id. false) (λ id. false)
      (event ∷ []) (omega arith)

relay_events-Spares_example :
    Spares "lease"
      (event ∷ [])
      (relay_events 20 "lease" (λ e. err "Timeout") (event ∷ []) (event ∷ []))
relay_events-Spares_example =
    relay_events-Spares 20 "lease" (λ e. err "Timeout") (event ∷ []) (event ∷ [])
