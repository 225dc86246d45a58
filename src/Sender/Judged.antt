-- ===== src/Sender/Judged.antt =====
-- internal/exporter/sender.go: how a reply is accounted for.
use observe_agent.Base.{
  ℕ, ◌+◌, String, ◌≡◌, refl, ap, ◌≢◌, ◌⊎◌, inl, inr, Bool, true, false, not, ◌&&◌, ◌||◌, List, [],
  arith, ltb, leb, ◌==◌, if◌then◌else◌, Option-cases, length, take, lookup, Bytes,
}
use observe_agent.Policy.{Capability}
use observe_agent.Sender.{unauthorized, Outcome, accepted, rejected, Counters}
use observe_agent.Sender.Reply.{
  read_body, Json, Response, Reply, broken, response, Verdict, final, retry, judge, judge_body,
  judge_envelope, judge_fields, judge_partial, judge_count, judge_rejected, is_success,
  is_transient, failure, merged,
}

-- The reply may be followed by another attempt.
abbrev pub is_retryable : Reply → Bool
is_retryable (broken permanent) = not permanent
is_retryable (response r) = is_transient r.status

abbrev pub is_answered : Reply → Bool
is_answered (broken permanent) = false
is_answered (response r) = is_success r.status

-- An accepted batch is counted once and as no failure; a rejected one is one failure.
abbrev pub Judged : Counters → Outcome → Counters → Type 0
Judged s o s' =
    ((o ≡ accepted)
        × (s'.batches_accepted ≡ s.batches_accepted + 1)
        × (s'.export_failures ≡ s.export_failures)
      ⊎ (o ≡ rejected)
        × (s'.batches_accepted ≡ s.batches_accepted)
        × (s'.export_failures ≡ s.export_failures + 1))
    × (s'.requests ≡ s.requests)
    × (s'.retries ≡ s.retries)

judge_rejected-Judged :
    (signal : Capability) (n : ℕ) (s : Counters)
    → Judged s (judge_rejected signal n s).0 (judge_rejected signal n s).1
unfolding judge_rejected
judge_rejected-Judged signal n s = ground arith

module _ (j : Json) (signal : Capability) where
  judge_count-Judged :
      (t : String) (s : Counters)
      → Judged s (judge_count j signal t s).0 (judge_count j signal t s).1
  unfolding judge_count
  judge_count-Judged t s = elim (Option-cases (j.parse_uint t)) [
    | inl e ↦ ground arith
    | inr (n, e) ↦ ground (arith, judge_rejected-Judged signal n s)
  ]

  judge_partial-Judged :
      (p : Bytes) (s : Counters)
      → Judged s (judge_partial j signal p s).0 (judge_partial j signal p s).1
  unfolding judge_partial
  judge_partial-Judged p s = elim (Option-cases (j.partial p)) [
    | inl e ↦ ground arith
    | inr ((points, records), e) ↦
        ground (arith, judge_count-Judged points s, judge_count-Judged records s)
  ]

  judge_fields-Judged :
      (b : List (String × Bytes)) (s : Counters)
      → Judged s (judge_fields j signal b s).0 (judge_fields j signal b s).1
  unfolding judge_fields
  judge_fields-Judged b s = elim (Option-cases (lookup "partialSuccess" b)) [
    | inl e ↦ ground arith
    | inr (p, e) ↦ ground (arith, judge_partial-Judged p s)
  ]

  judge_envelope-Judged :
      (b : List (String × Bytes)) (s : Counters)
      → Judged s (judge_envelope j signal b s).0 (judge_envelope j signal b s).1
  unfolding judge_envelope
  judge_envelope-Judged b s = elim (Option-cases (lookup "data" b)) [
    | inl e ↦ ground (arith, judge_fields-Judged b s)
    | inr (w, e) ↦ elim (Option-cases (j.object w)) [
      | inl f ↦ ground arith
      | inr (g, f) ↦ ground (arith, judge_fields-Judged (merged b g) s)
    ]
  ]

  judge_body-Judged :
      (raw : Bytes) (s : Counters)
      → Judged s (judge_body j signal raw s).0 (judge_body j signal raw s).1
  unfolding judge_body
  judge_body-Judged raw s = elim (Option-cases (j.object raw)) [
    | inl f ↦ ground arith
    | inr (g, f) ↦ ground (arith, judge_envelope-Judged (merged [] g) s)
  ]

  read_body-Judged :
      (r : Response) (s : Counters) → Judged s (read_body j signal r s).0 (read_body j signal r s).1
  unfolding read_body
  read_body-Judged r s =
      unread (r.read_error || ltb 65536 (length (take 65537 r.body)))
        (judge_body j signal (take 65537 r.body) s) (judge_body-Judged (take 65537 r.body) s)
    where
      unread :
          (b : Bool) (x : Outcome × Counters)
          → Judged s x.0 x.1
          → let y : Outcome × Counters = if b then (rejected, failure s) else x in Judged s y.0 y.1
      unread true x h = (inr (refl, refl, refl), refl, refl)
      unread false x h = h

  -- How a response is accounted for.
  pub judge_lem :
      (r : Response) (s : Counters)
      → ((judge j signal r s).1.requests ≡ s.requests)
        × ((judge j signal r s).1.retries ≡ s.retries)
        × (((judge j signal r s).0 ≡ final accepted)
              × (is_success r.status ≡ true)
              × ((judge j signal r s).1.batches_accepted ≡ s.batches_accepted + 1)
              × ((judge j signal r s).1.export_failures ≡ s.export_failures)
            ⊎ ((judge j signal r s).0 ≢ final accepted)
              × ((judge j signal r s).1.batches_accepted ≡ s.batches_accepted)
              × ((judge j signal r s).1.export_failures ≡ s.export_failures + 1))
        × ((judge j signal r s).0 ≡ retry → is_transient r.status ≡ true)
  unfolding judge
  judge_lem r s =
      split (r.status == 401 || r.status == 403) (is_success r.status) (r.status == 429)
        (leb 500 r.status && not (r.status == 501) && not (r.status == 505))
        (read_body j signal r s).0 (read_body j signal r s).1 (read_body-Judged r s)
    where
      split :
          (denied success many transient : Bool) (o : Outcome) (s' : Counters)
          → Judged s o s'
          → let x : Verdict × Counters =
              if denied
              then (final unauthorized, record (failure s) { auth_failures = s.auth_failures + 1 })
              else if success
              then (final o, s')
              else if many
              then (retry, record (failure s) { throttles = s.throttles + 1 })
              else if many || transient
              then (retry, failure s)
              else (final rejected, failure s) in
            (x.1.requests ≡ s.requests)
            × (x.1.retries ≡ s.retries)
            × (((x.0 ≡ final accepted)
                  × (success ≡ true)
                  × (x.1.batches_accepted ≡ s.batches_accepted + 1)
                  × (x.1.export_failures ≡ s.export_failures))
                ⊎ ((x.0 ≢ final accepted)
                    × (x.1.batches_accepted ≡ s.batches_accepted)
                    × (x.1.export_failures ≡ s.export_failures + 1)))
            × (x.0 ≡ retry → (many || transient) ≡ true)
      split true success many transient o s' h = (refl, refl, inr (λ e. cc, refl, refl), λ e. cc)
      split false true many transient o s' (inl (a, b, c), d, e) =
          (d, e, inl (ap final a, refl, b, c), λ f. cc)
      split false true many transient o s' (inr (a, b, c), d, e) =
          (d, e, inr (λ f. cc (a, f), b, c), λ f. cc)
      split false false true transient o s' h = (refl, refl, inr (λ e. cc, refl, refl), λ e. refl)
      split false false false true o s' h = (refl, refl, inr (λ e. cc, refl, refl), λ e. refl)
      split false false false false o s' h = (refl, refl, inr (λ e. cc, refl, refl), λ e. cc)
