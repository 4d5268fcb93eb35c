-- ===== src/Server/RateLimit/Budget.antt =====
-- What the limiter of `internal/server/handlers.go` lets through.
use cotests.Prelude.{
  ℕ, ◌+◌, ◌≤◌, ◌<◌, ◌≡◌, sym, ap, ◌∙◌, subst, inl, inr, String, Bool, true, false, not, ◌&&◌, ◌||◌,
  Option, some, List, [], ◌∷◌, ltb, if◌then◌else◌, length, All, arith, Bool-cases, str_eq, eq_iff,
}
use cotests.Prelude.Assoc.{lookup, UniqueKeys, keep-UniqueKeys}
use cotests.Server.RateLimit.{
  AuthAttempt, Attempts, limit, expired, bucket, sweep, exhausted, charge, charge_all, ip_key,
  email_key, allow_auth_attempt,
}
use cotests.Server.RateLimit.Buckets.{
  tally, OpenedFrom, tally_within, Call, Within, bucket_open, sweep-lookup, charge-lookup_same,
  charge-lookup_other, charge-UniqueKeys, prefixes_differ,
}

module _ (split_host : String → Option String) (to_lower : String → String) where
  unfoldable allow : Call → Attempts → Bool × Attempts
  allow c l = allow_auth_attempt split_host to_lower c.remote_addr c.email c.at l

  abbrev pub ip : Call → String
  ip c = ip_key split_host to_lower c.remote_addr

  abbrev pub mail : Call → String
  mail c = email_key split_host to_lower c.email

  keys_differ : (c : Call) → str_eq (mail c) (ip c) ≡ false
  unfolding ip_key email_key
  keys_differ c = elim (Bool-cases (str_eq (mail c) (ip c))) [
    | inl e ↦ absurd (prefixes_differ _ _ ((eq_iff (mail c) (ip c)).0 e))
    | inr e ↦ e
  ]

  unfoldable pub charges : String → Call → Bool
  charges key c = str_eq key (ip c) || str_eq key (mail c)

  -- The three ways through the limiter.
  data Outcome (c : Call) (l : Attempts) : Type 0 where
    crowded : allow c l ≡ (false, sweep c.at l) → Outcome c l
    spent : allow c l ≡ (false, sweep c.at l) → Outcome c l
    passed :
        exhausted c.at (sweep c.at l) (ip c) ≡ false
        → exhausted c.at (sweep c.at l) (mail c) ≡ false
        → allow c l ≡ (true, charge c.at (mail c) (charge c.at (ip c) (sweep c.at l)))
        → Outcome c l

  outcome : (c : Call) (l : Attempts) → Outcome c l
  unfolding allow_auth_attempt charge_all allow
  outcome c l = elim (Bool-cases (ltb 10000 (length (sweep c.at l)))) [
    | inl many ↦ crowded (rw many)
    | inr few ↦ elim (Bool-cases (exhausted c.at (sweep c.at l) (ip c))) [
      | inl e ↦ spent (rw (few, e))
      | inr i ↦ elim (Bool-cases (exhausted c.at (sweep c.at l) (mail c))) [
        | inl e ↦ spent (rw (few, i, e))
        | inr m ↦ passed i m (rw (few, i, m))
      ]
    ]
  ]

  -- What a call within the window does to a bucket that was opened in it.
  record Kept (from : ℕ) (key : String) (c : Call) (l : Attempts) : Type 0 where
    unique : UniqueKeys (allow c l).1
    opened : OpenedFrom from (lookup key (allow c l).1)
    counted :
        tally (lookup key (allow c l).1)
        ≡ tally (lookup key l) + (if (allow c l).0 && charges key c then 1 else 0)

  module _ (from : ℕ) (positive : 0 < from) (key : String) (c : Call) (l : Attempts)
      (timely : Within from c) (unique : UniqueKeys l)
      (opened : OpenedFrom from (lookup key l)) where
    swept : lookup key (sweep c.at l) ≡ lookup key l
    swept = sweep-lookup from positive c.at key l timely.1 unique opened

    swept-UniqueKeys : UniqueKeys (sweep c.at l)
    unfolding sweep
    swept-UniqueKeys = keep-UniqueKeys (λ entry. not (expired c.at entry.1)) l unique

    refused-Kept : allow c l ≡ (false, sweep c.at l) → Kept from key c l
    refused-Kept h = record {
      unique = rw h swept-UniqueKeys;
      opened = rw h (rw swept opened);
      counted = rw h (rw swept (omega arith));
    }

    abbrev live : Attempts
    live = sweep c.at l

    abbrev opened_bucket : AuthAttempt
    opened_bucket = bucket c.at (lookup key live)

    -- The bucket of a key that is charged once.
    charged-Kept :
        (l' : Attempts)
        → allow c l ≡ (true, l')
        → UniqueKeys l'
        → charges key c ≡ true
        → exhausted c.at live key ≡ false
        → lookup key l'
          ≡ some (record { count = opened_bucket.count + 1; start = opened_bucket.start })
        → Kept from key c l
    unfolding exhausted
    charged-Kept l' h u charged below found =
        let b =
          bucket_open from positive c.at (lookup key live) timely.0 timely.1 (rw swept opened) in
        let same : tally (lookup key live) ≡ tally (lookup key l) = ap tally swept in
        record {
          unique = rw h u;
          opened = rw h (rw found (ground arith));
          counted = rw h (rw (found, charged) (ground arith));
        }

    untouched-Kept :
        (l' : Attempts)
        → allow c l ≡ (true, l')
        → UniqueKeys l'
        → charges key c ≡ false
        → lookup key l' ≡ lookup key live
        → Kept from key c l
    untouched-Kept l' h u free found = record {
      unique = rw h u;
      opened = rw h (rw (found, swept) opened);
      counted = rw h (rw (found, free, swept) (omega arith));
    }

    passed-Kept :
        exhausted c.at live (ip c) ≡ false
        → exhausted c.at live (mail c) ≡ false
        → allow c l ≡ (true, charge c.at (mail c) (charge c.at (ip c) live))
        → Kept from key c l
    unfolding charges
    passed-Kept i m h =
        let l₁ = charge c.at (ip c) live in
        let l₂ = charge c.at (mail c) l₁ in
        let u =
          charge-UniqueKeys c.at (mail c) l₁
            (charge-UniqueKeys c.at (ip c) live swept-UniqueKeys) in
        elim (Bool-cases (str_eq key (mail c))) [
          | inl is_mail ↦
              let e = (eq_iff key (mail c)).0 is_mail in
              let before : lookup key l₁ ≡ lookup key live =
                charge-lookup_other c.at key (ip c) live (rw e (keys_differ c)) in
              charged-Kept l₂ h u (ground arith) (rw e m) (
                subst
                  (λ k.
                    lookup k l₂
                    ≡ some (record {
                      count = (bucket c.at (lookup k l₁)).count + 1;
                      start = (bucket c.at (lookup k l₁)).start;
                    }))
                  (sym e) (charge-lookup_same c.at (mail c) l₁)
                ∙ ap
                    (λ o.
                      some (record {
                        count = (bucket c.at o).count + 1;
                        start = (bucket c.at o).start;
                      }))
                    before)
          | inr not_mail ↦
              let after : lookup key l₂ ≡ lookup key l₁ =
                charge-lookup_other c.at key (mail c) l₁ not_mail in
              elim (Bool-cases (str_eq key (ip c))) [
                | inl is_ip ↦
                    let e = (eq_iff key (ip c)).0 is_ip in
                    charged-Kept l₂ h u (ground arith) (rw e i) (
                      after
                      ∙ subst
                          (λ k.
                            lookup key (charge c.at k live)
                            ≡ some (record {
                              count = opened_bucket.count + 1;
                              start = opened_bucket.start;
                            }))
                          e (charge-lookup_same c.at key live))
                | inr not_ip ↦
                    untouched-Kept l₂ h u (ground arith)
                      (after ∙ charge-lookup_other c.at key (ip c) live not_ip)
              ]
        ]

    allow-Kept : Kept from key c l
    allow-Kept = elim (outcome c l) [
      | crowded h ↦ refused-Kept h
      | spent h ↦ refused-Kept h
      | passed i m h ↦ passed-Kept i m h
    ]

  -- How many of the calls, made one after the other, pass and are charged to the key.
  unfoldable pub allowed : String → List Call → Attempts → ℕ
  unfolding allow charges
  allowed key [] l = 0
  allowed key (c ∷ calls) l =
      let later = allowed key calls (allow c l).1 in
      (if (allow c l).0 && charges key c then 1 else 0) + later

  -- Of the attempts on one address, or on one email, that are made within a minute, in any order and
  -- among any other attempts, at most ten pass, less those on record in a bucket that was opened
  -- in that minute. The keys of the buckets are distinct, as in a map, and the bucket of the key, if
  -- there is one, was opened in that minute and is within the limit.
  pub allowed-≤ :
      (from : ℕ) (key : String) (calls : List Call) (l : Attempts)
      → 0 < from
      → All (Within from) calls
      → UniqueKeys l
      → OpenedFrom from (lookup key l)
      → allowed key calls l + tally (lookup key l) ≤ limit
  unfolding allowed
  allowed-≤ from key [] l positive timely u o =
      let w = tally_within from (lookup key l) o in omega (arith, w)
  allowed-≤ from key (c ∷ calls) l positive timely u o =
      let k = allow-Kept from positive key c l timely.0 u o in
      let rest = allowed-≤ from key calls (allow c l).1 positive timely.1 k.unique k.opened in
      let counted = k.counted in omega (arith, rest, counted)
