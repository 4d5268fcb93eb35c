-- ===== src/Server/RateLimit/Buckets.antt =====
-- The buckets of the limiter in `internal/server/handlers.go` under a charge and under the sweep.
use cotests.Prelude.{
  ℕ, ◌+◌, ◌≤◌, ◌<◌, ◌≡◌, ◌≢◌, refl, sym, ap, ◌∙◌, String, false, not, Option, none, some, arith,
  str_eq,
}
use cotests.Prelude.Assoc.{
  lookup, UniqueKeys, only_if, lookup-put_same, lookup-put_other, put-UniqueKeys,
  lookup-keep_values,
}
use Prim.Native.String.{◌++◌}
use Prim.Native.String.append.{cons}
use Prim.Native.Char.{code}
use cotests.Server.RateLimit.{AuthAttempt, Attempts, limit, window, expired, bucket, sweep, charge}

-- The attempts on record in a bucket.
abbrev pub tally : Option AuthAttempt → ℕ
tally none = 0
tally (some attempt) = attempt.count

-- The bucket, if there is one, was opened at `from` or later, and is within the limit.
abbrev pub OpenedFrom : ℕ → Option AuthAttempt → Type 0
OpenedFrom from none = Unit
OpenedFrom from (some attempt) = (from ≤ attempt.start) × (attempt.count ≤ limit)

pub tally_within : (from : ℕ) (o : Option AuthAttempt) → OpenedFrom from o → tally o ≤ limit
tally_within from none h = omega arith
tally_within from (some attempt) h = h.1

pub record Call : Type 0 where
  pub remote_addr : String
  pub email : String
  pub at : ℕ

abbrev pub Within : ℕ → Call → Type 0
Within from call = (from ≤ call.at) × (call.at < from + window)

module _ (from : ℕ) (positive : 0 < from) where
  pub bucket_open :
      (now : ℕ) (o : Option AuthAttempt)
      → from ≤ now
      → now < from + window
      → OpenedFrom from o
      → (from ≤ (bucket now o).start) × ((bucket now o).count ≡ tally o)
  unfolding bucket
  bucket_open now none a b h = (a, refl)
  bucket_open now (some attempt) a b h = ground arith

  pub sweep-lookup :
      (now : ℕ) (key : String) (l : Attempts)
      → now < from + window
      → UniqueKeys l
      → OpenedFrom from (lookup key l)
      → lookup key (sweep now l) ≡ lookup key l
  unfolding sweep
  sweep-lookup now key l b u h =
      lookup-keep_values (λ attempt. not (expired now attempt)) key l u ∙ kept (lookup key l) h
    where
      kept : (o : Option AuthAttempt) → OpenedFrom from o → only_if (λ a. not (expired now a)) o ≡ o
      kept none h = refl
      kept (some attempt) h = ground arith

pub charge-lookup_same :
    (now : ℕ) (key : String) (l : Attempts)
    → lookup key (charge now key l)
      ≡ some (record {
        count = (bucket now (lookup key l)).count + 1;
        start = (bucket now (lookup key l)).start;
      })
unfolding charge
charge-lookup_same now key l = lookup-put_same key _ l

pub charge-lookup_other :
    (now : ℕ) (key k : String) (l : Attempts)
    → str_eq key k ≡ false
    → lookup key (charge now k l) ≡ lookup key l
unfolding charge
charge-lookup_other now key k l h = lookup-put_other key k _ l h

pub charge-UniqueKeys :
    (now : ℕ) (key : String) (l : Attempts) → UniqueKeys l → UniqueKeys (charge now key l)
unfolding charge
charge-UniqueKeys now key l u =
    put-UniqueKeys key
      (record (bucket now (lookup key l)) { count = (bucket now (lookup key l)).count + 1 }) l u

pub initial : String → ℕ
initial String.[] = 0
initial (String.◌∷◌ c s) = code c

pub prefixes_differ : (a b : String) → "email:" ++ a ≢ "ip:" ++ b
unfolding initial
prefixes_differ a b h =
    let e : ◌≡◌ {A = ℕ} 101 105 = ap initial (sym (cons "e" "mail:" a) ∙ h ∙ cons "i" "p:" b) in
    absurd (omega arith)
