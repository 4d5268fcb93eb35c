-- ===== src/Server/RateLimit/Passing.antt =====
-- Which attempts the limiter of `internal/server/handlers.go` lets through.
use Prim.Native.String.{◌++◌}
use cotests.Prelude.{
  ℕ, ◌+◌, ◌*◌, ◌^◌, ◌≤◌, ◌<◌, ◌≡◌, ◌↔◌, ◌⊎◌, refl, sym, subst, String, Bool, true, false, not,
  Option, none, some, [], ◌∷◌, ltb, leb, length, count_where, arith, trim_space,
}
use cotests.Prelude.Assoc.{lookup, UniqueKeys, only_if, lookup-keep_values}
use cotests.Server.RateLimit.{
  AuthAttempt, Attempts, limit, expired, bucket, sweep, exhausted, host_of, ip_key, email_key,
  allow_auth_attempt,
}

-- The bucket was opened less than a minute ago.
abbrev pub young : ℕ → String × AuthAttempt → Bool
young now entry = ltb now (entry.1.start + 60 * 10 ^ 9)

-- There is room for an attempt: the bucket is missing, was never opened or was opened a minute ago,
-- or has fewer than ten attempts.
abbrev pub HasRoom : ℕ → Option AuthAttempt → Type 0
HasRoom now none = Unit
HasRoom now (some attempt) =
    (attempt.start ≡ 0) ⊎ ((attempt.start + 60 * 10 ^ 9 ≤ now) ⊎ (attempt.count < 10))

length-sweep : (now : ℕ) (l : Attempts) → length (sweep now l) ≡ count_where (young now) l
unfolding sweep
length-sweep now [] = refl
length-sweep now (entry ∷ l) = ground (arith, length-sweep now l)

room_iff :
    (now : ℕ) (o : Option AuthAttempt)
    → (leb limit (bucket now (only_if (λ a. not (expired now a)) o)).count ≡ false) ↔ HasRoom now o
unfolding bucket
room_iff now none = (λ h. tt, λ h. refl)
room_iff now (some a) = (λ h. ground arith, λ h. ground arith)

exhausted_iff :
    (now : ℕ) (key : String) (l : Attempts)
    → UniqueKeys l
    → (exhausted now (sweep now l) key ≡ false) ↔ HasRoom now (lookup key l)
unfolding exhausted sweep
exhausted_iff now key l u =
    let e = lookup-keep_values (λ a. not (expired now a)) key l u in
    let (there, back) = room_iff now (lookup key l) in
    (
      λ h. there (subst (λ o. leb limit (bucket now o).count ≡ false) e h),
      λ h. subst (λ o. leb limit (bucket now o).count ≡ false) (sym e) (back h),
    )

module _ (split_host : String → Option String) (to_lower : String → String) where
  -- The keys of the buckets being distinct, as in a map: an attempt passes exactly when no more than
  -- 10000 buckets on record were opened less than a minute ago, and both the bucket of its address
  -- without the port and that of its email, trimmed and in lower case, have room: there is no such
  -- bucket, it was opened a minute ago or longer or never, or it has fewer than ten attempts.
  pub allow_auth_attempt_iff :
      (remote_addr email : String) (now : ℕ) (l : Attempts)
      → UniqueKeys l
      → ((allow_auth_attempt split_host to_lower remote_addr email now l).0 ≡ true) ↔ (
          (count_where (young now) l ≤ 10000)
          × HasRoom now (lookup ("ip:" ++ host_of split_host to_lower remote_addr) l)
          × HasRoom now (lookup ("email:" ++ to_lower (trim_space email)) l))
  unfolding allow_auth_attempt ip_key email_key
  allow_auth_attempt_iff remote_addr email now l u =
      let ip = "ip:" ++ host_of split_host to_lower remote_addr in
      let mail = "email:" ++ to_lower (trim_space email) in
      let few = length-sweep now l in
      let (ip_there, ip_back) = exhausted_iff now ip l u in
      let (mail_there, mail_back) = exhausted_iff now mail l u in
      (
        λ h. (ground arith, ip_there (ground arith), mail_there (ground arith)),
        λ (a, b, c). let i = ip_back b in let m = mail_back c in ground arith,
      )
