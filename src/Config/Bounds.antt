-- ===== src/Config/Bounds.antt =====
-- What holds of every configuration that `internal/config/runtime.go` loads.
use cotests.Prelude.{
  ℕ, ◌*◌, ◌^◌, ◌≤◌, ◌<◌, ◌≡◌, refl, sym, subst, ◌⊎◌, inl, inr, String, Bool, true, false, not, ◌||◌,
  Option, none, some, ltb, str_eq, is_empty, is_empty_sound, trim_space, arith, eq_iff, Bool-cases,
}
use cotests.Prelude.Int.{ℤ, pos, negsuc}
use cotests.Outcome.{Result, ok, err, >>=-eq-ok, guard->>-eq-ok, ok-injective}
use cotests.Server.Security.{Url}
use cotests.Config.{
  Runtime, positive, named, positive_int64, positive_int, origin_only, parse_public_url, is_https,
  load,
}

-- An origin, or none: no path, no user, no query and no fragment.
abbrev pub IsOrigin : Option Url → Type 0
IsOrigin none = Unit
IsOrigin (some u) =
    ((u.scheme ≡ "http") ⊎ (u.scheme ≡ "https"))
    × (is_empty u.host ≡ false)
    × (u.has_user ≡ false)
    × (u.path ≡ "")
    × (u.raw_query ≡ "")
    × (u.fragment ≡ "")

positive-pos : (o : Option ℤ) (n : ℕ) → positive o ≡ ok n → 0 < n
positive-pos none n h = cc
positive-pos (some (negsuc k)) n h = cc
positive-pos (some (pos k)) n h = ground arith

named-eq-ok : (name : String) (r : Result ℕ) (n : ℕ) → named name r ≡ ok n → r ≡ ok n
named-eq-ok name (ok k) n h = h
named-eq-ok name (err e) n h = ground arith

module _ (parse_int : String → Option ℤ) (max_int : ℕ) where
  positive_int64-pos :
      (raw : String) (fallback n : ℕ)
      → 0 < fallback
      → positive_int64 parse_int max_int raw fallback ≡ ok n
      → 0 < n
  unfolding positive_int64
  positive_int64-pos raw fallback n p h = elim (Bool-cases (is_empty (trim_space raw))) [
    | inl e ↦ let k = (rw (positive_int64, e) at h) in ground arith
    | inr e ↦ positive-pos (parse_int (trim_space raw)) n (rw (positive_int64, e) at h)
  ]

  positive_int-pos :
      (raw : String) (fallback n : ℕ)
      → 0 < fallback
      → positive_int parse_int max_int raw fallback ≡ ok n
      → 0 < n
  unfolding positive_int
  positive_int-pos raw fallback n p h =
      let (k, first, rest) = >>=-eq-ok (positive_int64 parse_int max_int raw fallback) _ h in
      let below = positive_int64-pos raw fallback k p first in ground arith

origin_only_parts :
    (parse_url : String → Option Url) (u : Url) (v : Option Url)
    → origin_only parse_url (some u) ≡ ok v
    → (v ≡ some (record u { path = "" }))
      × ((str_eq u.scheme "http" ≡ true) ⊎ (str_eq u.scheme "https" ≡ true))
      × (is_empty u.host ≡ false)
      × (u.has_user ≡ false)
      × (is_empty u.raw_query ≡ true)
      × (is_empty u.fragment ≡ true)
unfolding origin_only
origin_only_parts parse_url u v h = ground arith

origin_only-IsOrigin :
    (parse_url : String → Option Url) (o v : Option Url)
    → origin_only parse_url o ≡ ok v
    → IsOrigin v
unfolding origin_only
origin_only-IsOrigin parse_url none v h = cc
origin_only-IsOrigin parse_url (some u) v h =
    let (e, scheme, host, user, query, fragment) = origin_only_parts parse_url u v h in
    let schemes : (u.scheme ≡ "http") ⊎ (u.scheme ≡ "https") = elim scheme [
      | inl t ↦ inl ((eq_iff u.scheme "http").0 t)
      | inr t ↦ inr ((eq_iff u.scheme "https").0 t)
    ] in
    subst IsOrigin (sym e) (
      schemes,
      host,
      user,
      refl,
      is_empty_sound u.raw_query query,
      is_empty_sound u.fragment fragment,
    )

parse_public_url-IsOrigin :
    (parse_url : String → Option Url) (raw : String) (v : Option Url)
    → parse_public_url parse_url raw ≡ ok v
    → IsOrigin v
unfolding parse_public_url
parse_public_url-IsOrigin parse_url raw v h = elim (Bool-cases (is_empty (trim_space raw))) [
  | inl e ↦ subst IsOrigin (ok-injective (rw (parse_public_url, e) at h)) tt
  | inr e ↦
      origin_only-IsOrigin parse_url (parse_url (trim_space raw)) v (rw (parse_public_url, e) at h)
]

-- The limits are positive and within what the uploads are built for, and the public address is a
-- bare origin whose scheme decides on secure cookies.
pub record Bounded (r : Runtime) : Type 0 where
  pub artifact_bytes : (0 < r.max_artifact_bytes) × (r.max_artifact_bytes ≤ 512 * 2 ^ 20)
  pub import_bytes : (0 < r.max_import_bytes) × (r.max_import_bytes ≤ 512 * 2 ^ 20)
  pub import_files : (0 < r.max_import_files) × (r.max_import_files ≤ 10000)
  pub storage_bytes : 0 < r.max_storage_bytes
  pub origin : IsOrigin r.public_url
  pub secure : (is_https r.public_url ≡ false) ⊎ (r.secure_cookies ≡ true)

module _ (clean : String → String) (join : String → String → String) (parse_int : String → Option ℤ)
    (max_int : ℕ) (parse_url : String → Option Url) (equal_fold : String → String → Bool) where
  -- Whatever the environment says, a configuration that loads has limits of an artifact and of an
  -- import that are positive and at most 512 MiB, a limit of the files of an import that is positive
  -- and at most 10000, a limit of the storage that is positive, a public address that is a bare http
  -- or https origin or none, and secure cookies if that origin is https.
  pub load-Bounded :
      (lookup : String → String) (r : Runtime)
      → load clean join parse_int max_int parse_url equal_fold lookup ≡ ok r
      → Bounded r
  unfolding load
  load-Bounded lookup r h =
      let (a, h_a, r₁) =
        >>=-eq-ok
          (named "MAX_ARTIFACT_BYTES"
            (positive_int64 parse_int max_int (lookup "MAX_ARTIFACT_BYTES") (10 * 2 ^ 20)))
          _ h in
      let (i, h_i, r₂) =
        >>=-eq-ok
          (named "MAX_IMPORT_BYTES"
            (positive_int64 parse_int max_int (lookup "MAX_IMPORT_BYTES") (50 * 2 ^ 20)))
          _ r₁ in
      let (f, h_f, r₃) =
        >>=-eq-ok
          (named "MAX_IMPORT_FILES"
            (positive_int parse_int max_int (lookup "MAX_IMPORT_FILES") 100))
          _ r₂ in
      let (t, h_t, r₄) =
        >>=-eq-ok
          (named "MAX_STORAGE_BYTES"
            (positive_int64 parse_int max_int (lookup "MAX_STORAGE_BYTES") (2 ^ 30)))
          _ r₃ in
      let (fits, r₅) =
        guard->>-eq-ok (not (ltb (512 * 2 ^ 20) a || ltb (512 * 2 ^ 20) i || ltb 10000 f)) _ _ r₄ in
      let (u, h_u, r₆) = >>=-eq-ok (parse_public_url parse_url (lookup "PUBLIC_URL")) _ r₅ in
      let a_pos =
        positive_int64-pos parse_int max_int (lookup "MAX_ARTIFACT_BYTES") (10 * 2 ^ 20) a
          (omega arith) (named-eq-ok _ _ a h_a) in
      let i_pos =
        positive_int64-pos parse_int max_int (lookup "MAX_IMPORT_BYTES") (50 * 2 ^ 20) i
          (omega arith) (named-eq-ok _ _ i h_i) in
      let f_pos =
        positive_int-pos parse_int max_int (lookup "MAX_IMPORT_FILES") 100 f (omega arith)
          (named-eq-ok _ _ f h_f) in
      let t_pos =
        positive_int64-pos parse_int max_int (lookup "MAX_STORAGE_BYTES") (2 ^ 30) t (omega arith)
          (named-eq-ok _ _ t h_t) in
      subst Bounded (ok-injective r₆) (record {
        artifact_bytes = (a_pos, ground arith);
        import_bytes = (i_pos, ground arith);
        import_files = (f_pos, ground arith);
        storage_bytes = t_pos;
        origin = parse_public_url-IsOrigin parse_url (lookup "PUBLIC_URL") u h_u;
        secure = elim (Bool-cases (is_https u)) [
          | inl https ↦ inr (rw https)
          | inr plain ↦ inl plain
        ];
      })
