-- ===== src/Server/Security/Tokens.antt =====
-- What passes `RequestProtection` of `internal/server/security.go`, and that the tokens the site
-- hands out do.
use cotests.Prelude.{
  ℕ, ◌≡◌, ◌≢◌, refl, sym, ap, ◌∙◌, ◌⊎◌, inl, inr, String, Bool, true, false, not, ◌&&◌, ◌||◌,
  Option, none, some, ◌==◌, if◌then◌else◌, str_eq, is_empty, is_empty_sound, trim_space, arith,
  Bool-cases, Option-cases, eq_iff, eq_refl,
}
use Prim.Native.String.{◌++◌, len}
use text.Mathlib.Text.{starts_with}
use Prim.Native.String.append.{nil, cons}
use cotests.Server.Security.{
  Url, Request, Config, Verdict, served, cut_dot, is_safe_method, want_host, want_scheme,
  same_origin, or_empty, sign_csrf, valid_signed_csrf, submitted, valid_request_csrf, signed_cookie,
  body_limit, refusal, request_protection,
}

-- A nonce without a dot is what stands before the first dot of its token.
cut_dot_append : (n x : String) → cut_dot n ≡ none → cut_dot (n ++ ("." ++ x)) ≡ some n
unfolding cut_dot
cut_dot_append String.[] x h =
    let e : ("" ++ ("." ++ x)) ≡ String.◌∷◌ "." ("" ++ x) = nil ("." ++ x) ∙ cons "." "" x in rw e
cut_dot_append (String.◌∷◌ c n) x h = elim (Bool-cases (str_eq (String.◌∷◌ c "") ".")) [
  | inl dot ↦ cc
  | inr other ↦
      let e : ((String.◌∷◌ c n) ++ ("." ++ x)) ≡ String.◌∷◌ c (n ++ ("." ++ x)) =
        cons c n ("." ++ x) in
      elim (Option-cases (cut_dot n)) [
        | inl undotted ↦ rw (e, other, cut_dot_append n x undotted)
        | inr found ↦
            let absent : some (String.◌∷◌ c found.0) ≡ none = (rw (other, found.1) at h) in cc
      ]
]

-- How the guards of the middleware come out when it serves the request.
checks_passed :
    (safe origin signed repeated : Bool) (refused : Verdict) (limit cap : Option ℕ)
    → ((c : Option ℕ) → refused ≢ served c)
    → (if safe
        then served none
        else if not origin || not signed || not repeated
        then refused
        else served limit)
      ≡ served cap
    → ((safe ≡ true) × (cap ≡ none))
      ⊎ ((origin ≡ true) × (signed ≡ true) × (repeated ≡ true) × (cap ≡ limit))
checks_passed true o s v refused limit cap ne h = inl (refl, ground arith)
checks_passed false true true true refused limit cap ne h = inr (refl, refl, refl, ground arith)
checks_passed false true true false refused limit cap ne h = absurd (ne cap h)
checks_passed false true false v refused limit cap ne h = absurd (ne cap h)
checks_passed false false s v refused limit cap ne h = absurd (ne cap h)

module _ (hmac : String → String → String) where
  -- A token that was signed for a session, from a nonce of 64 bytes without a dot, is valid with that
  -- session.
  pub valid_signed_csrf-sign_csrf :
      (key : String) (session : Option String) (nonce : String)
      → len nonce ≡ 64
      → cut_dot nonce ≡ none
      → valid_signed_csrf hmac key session (sign_csrf hmac key session nonce) ≡ true
  unfolding valid_signed_csrf sign_csrf
  valid_signed_csrf-sign_csrf key session nonce size plain =
      rw
        (
          valid_signed_csrf,
          cut_dot_append nonce (hmac key (nonce ++ "\0" ++ or_empty session)) plain,
        )
        (rw (size, eq_refl (nonce ++ "." ++ hmac key (nonce ++ "\0" ++ or_empty session))))

  -- The token was signed by this site for this session.
  abbrev pub SignedFor : String → Option String → String → Type 0
  SignedFor key session token =
      (nonce : String) × (len nonce ≡ 64) × (token ≡ sign_csrf hmac key session nonce)

  valid_signed_csrf-SignedFor :
      (key : String) (session : Option String) (token : String)
      → valid_signed_csrf hmac key session token ≡ true
      → SignedFor key session token
  unfolding valid_signed_csrf
  valid_signed_csrf-SignedFor key session token h = elim (Option-cases (cut_dot token)) [
    | inl no_dot ↦ absurd (ground arith)
    | inr found ↦
        let e : ((len found.0 == 64) && str_eq (sign_csrf hmac key session found.0) token) ≡ true =
          (rw (valid_signed_csrf, found.1) at h) in
        (
          found.0,
          ground arith,
          sym ((eq_iff (sign_csrf hmac key session found.0) token).0 (ground arith)),
        )
  ]

  module _ (parse_url : String → Option Url) (equal_fold : String → String → Bool) where
    -- The request names no origin, or one with the scheme and the host that were wanted.
    abbrev pub SameOrigin : Request → Option Url → Type 0
    SameOrigin r public_url =
        (trim_space r.origin ≡ "")
        ⊎ ((u : Url) × (parse_url (trim_space r.origin) ≡ some u)
            × (u.scheme ≡ want_scheme parse_url equal_fold r public_url)
            × (equal_fold u.host (want_host parse_url equal_fold r public_url) ≡ true))

    same_origin-SameOrigin :
        (r : Request) (public_url : Option Url)
        → same_origin parse_url equal_fold r public_url ≡ true
        → SameOrigin r public_url
    unfolding same_origin
    same_origin-SameOrigin r public_url h = elim (Bool-cases (is_empty (trim_space r.origin))) [
      | inl none_given ↦ inl (is_empty_sound (trim_space r.origin) none_given)
      | inr given ↦ elim (Option-cases (parse_url (trim_space r.origin))) [
        | inl broken ↦ absurd (ground arith)
        | inr (u, parsed) ↦
            let k = (rw (given, parsed) at h) in
            inr (
              u,
              parsed,
              (eq_iff u.scheme (want_scheme parse_url equal_fold r public_url)).0 (ground arith),
              ground arith,
            )
      ]
    ]

    -- What a request that changes something has shown.
    pub record Protected (public_url : Option Url) (key : String) (r : Request) : Type 0 where
      pub origin : SameOrigin r public_url
      pub token : String
      pub carried : r.csrf_cookie ≡ some token
      pub signed : SignedFor key r.session_cookie token
      pub repeated : submitted r ≡ some token

    cookie-Protected :
        (public_url : Option Url) (key : String) (r : Request)
        → SameOrigin r public_url
        → signed_cookie parse_url equal_fold hmac key r ≡ true
        → valid_request_csrf r ≡ true
        → Protected public_url key r
    unfolding signed_cookie valid_request_csrf
    cookie-Protected public_url key r origin signed repeated = elim (Option-cases r.csrf_cookie) [
      | inl missing ↦ absurd (ground arith)
      | inr (token, carried) ↦
          let s = (rw (signed_cookie, carried) at signed) in
          let v = (rw (valid_request_csrf, carried) at repeated) in
          elim (Option-cases (submitted r)) [
            | inl missing ↦ absurd (ground arith)
            | inr (copy, given) ↦
                let w = (rw given at v) in
                let same : token ≡ copy = (eq_iff token copy).0 (ground arith) in
                record {
                  origin = origin;
                  token = token;
                  carried = carried;
                  signed = valid_signed_csrf-SignedFor key r.session_cookie token s;
                  repeated = given ∙ ap some (sym same);
                }
          ]
    ]

    refusal_answers :
        (path : String) (cap : Option ℕ) → refusal parse_url equal_fold hmac path ≢ served cap
    unfolding refusal
    refusal_answers path cap h = elim (Bool-cases (starts_with path "/api/")) [
      | inl api ↦ let e = (rw (refusal, api) at h) in absurd (ground arith)
      | inr page ↦ let e = (rw (refusal, page) at h) in absurd (ground arith)
    ]

    -- A request is served only if its method changes nothing, or if it names no foreign origin and
    -- submits, besides its cookies, a copy of a token that was signed for its session; then its
    -- body is capped according to its path.
    pub request_protection-Protected :
        (public_url : Option Url) (key : String) (config : Config) (r : Request) (cap : Option ℕ)
        → request_protection parse_url equal_fold hmac public_url key config r ≡ served cap
        → ((is_safe_method r.method ≡ true) × (cap ≡ none))
          ⊎ (Protected public_url key r × (cap ≡ some (body_limit config r.path)))
    unfolding request_protection
    request_protection-Protected public_url key config r cap h =
        elim (checks_passed (is_safe_method r.method)
          (same_origin parse_url equal_fold r public_url)
          (signed_cookie parse_url equal_fold hmac key r) (valid_request_csrf r)
          (refusal parse_url equal_fold hmac r.path) (some (body_limit config r.path)) cap
          (refusal_answers r.path) h) [
            | inl safe ↦ inl safe
            | inr (o, s, v, e) ↦
                inr
                  (cookie-Protected public_url key r (same_origin-SameOrigin r public_url o) s v, e)
          ]
