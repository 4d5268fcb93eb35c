-- ===== src/Server/Security.antt =====
-- `internal/server/security.go`: state-changing requests must come from the same origin and carry
-- the token of a cookie that was signed for the session. `hmac` is the hexadecimal HMAC-SHA256 of a
-- text, `parse_url` is url.Parse and `equal_fold` is strings.EqualFold.
pub mod Tokens
use cotests.Prelude.{
  ℕ, ◌+◌, ◌-◌, ◌*◌, ◌^◌, String, Bool, true, false, not, ◌&&◌, ◌||◌, Option, none, some, leb, ◌==◌,
  if◌then◌else◌, str_eq, is_empty, trim_space,
}
use Prim.Native.String.{◌++◌, len, slice}
use text.Mathlib.Text.{starts_with}
use cotests.Outcome.{Error, forbidden}

pub record Url : Type 0 where
  pub scheme : String
  pub host : String
  pub has_user : Bool
  pub path : String
  pub raw_query : String
  pub fragment : String

-- What the checks read of a request: `form_token` is none when the form does not parse, and an
-- absent header is empty.
pub record Request : Type 0 where
  pub method : String
  pub path : String
  pub host : String
  pub tls : Bool
  pub origin : String
  pub token_header : String
  pub form_token : Option String
  pub csrf_cookie : Option String
  pub session_cookie : Option String

pub record Config : Type 0 where
  pub max_artifact_bytes : ℕ
  pub max_import_bytes : ℕ

-- The request goes on with a cap on its body, if one was set, or is answered at once.
pub data Verdict : Type 0 where
  served : Option ℕ → Verdict
  api_refused : Error → Verdict
  page_refused : ℕ → String → Verdict

-- strings.HasSuffix
unfoldable pub has_suffix : String → String → Bool
has_suffix s suffix =
    leb (len suffix) (len s) && str_eq (slice s (len s - len suffix) (len s)) suffix

-- The nonce of strings.Cut(token, "."): what stands before the first dot.
unfoldable pub cut_dot : String → Option String
cut_dot String.[] = none
cut_dot (String.◌∷◌ c s) =
    let rest = cut_dot s in
    if str_eq (String.◌∷◌ c "") "."
    then some ""
    else elim rest [ none ↦ none | some before ↦ some (String.◌∷◌ c before) ]

-- constantTimeEqual
abbrev pub constant_time_equal : String → String → Bool
constant_time_equal = str_eq

abbrev pub is_safe_method : String → Bool
is_safe_method m = str_eq m "GET" || str_eq m "HEAD" || str_eq m "OPTIONS"

abbrev revisions_path : String → Bool
revisions_path path = starts_with path "/api/v1/revisions/"

unfoldable pub body_limit : Config → String → ℕ
unfolding has_suffix
body_limit config path =
    if revisions_path path && has_suffix path "/imports"
    then config.max_import_bytes + 64 * 2 ^ 10
    else if revisions_path path && has_suffix path "/pdf"
    then config.max_artifact_bytes + 64 * 2 ^ 10
    else 2 ^ 20

module _ (parse_url : String → Option Url) (equal_fold : String → String → Bool) where
  abbrev plain_origin : Url → Bool
  plain_origin u = not (
      is_empty u.host
      || u.has_user
      || not (is_empty u.path)
      || not (is_empty u.raw_query)
      || not (is_empty u.fragment)
      || not (str_eq u.scheme "http") && not (str_eq u.scheme "https"))

  unfoldable pub want_host : Request → Option Url → String
  want_host r none = r.host
  want_host r (some public_url) = public_url.host

  unfoldable pub want_scheme : Request → Option Url → String
  want_scheme r none = if r.tls then "https" else "http"
  want_scheme r (some public_url) = public_url.scheme

  unfoldable pub same_origin : Request → Option Url → Bool
  unfolding want_host want_scheme
  same_origin r public_url =
      let origin = trim_space r.origin in
      if is_empty origin then true else elim (parse_url origin) [
        | none ↦ false
        | some parsed ↦
            plain_origin parsed
            && str_eq parsed.scheme (want_scheme r public_url)
            && equal_fold parsed.host (want_host r public_url)
      ]

abbrev or_empty : Option String → String
or_empty none = ""
or_empty (some s) = s

module _ (hmac : String → String → String) where
  unfoldable pub sign_csrf : String → Option String → String → String
  sign_csrf key session nonce = nonce ++ "." ++ hmac key (nonce ++ "\0" ++ or_empty session)

  unfoldable pub valid_signed_csrf : String → Option String → String → Bool
  unfolding sign_csrf cut_dot
  valid_signed_csrf key session token = elim (cut_dot token) [
    | none ↦ false
    | some nonce ↦ len nonce == 64 && constant_time_equal (sign_csrf key session nonce) token
  ]

unfoldable pub submitted : Request → Option String
submitted r = if is_empty r.token_header then r.form_token else some r.token_header

unfoldable pub valid_request_csrf : Request → Bool
unfolding submitted
valid_request_csrf r = elim r.csrf_cookie [
  | none ↦ false
  | some cookie ↦
      not (is_empty cookie)
      && elim (submitted r) [ none ↦ false | some token ↦ constant_time_equal cookie token ]
]

module _ (parse_url : String → Option Url) (equal_fold : String → String → Bool)
    (hmac : String → String → String) where
  unfoldable pub signed_cookie : String → Request → Bool
  unfolding valid_signed_csrf
  signed_cookie key r = elim r.csrf_cookie [
    | none ↦ false
    | some cookie ↦ valid_signed_csrf hmac key r.session_cookie cookie
  ]

  unfoldable pub refusal : String → Verdict
  refusal path =
      if starts_with path "/api/"
      then api_refused forbidden
      else page_refused 403 "Your form has expired. Please refresh and try again."

  unfoldable pub request_protection : Option Url → String → Config → Request → Verdict
  unfolding same_origin signed_cookie valid_request_csrf body_limit refusal
  request_protection public_url key config r =
      if is_safe_method r.method
      then served none
      else if not (same_origin parse_url equal_fold r public_url)
          || not (signed_cookie key r)
          || not (valid_request_csrf r)
      then refusal r.path
      else served (some (body_limit config r.path))
