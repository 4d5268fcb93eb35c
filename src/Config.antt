-- ===== src/Config.antt =====
-- `Load` of `internal/config/runtime.go`: the settings of the deployment from the environment.
-- `clean` and `join` are filepath.Clean and filepath.Join, `parse_int` is strconv.ParseInt in base 10
-- and 64 bits, `parse_url` is url.Parse, `equal_fold` is strings.EqualFold, and `max_int` is the
-- greatest value of Go's `int`.
pub mod Bounds
use cotests.Prelude.{
  ℕ, ◌*◌, ◌^◌, String, Bool, true, false, not, ◌&&◌, ◌||◌, Option, none, some, ltb, ◌==◌,
  if◌then◌else◌, str_eq, is_empty, trim_space,
}
use Prim.Native.String.{◌++◌}
use cotests.Prelude.Int.{ℤ, pos, negsuc}
use cotests.Outcome.{Error, Result, ok, err, failure, guard, ◌>>=◌, ◌>>◌}
use cotests.Server.Security.{Url}

pub record Runtime : Type 0 where
  pub data_dir : String
  pub artifact_dir : String
  pub database_dsn : String
  pub listen_address : String
  pub public_url : Option Url
  pub secure_cookies : Bool
  pub max_artifact_bytes : ℕ
  pub max_import_bytes : ℕ
  pub max_import_files : ℕ
  pub max_storage_bytes : ℕ

-- the setting without the spaces around it, or a default
abbrev pub setting : String → String → String
setting raw fallback = let s = trim_space raw in if is_empty s then fallback else s

-- what follows strconv.ParseInt
abbrev pub positive : Option ℤ → Result ℕ
positive none = err (failure "must be a positive integer")
positive (some (negsuc n)) = err (failure "must be a positive integer")
positive (some (pos n)) = if n == 0 then err (failure "must be a positive integer") else ok n

-- `fmt.Errorf("NAME: %w", err)`
abbrev pub named : String → Result ℕ → Result ℕ
named name (ok n) = ok n
named name (err (failure message)) = err (failure (name ++ (": " ++ message)))
named name (err e) = err e

module _ (parse_int : String → Option ℤ) (max_int : ℕ) where
  unfoldable pub positive_int64 : String → ℕ → Result ℕ
  positive_int64 raw fallback =
      let s = trim_space raw in if is_empty s then ok fallback else positive (parse_int s)

  unfoldable pub positive_int : String → ℕ → Result ℕ
  unfolding positive_int64
  positive_int raw fallback = positive_int64 raw fallback >>= λ value.
      if ltb max_int value then err (failure "is too large") else ok value

module _ (parse_url : String → Option Url) where
  -- what follows url.Parse
  unfoldable pub origin_only : Option Url → Result (Option Url)
  origin_only none = err (failure "PUBLIC_URL must be an absolute http or https URL")
  origin_only (some u) =
      if is_empty u.scheme || is_empty u.host
      then err (failure "PUBLIC_URL must be an absolute http or https URL")
      else if not (str_eq u.scheme "http") && not (str_eq u.scheme "https")
      then err (failure "PUBLIC_URL must use http or https")
      else if u.has_user
          || not (is_empty u.raw_query)
          || not (is_empty u.fragment)
          || not (is_empty u.path) && not (str_eq u.path "/")
      then err (failure "PUBLIC_URL must contain only an origin")
      else ok (some (record u { path = "" }))

  unfoldable pub parse_public_url : String → Result (Option Url)
  unfolding origin_only
  parse_public_url raw =
      let s = trim_space raw in if is_empty s then ok none else origin_only (parse_url s)

-- `publicURL != nil && publicURL.Scheme == "https"`
abbrev pub is_https : Option Url → Bool
is_https none = false
is_https (some u) = str_eq u.scheme "https"

module _ (clean : String → String) (join : String → String → String) (parse_int : String → Option ℤ)
    (max_int : ℕ) (parse_url : String → Option Url) (equal_fold : String → String → Bool) where
  abbrev pub data_dir_of : (String → String) → String
  data_dir_of lookup = clean (setting (lookup "DATA_DIR") ".")

  unfoldable pub load : (String → String) → Result Runtime
  unfolding positive_int64 positive_int parse_public_url
  load lookup = do
    max_artifact_bytes ←
        named "MAX_ARTIFACT_BYTES"
          (positive_int64 parse_int max_int (lookup "MAX_ARTIFACT_BYTES") (10 * 2 ^ 20))
    max_import_bytes ←
        named "MAX_IMPORT_BYTES"
          (positive_int64 parse_int max_int (lookup "MAX_IMPORT_BYTES") (50 * 2 ^ 20))
    max_import_files ←
        named "MAX_IMPORT_FILES" (positive_int parse_int max_int (lookup "MAX_IMPORT_FILES") 100)
    max_storage_bytes ←
        named "MAX_STORAGE_BYTES"
          (positive_int64 parse_int max_int (lookup "MAX_STORAGE_BYTES") (2 ^ 30))
    guard
        (not (
          ltb (512 * 2 ^ 20) max_artifact_bytes
          || ltb (512 * 2 ^ 20) max_import_bytes
          || ltb 10000 max_import_files))
        (failure "upload limits exceed supported bounds (512 MiB / 10000 files)")
    public_url ← parse_public_url parse_url (lookup "PUBLIC_URL")
    ok (record {
      data_dir = data_dir_of lookup;
      artifact_dir =
          clean (setting (lookup "ARTIFACT_DIR") (join (data_dir_of lookup) "artifacts"));
      database_dsn = setting (lookup "DATABASE_URL") (join (data_dir_of lookup) "cotests.db");
      listen_address = setting (lookup "LISTEN_ADDR") ":3000";
      public_url = public_url;
      secure_cookies =
          is_https public_url || equal_fold (trim_space (lookup "SECURE_COOKIES")) "true";
      max_artifact_bytes = max_artifact_bytes;
      max_import_bytes = max_import_bytes;
      max_import_files = max_import_files;
      max_storage_bytes = max_storage_bytes;
    })
