-- ===== src/Tests/Requests.antt =====
-- Requests to the HTTP layer: attempts to log in, sessions and protected requests.
use cotests.Prelude.{
  ℕ, ◌+◌, ◌*◌, ◌^◌, ◌≤◌, ◌≡◌, refl, ◌⊎◌, String, Bool, true, false, Option, none, some, List, [],
  ◌∷◌, arith, trim_space, All, count_where, ◌↔◌,
}
use cotests.Outcome.{ok, forbidden}
use cotests.Db.Models.{Session}
use cotests.Db.Gorm.Memory.{Tables, memory}
use cotests.Db.Gorm.Memory.Laws.{memory-GormLaws, memory-IsReliable}
use cotests.Db.Sessions.{create_session}
use cotests.Server.RateLimit.{Attempts, limit, host_of, allow_auth_attempt}
use cotests.Server.RateLimit.Buckets.{Call, Within}
use cotests.Server.RateLimit.Budget.{allowed, allowed-≤}
use cotests.Server.RateLimit.Passing.{young, HasRoom, allow_auth_attempt_iff}
use cotests.Prelude.Assoc.{lookup}
use Prim.Native.String.{◌++◌}
use cotests.Server.Security.{
  Url, Request, Config, served, api_refused, cut_dot, is_safe_method, sign_csrf, valid_signed_csrf,
  body_limit, request_protection,
}
use cotests.Server.Security.Tokens.{
  Protected, valid_signed_csrf-sign_csrf, request_protection-Protected,
}
use cotests.Server.Identity.{get_user}
use cotests.Server.Identity.Laws.{Recognised, get_user-Recognised}
use cotests.Server.Identity.Login.{create_session-get_user}
use cotests.Tests.World.{world, olga}

abbrev no_port : String → Option String
no_port addr = none

abbrev same : String → String
same s = s

abbrev attempt : Call
attempt = record { remote_addr = "10.0.0.1"; email = "olga@example.com"; at = 70 * 10 ^ 9 }

abbrev twelve : List Call
twelve =
    attempt ∷ attempt ∷ attempt ∷ attempt ∷ attempt ∷ attempt ∷ attempt ∷ attempt ∷ attempt
    ∷ attempt ∷ attempt ∷ attempt ∷ []

ten_pass : allowed no_port same "ip:10.0.0.1" twelve [] ≡ 10
unfolding allowed allow_auth_attempt trim_space
ten_pass = refl

twelve-Within : All (Within (60 * 10 ^ 9)) twelve
twelve-Within =
    (now, (now, (now, (now, (now, (now, (now, (now, (now, (now, (now, (now, tt))))))))))))
  where
    now : Within (60 * 10 ^ 9) attempt
    now = (omega arith, omega arith)

allowed-≤_example : allowed no_port same "ip:10.0.0.1" twelve [] + 0 ≤ limit
allowed-≤_example =
    allowed-≤ no_port same (60 * 10 ^ 9) "ip:10.0.0.1" twelve [] (omega arith) twelve-Within tt tt

abbrev spent : Attempts
spent = ("ip:10.0.0.1", record { count = 10; start = 10 ^ 9 }) ∷ []

spent_refuses :
    allow_auth_attempt no_port same "10.0.0.1" "a@b" (30 * 10 ^ 9) spent ≡ (false, spent)
unfolding allow_auth_attempt
spent_refuses = refl

-- A minute after the bucket was opened.
spent_passes : (allow_auth_attempt no_port same "10.0.0.1" "a@b" (61 * 10 ^ 9) spent).0 ≡ true
unfolding allow_auth_attempt
spent_passes = refl

allow_auth_attempt_iff_example :
    ((allow_auth_attempt no_port same "10.0.0.1" "a@b" (30 * 10 ^ 9) spent).0 ≡ true) ↔ (
      (count_where (young (30 * 10 ^ 9)) spent ≤ 10000)
      × HasRoom (30 * 10 ^ 9) (lookup ("ip:" ++ host_of no_port same "10.0.0.1") spent)
      × HasRoom (30 * 10 ^ 9) (lookup ("email:" ++ same (trim_space "a@b")) spent))
allow_auth_attempt_iff_example =
    allow_auth_attempt_iff no_port same "10.0.0.1" "a@b" (30 * 10 ^ 9) spent (refl, tt)

abbrev fixed_mac : String → String → String
fixed_mac key text = "f00d"

abbrev no_url : String → Option Url
no_url s = none

abbrev never : String → String → Bool
never a b = false

abbrev nonce : String
nonce = "0123456789abcdef0123456789abcdef0123456789abcdef0123456789abcdef"

abbrev token : String
token = "0123456789abcdef0123456789abcdef0123456789abcdef0123456789abcdef.f00d"

abbrev post : Request
post = record {
  method = "POST";
  path = "/api/v1/revisions/2/pdf";
  host = "localhost";
  tls = false;
  origin = "";
  token_header = token;
  form_token = none;
  csrf_cookie = some token;
  session_cookie = some "secret";
}

abbrev caps : Config
caps = record { max_artifact_bytes = 1000; max_import_bytes = 2000 }

post_served : request_protection no_url never fixed_mac none "key" caps post ≡ served (some 66536)
unfolding request_protection trim_space
post_served = refl

post_refused :
    request_protection no_url never fixed_mac none "key" caps (record post { token_header = "x" })
    ≡ api_refused forbidden
unfolding request_protection trim_space
post_refused = refl

valid_signed_csrf-sign_csrf_example :
    valid_signed_csrf fixed_mac "key" none (sign_csrf fixed_mac "key" none nonce) ≡ true
unfolding cut_dot
valid_signed_csrf-sign_csrf_example =
    valid_signed_csrf-sign_csrf fixed_mac "key" none nonce refl refl

abbrev cap : Option ℕ
cap = some 66536

request_protection-Protected_example :
    ((is_safe_method post.method ≡ true) × (cap ≡ none))
    ⊎ (Protected fixed_mac no_url never none "key" post × (cap ≡ some (body_limit caps post.path)))
request_protection-Protected_example =
    request_protection-Protected fixed_mac no_url never none "key" caps post cap post_served

abbrev hash : String → String
hash s = s

abbrev olgas : Session
olgas = record { id = 1; user_id = 2; token_hash = "secret"; expires_at = 604800000000100 }

abbrev logged_in : Tables
logged_in = (create_session memory hash 2 100 100 (ok "secret") world).1

session_created :
    create_session memory hash 2 100 100 (ok "secret") world ≡ (ok (olgas, "secret"), logged_in)
unfolding create_session
session_created = refl

olga_recognised : get_user memory hash (some "secret") 150 logged_in ≡ (some olga, logged_in)
unfolding get_user create_session
olga_recognised = refl

get_user-Recognised_example :
    (logged_in ≡ logged_in)
    × ((token : String) × (some "secret" ≡ some token)
        × Recognised memory memory-GormLaws hash token 150 olga logged_in)
get_user-Recognised_example =
    get_user-Recognised memory memory-GormLaws hash (some "secret") 150 olga logged_in logged_in
      olga_recognised

create_session-get_user_example :
    get_user memory hash (some "secret") 150 logged_in ≡ (some olga, logged_in)
create_session-get_user_example =
    create_session-get_user memory memory-GormLaws memory-IsReliable hash olga 100 100 150
      (ok "secret") olgas "secret" world logged_in session_created refl (λ other m e. absurd m) refl
      (omega arith)
