-- ===== src/Tests/Logins.antt =====
-- Logins, registrations and configurations.
use cotests.Prelude.{
  ◌*◌, ◌^◌, ◌≡◌, refl, String, Bool, true, false, ◌&&◌, Option, none, some, [], trim_space, str_eq,
}
use cotests.Prelude.Int.{ℤ, pos}
use cotests.Outcome.{Result, ok}
use cotests.Db.Models.{User, Session}
use cotests.Db.Gorm.Memory.{Tables, memory}
use cotests.Db.Gorm.Memory.Laws.{memory-GormLaws}
use cotests.Db.Sessions.{create_user, create_session, get_user_by_email}
use cotests.Db.Sessions.Laws.{Opened}
use cotests.Server.RateLimit.{Attempts, allow_auth_attempt}
use cotests.Server.Security.{Url}
use cotests.Server.Login.{
  signed_in, Form, Visit, validate_credentials, read_auth_form, login, register, login_user,
  register_user,
}
use cotests.Server.Login.Laws.{Authenticated, login-Authenticated}
use cotests.Server.Login.Registration.{Registered, register-Registered}
use cotests.Config.{Runtime, load}
use cotests.Config.Bounds.{Bounded, load-Bounded}
use cotests.Tests.World.{world}

abbrev id_text : String → String
id_text s = s

abbrev any_address : String → Option String
any_address s = some s

abbrev no_port : String → Option String
no_port addr = none

abbrev plain : String → Result String
plain s = ok s

abbrev fits : String → String → Bool
fits password hash = str_eq password "open sesame" && str_eq hash ""

abbrev olgas_form : Option Form
olgas_form = some (record { email = " olga@example.com "; password = "open sesame"; name = "" })

abbrev visit : Visit
visit = record {
  remote_addr = "10.0.0.1";
  now = 70 * 10 ^ 9;
  swept_at = 100;
  created_at = 100;
  new_token = ok "secret";
  place_free = true;
}

abbrev logged_in : Attempts × Tables
logged_in =
    (login memory id_text any_address no_port id_text plain fits olgas_form visit ([], world)).1

olga_logs_in :
    login memory id_text any_address no_port id_text plain fits olgas_form visit ([], world)
    ≡ (signed_in "secret", (logged_in.0, logged_in.1))
unfolding login login_user allow_auth_attempt validate_credentials read_auth_form trim_space
    create_user create_session get_user_by_email
olga_logs_in = refl

login-Authenticated_example :
    (raw : Form) × (user : User) × (olgas_form ≡ some raw)
    × Authenticated memory memory-GormLaws id_text any_address no_port id_text plain fits raw user
        world
    × ((session : Session) × Opened memory memory-GormLaws id_text user.id 100 100
          (ok "secret")
          session
          "secret"
          world
          logged_in.1)
login-Authenticated_example =
    login-Authenticated memory memory-GormLaws id_text any_address no_port id_text plain fits
      olgas_form visit "secret" [] logged_in.0 world logged_in.1 olga_logs_in

abbrev new_form : Option Form
new_form = some (record { email = "new@example.com"; password = "open sesame"; name = "New" })

abbrev joined : Attempts × Tables
joined =
    (register memory id_text any_address no_port id_text plain fits new_form visit ([], world)).1

new_joins :
    register memory id_text any_address no_port id_text plain fits new_form visit ([], world)
    ≡ (signed_in "secret", (joined.0, joined.1))
unfolding register register_user allow_auth_attempt validate_credentials read_auth_form trim_space
    create_user create_session get_user_by_email
new_joins = refl

register-Registered_example :
    (raw : Form) × (user : User) × (s₁ : Tables) × (new_form ≡ some raw)
    × Registered memory memory-GormLaws id_text any_address no_port id_text plain fits raw user
        world s₁
    × ((session : Session) × Opened memory memory-GormLaws id_text user.id 100 100
          (ok "secret")
          session
          "secret"
          s₁
          joined.1)
register-Registered_example =
    register-Registered memory memory-GormLaws id_text any_address no_port id_text plain fits
      new_form visit "secret" [] joined.0 world joined.1 new_joins

abbrev no_join : String → String → String
no_join a b = b

abbrev seven : String → Option ℤ
seven s = some (pos 7)

abbrev https_url : String → Option Url
https_url s = some (record {
  scheme = "https";
  host = "cotests.example";
  has_user = false;
  path = "/";
  raw_query = "";
  fragment = "";
})

abbrev never : String → String → Bool
never a b = false

abbrev environment : String → String
environment key = "x"

abbrev configured : Runtime
configured = record {
  data_dir = "x";
  artifact_dir = "x";
  database_dsn = "x";
  listen_address = "x";
  public_url = some (record {
    scheme = "https";
    host = "cotests.example";
    has_user = false;
    path = "";
    raw_query = "";
    fragment = "";
  });
  secure_cookies = true;
  max_artifact_bytes = 7;
  max_import_bytes = 7;
  max_import_files = 7;
  max_storage_bytes = 7;
}

loaded : load id_text no_join seven 9223372036854775807 https_url never environment ≡ ok configured
unfolding load trim_space
loaded = refl

load-Bounded_example : Bounded configured
load-Bounded_example =
    load-Bounded id_text no_join seven 9223372036854775807 https_url never environment configured
      loaded
