-- ===== src/Telemetry/Instance/Tests.antt =====
-- Examples of the theorems on telemetry.
use abctl.Common.{
  ◌+◌, ◌≤◌, true, false, ◌==◌, none, List, [], ◌∷◌, new, panicked, Result, ok, err, ok-injective,
  ◌≡◌, ◌⊎◌, refl, sym, ap,
}
use abctl.Maps.{end, field, str, get}
use abctl.Effects.{Call, Answer, World, Program}
use abctl.Telemetry.{Config, Libraries, Session, nil_uuid, zero_ulid, config_of, config_fields}
use abctl.Telemetry.Stored.{IsCanonical, config_of-config_fields}
use abctl.Telemetry.Instance.{noop, segment, Surroundings, GetConfig, get_client, wrap_segment}
use abctl.Telemetry.Instance.Choice.{MakesIds, get_client_identified}
use abctl.Telemetry.Instance.Events.{posts, IsTold, wrap_segment_transparent}

abbrev lib : Libraries
lib = record {
  parse_ulid = λ s. ok s;
  parse_uuid = λ s. ok s;
  unmarshal = λ s. ok none;
  marshal = λ m. ok "{}";
  is_not_exist = λ e. true;
  dir = λ path. "/home/user/.airbyte";
  marshal_event = λ id event properties now. ok "{}";
}

-- No identifier of a user, one of the analytics, and a member of another program.
abbrev config : Config
config = record {
  user_id = zero_ulid;
  analytics_id = "0f8fad5b-d9cb-469f-a165-70867728950e";
  other = field "pyairbyte" (str "on") end;
}

config-IsCanonical : IsCanonical lib config
unfolding get
config-IsCanonical = record {
  user_parses = refl;
  analytics_parses = refl;
  no_user = refl;
  no_analytics = refl;
}

config_of-config_fields_example : config_of lib (config_fields config) ≡ ok config
config_of-config_fields_example = config_of-config_fields lib config config-IsCanonical

abbrev answers : (calls : List Call) → (c : Call) → Result (Answer c)
answers calls Call.new_uuid = ok "0f8fad5b-d9cb-469f-a165-70867728950e"
answers calls (Call.mkdir_all path mode) = ok tt
answers calls (Call.write_file path data_of mode) = ok tt
answers calls (Call.http_post url data_of) = ok tt
answers calls c = err (new "not found")

abbrev world : World
world = record {
  ask = answers;
  is_not_found = λ e. true;
  unmarshal_secret = λ s. err (new "no secret");
}

makes : MakesIds world lib
makes calls id h = ap (λ i. i == nil_uuid) (sym (ok-injective h))

abbrev env : Surroundings
env = record {
  do_not_track = false;
  user_home_dir = "/home/user";
  config_path = λ home. "/home/user/.airbyte/analytics.yml";
}

abbrev get_config : GetConfig
get_config = record { dnt = false; user_home = "" }

get_client_identified_example :
    ((get_client world lib env none get_config []).0 ≡ ok noop)
    ⊎ ((c : Config) × ((get_client world lib env none get_config []).0 ≡ ok (segment c))
        × ((c.analytics_id == nil_uuid) ≡ false))
get_client_identified_example = get_client_identified world lib env get_config [] makes

abbrev session : Session
session = record { analytics_id = "id"; constants = ("os", "linux") ∷ []; attrs = [] }

-- A command that panics.
abbrev failing : Program (Unit {0})
failing calls = (err (panicked "interface conversion"), calls)

wrap_segment_transparent_example :
    (before : List Call) × (posts before ≤ posts [] + 1)
    × ((wrap_segment world lib session "install" failing []).0 ≡ (failing before).0)
    × (posts (wrap_segment world lib session "install" failing []).1 ≤ posts (failing before).1 + 1)
    × IsTold world lib session "install"
        (failing before)
        (wrap_segment world lib session "install" failing []).1
wrap_segment_transparent_example = wrap_segment_transparent world lib session "install" failing []
