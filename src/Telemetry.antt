-- ===== src/Telemetry.antt =====
-- internal/telemetry: the configuration file with the identifiers of the user (config.go), the choice
-- of the client (client.go, dnt.go, noop.go), and the events of a command (segment.go).
-- An identifier is its text. A panic of a command, which Wrap turns into an error, is an error here.
pub mod Stored
pub mod Instance
use abctl.Common.{
  String, ℕ, Bool, true, false, not, ◌||◌, if◌then◌else◌, ◌==◌, ◌++◌, is_empty, List, [], ◌∷◌,
  Option, none, some, Error, errorf, message, Result, ok, err, wrap, ◌>>=◌,
}
use abctl.Common.Dict.{insert}
use abctl.Maps.{Value, str, Fields, end, field, get, or_empty}

abbrev pub field_analytics_id : String
field_analytics_id = "analytics_id"

abbrev pub field_user_id : String
field_user_id = "anonymous_user_id"

abbrev pub zero_ulid : String
zero_ulid = "00000000000000000000000000"

abbrev pub nil_uuid : String
nil_uuid = "00000000-0000-0000-0000-000000000000"

pub record Config : Type 0 where
  pub user_id : String
  pub analytics_id : String
  pub other : Fields

-- The libraries: ulid.Parse and uuid.Parse, each to the canonical text; yaml.Unmarshal and
-- yaml.Marshal; errors.Is for a missing file; filepath.Dir; JSON of an event.
pub record Libraries : Type 0 where
  pub parse_ulid : String → Result String
  pub parse_uuid : String → Result String
  pub unmarshal : String → Result (Option Fields)
  pub marshal : Fields → Result String
  pub is_not_exist : Error → Bool
  pub dir : String → String
  pub marshal_event : String → String → List (String × String) → ℕ → Result String

-- delete(m, k)
unfoldable pub remove : String → Fields → Fields
remove k end = end
remove k (field j v m) = let rest = remove k m in if j == k then rest else field j v rest

-- The identifier of a field: zero if the field is missing or holds no text.
unfoldable pub read_id : String → String → (String → Result String) → Option Value → Result String
read_id name zero_id parse (some (str s)) =
    wrap ("unable to parse " ++ (name ++ (" (" ++ (s ++ "): ")))) (parse s)
read_id name zero_id parse _ = ok zero_id

-- The members of the file, as loadConfigFromFile reads them.
unfoldable pub config_of : Libraries → Fields → Result Config
unfolding get remove read_id
config_of lib m = read_id "ulid" zero_ulid lib.parse_ulid (get field_user_id m) >>= λ user_id.
    read_id "uuid" nil_uuid lib.parse_uuid (get field_analytics_id m) >>= λ analytics_id.
    ok (record {
      user_id = user_id;
      analytics_id = analytics_id;
      other = remove field_analytics_id (remove field_user_id m);
    })

-- `omitempty` of an identifier.
abbrev pub with_id : String → String → String → Fields → Fields
with_id name zero_id id m = if id == zero_id then m else field name (str id) m

-- What yaml.Marshal writes of a configuration.
unfoldable pub config_fields : Config → Fields
config_fields c =
    with_id field_user_id zero_ulid c.user_id
      (with_id field_analytics_id nil_uuid c.analytics_id c.other)

abbrev pub header : String
header =
    "# This file is used by Airbyte to track anonymous usage statistics.\n# For more information or to opt out, please see\n# - https://docs.airbyte.com/operator-guides/telemetry\n"

abbrev pub track_url : String
track_url = "https://api.segment.io/v1/track"

-- What a segment client sends with each event: the properties that do not change, and the attributes
-- set so far.
pub record Session : Type 0 where
  pub analytics_id : String
  pub constants : List (String × String)
  pub attrs : List (String × String)

-- maps.Copy
unfoldable pub copy_all : List (String × String) → List (String × String) → List (String × String)
unfolding insert
copy_all [] m = m
copy_all ((k, v) ∷ attrs) m = copy_all attrs (insert k v m)

abbrev pub with_error_property : Option Error → List (String × String) → List (String × String)
with_error_property none m = m
with_error_property (some e) m = insert "error" (message e) m

-- The properties of an event, in the state `state`.
unfoldable pub event_properties : Session → String → Option Error → List (String × String)
unfolding copy_all insert message
event_properties s state ee =
    with_error_property ee (copy_all s.attrs (insert "state" state s.constants))
