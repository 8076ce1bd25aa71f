-- ===== src/Telemetry/Instance.antt =====
-- internal/telemetry: the configuration on the disk, the choice of the client (Get), and the events of
-- a command (Wrap).
pub mod Choice
pub mod Events
mod Tests
use abctl.Common.{
  String, Bool, true, false, not, ◌||◌, if◌then◌else◌, ◌==◌, ◌++◌, is_empty, List, [], ◌∷◌, Option,
  none, some, Error, errorf, is_panic, message, Result, ok, err, wrap,
}
use abctl.Maps.{Fields, end, or_empty}
use abctl.Effects.{
  Call, World, Program, return, fail, try, from_result, with_error, perform, ◌>>=◌, ◌>>◌,
}
use abctl.Telemetry.{
  Config, Libraries, zero_ulid, nil_uuid, config_of, config_fields, header, track_url, Session,
  event_properties,
}

-- NoopClient, or SegmentClient with its configuration.
pub data Client : Type 0 where
  noop : Client
  segment : Config → Client

-- User
unfoldable pub user : Client → String
user noop = ""
user (segment cfg) = cfg.analytics_id

-- os.LookupEnv for DO_NOT_TRACK (is it set?), os.UserHomeDir without its error, and the path of the
-- file in a home.
pub record Surroundings : Type 0 where
  pub do_not_track : Bool
  pub user_home_dir : String
  pub config_path : String → String

-- GetOption, applied
pub record GetConfig : Type 0 where
  pub dnt : Bool
  pub user_home : String

-- `failed to …: %w`, around a program
abbrev pub blamed {ℓ} : {A : Type ℓ} → String → Program A → Program A
blamed before m = with_error (λ e. errorf before e "") m

module _ (w : World) (lib : Libraries) where
  unfoldable pub load_config_from_file : String → Program Config
  unfolding config_of
  load_config_from_file path = do
    blamed ("unable to locate file " ++ (path ++ ": ")) (perform w (Call.file_stat path))
    analytics ← blamed "unable to read analytics file: " (perform w (Call.read_file path))
    other ← from_result (wrap "unable to unmarshal yaml: " (lib.unmarshal analytics))
    from_result (config_of lib (or_empty other))

  unfoldable pub write_config_to_file : String → Config → Program (Unit {0})
  unfolding config_fields
  write_config_to_file path cfg = do
    data_of ← from_result (wrap "unable to marshal config: " (lib.marshal (config_fields cfg)))
    blamed ("unable to create directories " ++ (lib.dir path ++ ": "))
        (perform w (Call.mkdir_all (lib.dir path) 0o777))
    blamed ("unable to write config to file " ++ (path ++ ": "))
        (perform w (Call.write_file path (header ++ data_of) 0o777))

  -- A configuration with a new identifier, once it is written.
  unfoldable pub write_new : String → Config → Program Config
  unfolding write_config_to_file
  write_new path cfg = do
    id ← perform w Call.new_uuid
    blamed ("unable to write file to " ++ (path ++ ": "))
        (write_config_to_file path (record cfg { analytics_id = id }))
    return (record cfg { analytics_id = id })

  abbrev pub empty_config : Config
  empty_config = record { user_id = zero_ulid; analytics_id = nil_uuid; other = end }

  abbrev pub or_create : String → Result Config → Program Config
  or_create path (ok cfg) = return cfg
  or_create path (err e) =
      if lib.is_not_exist e
      then write_new path empty_config
      else fail (errorf ("unable to load config from " ++ (path ++ ": ")) e "")

  -- getOrCreateConfigFile
  unfoldable pub get_or_create_config_file : String → Program Config
  unfolding load_config_from_file write_new
  get_or_create_config_file path = do
    loaded ← try (load_config_from_file path)
    cfg ← or_create path loaded
    if cfg.analytics_id == nil_uuid then write_new path cfg else return cfg

  abbrev pub client_of : Result Config → Client
  client_of (ok cfg) = segment cfg
  client_of (err e) = noop

  -- Get, with the instance before it; its result is the instance after it.
  unfoldable pub get_client : Surroundings → Option Client → GetConfig → Program Client
  unfolding get_or_create_config_file
  get_client env (some instance) cfg = return instance
  get_client env none cfg =
      if cfg.dnt || env.do_not_track
      then return noop
      else try (
          get_or_create_config_file
            (env.config_path (if is_empty cfg.user_home then env.user_home_dir else cfg.user_home)))
        >>= λ found. return (client_of found)

  -- send
  unfoldable pub send : Session → String → String → Option Error → Program (Unit {0})
  unfolding event_properties
  send s state event ee = do
    now ← perform w Call.time_now
    data_of ← from_result (
        wrap "unable to create request body: "
          (lib.marshal_event s.analytics_id event (event_properties s state ee) now))
    blamed "unable to post: " (perform w (Call.http_post track_url data_of))

  -- The end of Wrap, from the result of the command. Its event is sent if the first one was; the event
  -- of a panic, which the deferred function recovers and returns as an error, is sent in any case.
  unfoldable pub finish : Session → String → Bool → Result (Unit {0}) → Program (Unit {0})
  unfolding send
  finish s event started (err e) =
      if started || is_panic e then try (send s "failed" event (some e)) >> fail e else fail e
  finish s event started (ok done) =
      if started then try (send s "succeeded" event none) >> return tt else return tt

  abbrev pub has_succeeded {ℓ} : {A : Type ℓ} → Result A → Bool
  has_succeeded (ok a) = true
  has_succeeded (err e) = false

  -- SegmentClient.Wrap
  unfoldable pub wrap_segment : Session → String → Program (Unit {0}) → Program (Unit {0})
  unfolding send finish
  wrap_segment s event f = do
    started ← try (send s "started" event none)
    done ← try f
    finish s event (has_succeeded started) done

  -- NoopClient.Wrap
  unfoldable pub wrap_noop : Program (Unit {0}) → Program (Unit {0})
  wrap_noop f = f
