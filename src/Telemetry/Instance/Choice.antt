-- ===== src/Telemetry/Instance/Choice.antt =====
-- The client that Get chooses.
use abctl.Common.{
  String, Bool, Bool-cases, true, false, ◌||◌, if◌then◌else◌, ◌==◌, is_empty, List, none, Result,
  ok, err, ok-injective, ◌++◌, ◌≡◌, refl, sym, ap, ◌∙◌, ◌⊎◌, inl, inr,
}
use abctl.Effects.{Call, World, and_then, perform, try}
use abctl.Effects.Invariants.{Ensures, finally, >>=-ok}
use abctl.Telemetry.{Config, Libraries, nil_uuid}
use abctl.Telemetry.Instance.{
  noop, segment, Surroundings, GetConfig, blamed, write_config_to_file, write_new, or_create,
  get_or_create_config_file, load_config_from_file, client_of, get_client,
}

-- With DO_NOT_TRACK set, or the option WithDNT, Get gives the client that does nothing, and makes no
-- call at all: no file is read or written, and no identifier is made.
pub get_client_dnt :
    (w : World) (lib : Libraries) (env : Surroundings) (cfg : GetConfig) (calls : List Call)
    → (cfg.dnt || env.do_not_track) ≡ true
    → get_client w lib env none cfg calls ≡ (ok noop, calls)
unfolding get_client
get_client_dnt w lib env cfg calls set = rw set refl

module _ (w : World) (lib : Libraries) where
  -- uuid.New never gives the nil UUID.
  abbrev pub MakesIds : Type 0
  MakesIds =
      (calls : List Call) (id : String)
      → w.ask calls Call.new_uuid ≡ ok id
      → (id == nil_uuid) ≡ false

  abbrev IsIdentified : Config → List Call → Type 0
  IsIdentified cfg calls = (cfg.analytics_id == nil_uuid) ≡ false

  write_new-IsIdentified :
      (path : String) (cfg : Config) → MakesIds → Ensures IsIdentified (write_new w lib path cfg)
  unfolding write_new
  write_new-IsIdentified path cfg makes calls a h =
      let (id, made, same) = >>=-ok (perform w Call.new_uuid) _ calls h in
      let new_cfg = record cfg { analytics_id = id } in
      let rest = ap (λ r. r.0) (sym same) ∙ h in
      let (x, wrote, gives) =
        >>=-ok
          (blamed ("unable to write file to " ++ (path ++ ": "))
            (write_config_to_file w lib path new_cfg))
          _ _ rest in
      let eq = ok-injective (ap (λ r. r.0) (sym gives) ∙ rest) in
      ap (λ c. c.analytics_id == nil_uuid) (sym eq) ∙ makes calls id made

  choice-IsIdentified :
      (path : String) (cfg : Config)
      → MakesIds
      → (b : Bool) → (cfg.analytics_id == nil_uuid) ≡ b
      → Ensures IsIdentified (if b then write_new w lib path cfg else λ s. (ok cfg, s))
  choice-IsIdentified path cfg makes true nil calls a h =
      write_new-IsIdentified path cfg makes calls a h
  choice-IsIdentified path cfg makes false given calls a h =
      ap (λ c. c.analytics_id == nil_uuid) (sym (ok-injective h)) ∙ given

  get_or_create-IsIdentified :
      (path : String) → MakesIds → Ensures IsIdentified (get_or_create_config_file w lib path)
  unfolding get_or_create_config_file
  get_or_create-IsIdentified path makes =
      finally IsIdentified (try (load_config_from_file w lib path)) _ (λ loaded.
        finally IsIdentified (or_create w lib path loaded) _
          (λ cfg. choice-IsIdentified path cfg makes (cfg.analytics_id == nil_uuid) refl))

  -- The client of a configuration file, or of none.
  chosen :
      (r : Result Config × List Call)
      → ((c : Config) → r.0 ≡ ok c → (c.analytics_id == nil_uuid) ≡ false)
      → (ok (client_of w lib r.0) ≡ ok noop)
        ⊎ ((c : Config) × (ok (client_of w lib r.0) ≡ ok (segment c))
            × ((c.analytics_id == nil_uuid) ≡ false))
  chosen (err e, s) given = inl refl
  chosen (ok c, s) given = inr (c, refl, given c refl)

  -- Get never fails; and if it gives a client that reports, that client has an identifier, provided
  -- that the generator gives no nil UUID.
  pub get_client_identified :
      (env : Surroundings) (cfg : GetConfig) (calls : List Call)
      → MakesIds
      → ((get_client w lib env none cfg calls).0 ≡ ok noop)
        ⊎ ((c : Config) × ((get_client w lib env none cfg calls).0 ≡ ok (segment c))
            × ((c.analytics_id == nil_uuid) ≡ false))
  unfolding get_client and_then
  get_client_identified env cfg calls makes = elim (Bool-cases (cfg.dnt || env.do_not_track)) [
    | inl set ↦ rw set (inl refl)
    | inr unset ↦
        let path =
          env.config_path (if is_empty cfg.user_home then env.user_home_dir else cfg.user_home) in
        rw unset (
          chosen (get_or_create_config_file w lib path calls)
            (get_or_create-IsIdentified path makes calls))
  ]
