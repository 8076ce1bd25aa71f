-- ===== src/Helm/Values/Tests.antt =====
-- Examples of the theorems on the values.
use Prim.Native.Nat.{Ordering}
use mathlib.Core.Option
use mathlib.Core.Path.{subst}
use abctl.Common.{
  String, true, false, ◌==◌, Bool-cases, inl, inr, some, pos, [], ◌∷◌, ◌≡◌, refl, ok, ok-injective,
  cut, split, has_prefix,
}
use abctl.Maps.{
  str, obj, Fields, end, field, get, put, merge, from_slice, at, YamlIo, from_yaml_file, to_yaml,
}
use abctl.Maps.Lookup.{IsUnique}
use abctl.Maps.Merging.{Misses}
use abctl.Helm.Semver.{Semver}
use abctl.Helm.Chart.{chart_is_v2_plus}
use abctl.Helm.Values.{
  ValuesOpts, values_v1, values_v2, build_airbyte_values, build_airbyte_values_v2, with_file_values,
  merge_values_with_values_yaml, port_out_of_range,
}
use abctl.Helm.Values.Priority.{YieldsUnique, values_for, values_user_first, values_builtin_stay}
use abctl.Helm.Values.Defaults.{IsBuiltin, values_IsBuiltin}

abbrev ties : Semver
ties = record { compare = λ v w. Ordering.eq; is_valid = λ v. true; prerelease = λ v. "" }

-- Every file holds these values, and every map prints alike.
abbrev user_values : Fields
user_values = field "global" (obj (field "edition" (str "enterprise") end)) end

abbrev one_file : YamlIo
one_file = record {
  read_file = λ path. ok "global: {edition: enterprise}";
  unmarshal = λ s. ok (some user_values);
  marshal = λ m. ok "printed";
}

abbrev opts : ValuesOpts
opts = record {
  values_file = "values.yaml";
  low_resource_mode = true;
  insecure_cookies = false;
  telemetry_user = "user";
  image_pull_secret = "";
  disable_auth = false;
  local_storage = true;
  enable_psql17 = true;
  port = pos 8000;
}

user_values-IsUnique : IsUnique user_values
unfolding get
user_values-IsUnique = (refl, (refl, tt, tt), tt)

one_file-YieldsUnique : YieldsUnique one_file
unfolding from_yaml_file
one_file-YieldsUnique path m h = elim (Bool-cases (path == "")) [
  | inl no_file ↦ subst IsUnique (ok-injective (rw no_file at h)) tt
  | inr given ↦ subst IsUnique (ok-injective (rw given at h)) user_values-IsUnique
]

abbrev printed : String
printed = "printed"

values_built : build_airbyte_values one_file ties opts "2.0.0" ≡ some (ok printed)
unfolding build_airbyte_values build_airbyte_values_v2 with_file_values
    merge_values_with_values_yaml port_out_of_range to_yaml from_yaml_file values_v2 from_slice
    merge put get cut split Option.bind has_prefix chart_is_v2_plus
values_built = refl

user_read : from_yaml_file one_file opts.values_file ≡ ok user_values
unfolding from_yaml_file
user_read = refl

edition_found : at ("global" ∷ "edition" ∷ []) (obj user_values) ≡ some (str "enterprise")
unfolding at get
edition_found = refl

values_user_first_example :
    (whole : Fields) × (one_file.marshal whole ≡ ok printed)
    × (at ("global" ∷ "edition" ∷ []) (obj whole) ≡ some (str "enterprise"))
values_user_first_example =
    values_user_first one_file ties opts "2.0.0" printed ("global" ∷ "edition" ∷ [])
      (str "enterprise") user_values one_file-YieldsUnique values_built user_read tt edition_found

auth_missed : Misses ("global" ∷ "auth" ∷ "enabled" ∷ []) (obj user_values)
unfolding get
auth_missed = tt

values_builtin_stay_example :
    (whole : Fields) × (builtin : Fields) × (one_file.marshal whole ≡ ok printed)
    × (from_slice (values_for one_file ties opts "2.0.0") ≡ some builtin)
    × (at ("global" ∷ "auth" ∷ "enabled" ∷ []) (obj whole)
        ≡ at ("global" ∷ "auth" ∷ "enabled" ∷ []) (obj builtin))
values_builtin_stay_example =
    values_builtin_stay one_file ties opts "2.0.0" printed ("global" ∷ "auth" ∷ "enabled" ∷ [])
      user_values one_file-YieldsUnique values_built user_read auth_missed

values_IsBuiltin_example : IsBuiltin opts (values_v1 opts) × IsBuiltin opts (values_v2 opts)
values_IsBuiltin_example = values_IsBuiltin opts
