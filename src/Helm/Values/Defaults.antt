-- ===== src/Helm/Values/Defaults.antt =====
-- The values that the code sets, for every choice of options.
use mathlib.Core.Option
use Prim.Native.String.{[], ◌∷◌}
use abctl.Common.{
  String, ℕ, zero, suc, Bool, true, false, not, ◌&&◌, Option, none, some, List, [], ◌∷◌, ◌≡◌, ◌≢◌,
  refl, ℤ, cut, split, arith, is_empty, length, Result, ok, err,
}
use abctl.Maps.{Value, bool, obj, Fields, get, put, at, from_slice, YamlIo, from_yaml_file}
use abctl.Helm.Semver.{Semver}
use abctl.Helm.Values.{
  ValuesOpts, values_v1, values_v2, with_file_values, merge_values_with_values_yaml,
  build_airbyte_values_v1, build_airbyte_values_v2, build_airbyte_values,
}

-- A test passed by every list of `n` Booleans.
all_switches : ℕ → (List Bool → Bool) → Bool
all_switches zero p = p []
all_switches (suc n) p = all_switches n (λ v. p (true ∷ v)) && all_switches n (λ v. p (false ∷ v))

all_switches_sound :
    (n : ℕ) (p : List Bool → Bool) (v : List Bool)
    → all_switches n p ≡ true
    → length v ≡ n
    → p v ≡ true
unfolding all_switches
all_switches_sound zero p [] h e = h
all_switches_sound zero p (b ∷ v) h e = absurd (omega arith)
all_switches_sound (suc n) p [] h e = absurd (omega arith)
all_switches_sound (suc n) p (true ∷ v) h e =
    all_switches_sound n (λ w. p (true ∷ w)) v (ground arith) (omega arith)
all_switches_sound (suc n) p (false ∷ v) h e =
    all_switches_sound n (λ w. p (false ∷ w)) v (ground arith) (omega arith)

-- The options with their switches in a list.
abbrev with_switches : ValuesOpts → List Bool → ValuesOpts
with_switches opts (low ∷ insecure ∷ disable ∷ local ∷ psql ∷ []) = record opts {
  low_resource_mode = low;
  insecure_cookies = insecure;
  disable_auth = disable;
  local_storage = local;
  enable_psql17 = psql;
}
with_switches opts _ = opts

abbrev switches : ValuesOpts → List Bool
switches opts =
    opts.low_resource_mode ∷ opts.insecure_cookies ∷ opts.disable_auth ∷ opts.local_storage
    ∷ opts.enable_psql17 ∷ []

abbrev is_true : Option Value → Bool
is_true (some (bool b)) = b
is_true _ = false

abbrev is_missing : Option Value → Bool
is_missing none = true
is_missing (some v) = false

abbrev same : Bool → Bool → Bool
same true b = b
same false b = not b

-- What is tested of the settings: they do not panic; authentication is on exactly if it was not
-- disabled; no list of pull secrets is set; and a pull secret is set below the key
-- "imagePullSecrets[0]" exactly if one is given.
abbrev auth_test : ValuesOpts → Fields → Bool
auth_test opts m =
    same (not opts.disable_auth) (is_true (at ("global" ∷ "auth" ∷ "enabled" ∷ []) (obj m)))

abbrev no_list_test : Fields → Bool
no_list_test m = is_missing (at ("global" ∷ "imagePullSecrets" ∷ []) (obj m))

abbrev index_test : ValuesOpts → Fields → Bool
index_test opts m =
    same (is_empty opts.image_pull_secret)
      (is_missing (at ("global" ∷ "imagePullSecrets[0]" ∷ "name" ∷ []) (obj m)))

abbrev is_sound : ValuesOpts → Option Fields → Bool
is_sound opts none = false
is_sound opts (some m) = (auth_test opts m && no_list_test m) && index_test opts m

abbrev passes : (ValuesOpts → List String) → ValuesOpts → Bool
passes values opts = is_sound opts (from_slice (values opts))

module _ (f u : String) (p : ℤ) where
  abbrev some_opts : String → ValuesOpts
  some_opts secret = record {
    values_file = f;
    low_resource_mode = false;
    insecure_cookies = false;
    telemetry_user = u;
    image_pull_secret = secret;
    disable_auth = false;
    local_storage = false;
    enable_psql17 = false;
    port = p;
  }

  v1_table :
      (secret : String)
      → all_switches 5 (λ v. passes values_v1 (with_switches (some_opts secret) v)) ≡ true
  unfolding all_switches values_v1 from_slice at cut split Option.bind get put
  v1_table [] = refl
  v1_table (c ∷ s) = refl

  v2_table :
      (secret : String)
      → all_switches 5 (λ v. passes values_v2 (with_switches (some_opts secret) v)) ≡ true
  unfolding all_switches values_v2 from_slice at cut split Option.bind get put
  v2_table [] = refl
  v2_table (c ∷ s) = refl

abbrev base_opts : ValuesOpts → ValuesOpts
base_opts opts = some_opts opts.values_file opts.telemetry_user opts.port opts.image_pull_secret

values_v1_pass : (opts : ValuesOpts) → passes values_v1 opts ≡ true
values_v1_pass opts =
    all_switches_sound 5 (λ v. passes values_v1 (with_switches (base_opts opts) v)) (switches opts)
      (v1_table opts.values_file opts.telemetry_user opts.port opts.image_pull_secret) refl

values_v2_pass : (opts : ValuesOpts) → passes values_v2 opts ≡ true
values_v2_pass opts =
    all_switches_sound 5 (λ v. passes values_v2 (with_switches (base_opts opts) v)) (switches opts)
      (v2_table opts.values_file opts.telemetry_user opts.port opts.image_pull_secret) refl

-- What the settings of a version are, as statements.
pub record IsBuiltin (opts : ValuesOpts) (values : List String) : Type 0 where
  pub builtin : Fields
  pub set : from_slice values ≡ some builtin
  pub auth_enabled :
      is_true (at ("global" ∷ "auth" ∷ "enabled" ∷ []) (obj builtin)) ≡ not opts.disable_auth
  pub no_pull_secrets : at ("global" ∷ "imagePullSecrets" ∷ []) (obj builtin) ≡ none
  pub literal_index :
      is_missing (at ("global" ∷ "imagePullSecrets[0]" ∷ "name" ∷ []) (obj builtin))
      ≡ is_empty opts.image_pull_secret

same-eq : (a b : Bool) → same a b ≡ true → b ≡ a
same-eq true b h = h
same-eq false true h = cc
same-eq false false h = refl

is_missing-eq : (o : Option Value) → is_missing o ≡ true → o ≡ none
is_missing-eq none h = refl
is_missing-eq (some v) h = cc

and-eq : (a b : Bool) → (a && b) ≡ true → (a ≡ true) × (b ≡ true)
and-eq a b h = ground arith

passes-IsBuiltin :
    (opts : ValuesOpts) (values : List String) (o : Option Fields)
    → from_slice values ≡ o
    → is_sound opts o ≡ true
    → IsBuiltin opts values
passes-IsBuiltin opts values none e h = cc
passes-IsBuiltin opts values (some m) e h =
    let (both, index) = and-eq (auth_test opts m && no_list_test m) (index_test opts m) h in
    let (auth, gone) = and-eq (auth_test opts m) (no_list_test m) both in
    record {
      builtin = m;
      set = e;
      auth_enabled = same-eq (not opts.disable_auth) _ auth;
      no_pull_secrets = is_missing-eq _ gone;
      literal_index = same-eq (is_empty opts.image_pull_secret) _ index;
    }

-- For every choice of options, the settings of both chart versions are built without a panic. They
-- enable authentication exactly if it is not disabled. The key global.imagePullSecrets is never
-- set: a pull secret stands below the key "imagePullSecrets[0]", exactly if one is given.
pub values_IsBuiltin :
    (opts : ValuesOpts) → IsBuiltin opts (values_v1 opts) × IsBuiltin opts (values_v2 opts)
values_IsBuiltin opts = (
  passes-IsBuiltin opts (values_v1 opts) _ refl (values_v1_pass opts),
  passes-IsBuiltin opts (values_v2 opts) _ refl (values_v2_pass opts),
)

module _ (io : YamlIo) where
  with_file_values-ne-none :
      (vals : List String) {m : Fields} (read : Result Fields)
      → from_slice vals ≡ some m
      → with_file_values io vals read ≢ none
  unfolding with_file_values merge_values_with_values_yaml
  with_file_values-ne-none vals (err e) set h = cc
  with_file_values-ne-none vals (ok user) set h = let bad = rw set at h in cc

  -- Building the values never panics, for either chart version.
  pub build_airbyte_values_total :
      (sv : Semver) (opts : ValuesOpts) (chart_version : String)
      → build_airbyte_values io sv opts chart_version ≢ none
  unfolding build_airbyte_values build_airbyte_values_v1 build_airbyte_values_v2
  build_airbyte_values_total sv opts chart_version h =
      let (v1, v2) = values_IsBuiltin opts in
      ground (
        arith,
        with_file_values-ne-none (values_v1 opts) (from_yaml_file io opts.values_file) v1.set,
        with_file_values-ne-none (values_v2 opts) (from_yaml_file io opts.values_file) v2.set,
      )
