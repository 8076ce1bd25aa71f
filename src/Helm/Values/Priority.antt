-- ===== src/Helm/Values/Priority.antt =====
-- The user's values have priority over the values that the code sets.
use mathlib.Core.Path.{subst}
use mathlib.Core.Option
use abctl.Common.{
  String, false, Option, some, List, ◌≡◌, refl, sym, ap, if◌then◌else◌, Bool-cases, inl, inr,
  Result, ok, err, wrap, wrap-eq-ok, ok-injective, ◌∙◌, arith, ◌≤◌, ℕ, ℤ, pos, negsuc,
}
use abctl.Maps.{Value, obj, Fields, from_slice, merge, YamlIo, from_yaml_file, to_yaml, at}
use abctl.Maps.Lookup.{IsUnique}
use abctl.Maps.Merging.{IsLeaf, Misses, at-merge_override, at-merge_base}
use abctl.Helm.Values.{
  ValuesOpts, values_v1, values_v2, port_out_of_range, merge_values_with_values_yaml,
  with_file_values, build_airbyte_values_v1, build_airbyte_values_v2, build_airbyte_values,
}
use abctl.Helm.Semver.{Semver}
use abctl.Helm.Chart.{chart_is_v2_plus}

-- `out` is the text of a merge of `defaults` with the values of the user's file: at each path where
-- the file has a value that is no map, the merge has this value; at each path that leaves the file's
-- values at a missing key, it has what `defaults` has.
pub record IsUserFirst (io : YamlIo) (file : String) (defaults : List String) (out : String)
    : Type 0 where
  pub user : Fields
  pub builtin : Fields
  pub whole : Fields
  pub user_read : from_yaml_file io file ≡ ok user
  pub builtin_set : from_slice defaults ≡ some builtin
  pub printed : io.marshal whole ≡ ok out
  pub user_wins :
      (keys : List String) (v : Value)
      → IsLeaf v
      → at keys (obj user) ≡ some v
      → at keys (obj whole) ≡ some v
  pub builtin_stays :
      (keys : List String) → Misses keys (obj user) → at keys (obj whole) ≡ at keys (obj builtin)

-- The YAML library yields maps that repeat no key.
abbrev pub YieldsUnique : YamlIo → Type 0
YieldsUnique io = (path : String) (m : Fields) → from_yaml_file io path ≡ ok m → IsUnique m

port_in_range :
    (p : ℤ) → port_out_of_range p ≡ false → (n : ℕ) × (p ≡ pos n) × (1 ≤ n) × (n ≤ 65535)
unfolding port_out_of_range
port_in_range (pos n) h = (n, refl, ground arith, ground arith)
port_in_range (negsuc n) h = cc

module _ (io : YamlIo) where
  -- What a printed result was merged from.
  with_file_values-inv :
      (defaults : List String) (read : Result Fields) {out : String}
      → with_file_values io defaults read ≡ some (ok out)
      → (user : Fields) × (builtin : Fields) × (read ≡ ok user)
        × (from_slice defaults ≡ some builtin)
        × (io.marshal (merge builtin user) ≡ ok out)
  unfolding with_file_values merge_values_with_values_yaml to_yaml
  with_file_values-inv defaults (err bad) e = let wrong = Option.some-injective _ _ e in cc
  with_file_values-inv defaults (ok user) e =
      let (builtin, set, printed) = (Option.map-eq-some_iff _ (from_slice defaults)).0 e in
      (user, builtin, refl, set, wrap-eq-ok _ _ (wrap-eq-ok _ _ printed))

  with_file_values-IsUserFirst :
      YieldsUnique io
      → (file : String) (defaults : List String) {out : String}
      → with_file_values io defaults (from_yaml_file io file) ≡ some (ok out)
      → IsUserFirst io file defaults out
  with_file_values-IsUserFirst unique file defaults e =
      let (user, builtin, user_read, set, printed) =
        with_file_values-inv defaults (from_yaml_file io file) e in
      record {
        user = user;
        builtin = builtin;
        whole = merge builtin user;
        user_read = user_read;
        builtin_set = set;
        printed = printed;
        user_wins = λ keys v leaf found.
            at-merge_override keys builtin user v (unique file user user_read) leaf found;
        builtin_stays =
            λ keys missed. at-merge_base keys builtin user (unique file user user_read) missed;
      }

  -- For a v1 chart the printed values are the user's over the built-in ones, if the YAML library
  -- yields maps that repeat no key.
  pub build_airbyte_values_v1-IsUserFirst :
      YieldsUnique io
      → (opts : ValuesOpts) (out : String) → build_airbyte_values_v1 io opts ≡ some (ok out)
      → IsUserFirst io opts.values_file (values_v1 opts) out
  unfolding build_airbyte_values_v1
  build_airbyte_values_v1-IsUserFirst unique opts out e =
      with_file_values-IsUserFirst unique opts.values_file (values_v1 opts) e

  -- So they are for a v2 chart, and the port is then between 1 and 65535.
  pub build_airbyte_values_v2-IsUserFirst :
      YieldsUnique io
      → (opts : ValuesOpts) (out : String) → build_airbyte_values_v2 io opts ≡ some (ok out)
      → IsUserFirst io opts.values_file (values_v2 opts) out
        × ((n : ℕ) × (opts.port ≡ pos n) × (1 ≤ n) × (n ≤ 65535))
  unfolding build_airbyte_values_v2
  build_airbyte_values_v2-IsUserFirst unique opts out e =
      elim (Bool-cases (port_out_of_range opts.port)) [
        | inl bad ↦
            let no : ◌≡◌ {A = Option (Result String)} (some (err _)) (some (ok out)) =
              rw bad at e in
            let differ = Option.some-injective _ _ no in cc
        | inr good ↦ (
          with_file_values-IsUserFirst unique opts.values_file (values_v2 opts) (rw good at e),
          port_in_range opts.port good,
        )
      ]

  -- The settings that the code makes for a chart version.
  abbrev pub values_for : Semver → ValuesOpts → String → List String
  values_for sv opts version =
      if chart_is_v2_plus sv version then values_v2 opts else values_v1 opts

  unwrapped :
      (before : String) (o : Option (Result String)) {out : String}
      → Option.map (wrap before) o ≡ some (ok out)
      → o ≡ some (ok out)
  unwrapped before o h =
      let (r, there, same) = (Option.map-eq-some_iff _ o).0 h in
      there ∙ ap (λ (x : Result String). some x) (wrap-eq-ok before r same)

  build_airbyte_values-IsUserFirst :
      (sv : Semver)
      → YieldsUnique io
      → (opts : ValuesOpts) (version out : String)
      → build_airbyte_values io sv opts version ≡ some (ok out)
      → IsUserFirst io opts.values_file (values_for sv opts version) out
  unfolding build_airbyte_values
  build_airbyte_values-IsUserFirst sv unique opts version out e =
      elim (Bool-cases (chart_is_v2_plus sv version)) [
        | inl new ↦
            rw new (
              (build_airbyte_values_v2-IsUserFirst unique opts out (unwrapped _ _ (rw new at e))).0)
        | inr old ↦
            rw old
              (build_airbyte_values_v1-IsUserFirst unique opts out (unwrapped _ _ (rw old at e)))
      ]

  -- The values that are printed for the chart are of a map that has, wherever the user's file has a
  -- value that is no map, this value, at any depth. The YAML library yields maps that repeat no key.
  pub values_user_first :
      (sv : Semver) (opts : ValuesOpts) (version out : String) (keys : List String) (v : Value)
      (user : Fields)
      → YieldsUnique io
      → build_airbyte_values io sv opts version ≡ some (ok out)
      → from_yaml_file io opts.values_file ≡ ok user
      → IsLeaf v
      → at keys (obj user) ≡ some v
      → (whole : Fields) × (io.marshal whole ≡ ok out) × (at keys (obj whole) ≡ some v)
  values_user_first sv opts version out keys v user unique e read leaf found =
      let r = build_airbyte_values-IsUserFirst sv unique opts version out e in
      let same : user ≡ r.user = ok-injective (sym read ∙ r.user_read) in
      (
        r.whole,
        r.printed,
        r.user_wins keys v leaf (subst (λ (u : Fields). at keys (obj u) ≡ some v) same found),
      )

  -- Where a path leaves the user's values at a missing key, the printed map has what the settings of
  -- the code for this chart version have there. The YAML library yields maps that repeat no key.
  pub values_builtin_stay :
      (sv : Semver) (opts : ValuesOpts) (version out : String) (keys : List String) (user : Fields)
      → YieldsUnique io
      → build_airbyte_values io sv opts version ≡ some (ok out)
      → from_yaml_file io opts.values_file ≡ ok user
      → Misses keys (obj user)
      → (whole : Fields) × (builtin : Fields) × (io.marshal whole ≡ ok out)
        × (from_slice (values_for sv opts version) ≡ some builtin)
        × (at keys (obj whole) ≡ at keys (obj builtin))
  values_builtin_stay sv opts version out keys user unique e read missed =
      let r = build_airbyte_values-IsUserFirst sv unique opts version out e in
      let same : user ≡ r.user = ok-injective (sym read ∙ r.user_read) in
      (
        r.whole,
        r.builtin,
        r.printed,
        r.builtin_set,
        r.builtin_stays keys (subst (λ (u : Fields). Misses keys (obj u)) same missed),
      )
