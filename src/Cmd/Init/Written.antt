-- ===== src/Cmd/Init/Written.antt =====
-- What the init command has written when it succeeds.
use abctl.Common.{
  String, ℕ, Bool, true, false, List, [], ◌∷◌, is_empty, Bool-cases, inl, inr, ◌⊎◌, Error, errorf,
  has_suffix, Result, ok, ok-injective, err, ◌≡◌, refl, sym,
}
use abctl.Effects.{Call, World, ConfigMap, and_then, with_error, from_result, perform}
use abctl.Effects.Invariants.{Ensures, finally, with_error-ok, >>=-ok}
use mathlib.Core.Path.{subst}
use abctl.Common.Dict.{lookup}
use abctl.K8s.Client.{
  Config, abctl_config_from_data, config_of_config_map, config_from_keys, text_at,
}
use abctl.Cmd.Init.{
  InitCmd, abctl_config_map, is_in_the_way, after_create, write_config_map, store_config,
  source_name, find_airbyte_env_config_map, airbyte_env_name,
}

-- What init writes is read back as the configuration that it was made from, when the two required
-- texts are not empty.
config_of-abctl_config_map :
    (namespace source now : String) (config : Config)
    → is_empty config.airbyte_api_host ≡ false
    → is_empty config.airbyte_url ≡ false
    → config_of_config_map (abctl_config_map namespace source config now).data_of ≡ ok config
unfolding config_of_config_map config_from_keys abctl_config_map lookup
config_of-abctl_config_map namespace source now config has_host has_url =
    rw (has_host, has_url) refl

-- A configuration that is read from the variables of Airbyte has its two required texts.
from_data-required :
    (data_of : List (String × String)) (config : Config)
    → abctl_config_from_data data_of ≡ ok config
    → (is_empty config.airbyte_api_host ≡ false) × (is_empty config.airbyte_url ≡ false)
unfolding abctl_config_from_data config_from_keys
from_data-required data_of config h =
    elim (Bool-cases (is_empty (text_at "AIRBYTE_API_HOST" data_of))) [
      | inl no_host ↦ let bad = rw no_host at h in cc
      | inr host ↦ elim (Bool-cases (is_empty (text_at "AIRBYTE_URL" data_of))) [
        | inl no_url ↦ let bad = rw (host, no_url) at h in cc
        | inr url ↦
            subst (λ c. (is_empty c.airbyte_api_host ≡ false) × (is_empty c.airbyte_url ≡ false))
              (ok-injective (rw (host, url) at h)) (host, url)
      ]
    ]

-- The source is the ConfigMap that was named, or one whose name ends in "-airbyte-env".
abbrev pub IsSource : String → String → Type 0
IsSource from_configmap source =
    (source ≡ from_configmap) ⊎ (has_suffix source "-airbyte-env" ≡ true)

module _ (w : World) (rfc3339 : ℕ → String) where
  -- The cluster took the ConfigMap in the latest call: it was created, or, if init is forced and the
  -- creation failed, updated.
  pub data IsPut (force : Bool) (cm : ConfigMap) : List Call → Type 0 where
    created :
        {earlier : List Call}
        → w.ask earlier (Call.config_map_create cm) ≡ ok tt
        → IsPut force cm (Call.config_map_create cm ∷ earlier)
    updated :
        {earlier : List Call} (e : Error)
        → force ≡ true
        → w.ask earlier (Call.config_map_create cm) ≡ err e
        → w.ask (Call.config_map_create cm ∷ earlier) (Call.config_map_update cm) ≡ ok tt
        → IsPut force cm (Call.config_map_update cm ∷ Call.config_map_create cm ∷ earlier)

  after_create-IsPut :
      (force : Bool) (cm : ConfigMap) (earlier : List Call) (r : Result (Unit {0})) (x : Unit {0})
      → w.ask earlier (Call.config_map_create cm) ≡ r
      → (after_create w rfc3339 force cm r (Call.config_map_create cm ∷ earlier)).0 ≡ ok x
      → IsPut force cm (after_create w rfc3339 force cm r (Call.config_map_create cm ∷ earlier)).1
  unfolding after_create
  after_create-IsPut force cm earlier (ok x) y answered h = created answered
  after_create-IsPut true cm earlier (err e) y answered h = updated e refl answered (
      with_error-ok _ (perform w (Call.config_map_update cm)) (Call.config_map_create cm ∷ earlier)
        h)
  after_create-IsPut false cm earlier (err e) y answered h = cc

  write_config_map-IsPut :
      (force : Bool) (cm : ConfigMap)
      → Ensures (λ (x : Unit {0}) s. IsPut force cm s) (write_config_map w rfc3339 force cm)
  unfolding write_config_map and_then
  write_config_map-IsPut force cm s x h =
      after_create-IsPut force cm s (w.ask s (Call.config_map_create cm)) x refl h

  -- The ConfigMap of abctl could not be got from the namespace, or init is forced.
  abbrev pub IsFree : Bool → String → Type 0
  IsFree force namespace =
      (force ≡ true)
      ⊎ ((earlier : List Call) × (e : Error) × (w.ask earlier
              (Call.config_map_get namespace "abctl")
            ≡ err e))

  -- The cluster took, in the latest call, the ConfigMap of a configuration that the source's ConfigMap
  -- holds; and that configuration is what is read back from it.
  pub record IsInitialized (c : InitCmd) (namespace : String) (calls : List Call) : Type 0 where
    pub source : String
    pub chosen : IsSource c.from_configmap source
    pub config : Config
    pub data_of : List (String × String)
    pub now : String
    pub before : List Call
    pub read : w.ask before (Call.config_map_get namespace source) ≡ ok data_of
    pub extracted : abctl_config_from_data data_of ≡ ok config
    pub put : IsPut c.force (abctl_config_map namespace source config now) calls
    pub read_back :
        config_of_config_map (abctl_config_map namespace source config now).data_of ≡ ok config
    pub free : IsFree c.force namespace

  not_in_the_way :
      (force : Bool) (namespace : String) (s : List Call) (r : Result (List (String × String)))
      → w.ask s (Call.config_map_get namespace "abctl") ≡ r
      → is_in_the_way force r ≡ false
      → IsFree force namespace
  unfolding is_in_the_way
  not_in_the_way true namespace s r answered h = inl refl
  not_in_the_way false namespace s (ok x) answered h = cc
  not_in_the_way false namespace s (err e) answered h = inr (s, e, answered)

  airbyte_env_name-ok :
      (namespace : String) (items : List ConfigMap) (source : String)
      → airbyte_env_name namespace items ≡ ok source
      → has_suffix source "-airbyte-env" ≡ true
  unfolding airbyte_env_name
  airbyte_env_name-ok namespace [] source h = cc
  airbyte_env_name-ok namespace (cm ∷ items) source h =
      elim (Bool-cases (has_suffix cm.name "-airbyte-env")) [
        | inl ends ↦
            subst (λ n. has_suffix n "-airbyte-env" ≡ true) (ok-injective (rw ends at h)) ends
        | inr other ↦ airbyte_env_name-ok namespace items source (rw other at h)
      ]

  found_name-ends :
      (namespace : String)
      → Ensures
          (λ source s. has_suffix source "-airbyte-env" ≡ true)
          (find_airbyte_env_config_map w rfc3339 namespace)
  unfolding find_airbyte_env_config_map
  found_name-ends namespace =
      finally (λ source s. has_suffix source "-airbyte-env" ≡ true)
        (with_error (λ e. errorf "failed to list ConfigMaps: " e "")
          (perform w (Call.config_map_list namespace)))
        (λ items. from_result (airbyte_env_name namespace items))
        (λ items s source h. airbyte_env_name-ok namespace items source h)

  pub source_name-IsSource :
      (namespace from_configmap : String)
      → Ensures
          (λ source s. IsSource from_configmap source)
          (source_name w rfc3339 namespace from_configmap)
  unfolding source_name
  source_name-IsSource namespace from_configmap s source h =
      elim (Bool-cases (is_empty from_configmap)) [
        | inl missing ↦ inr (
            found_name-ends namespace s source (
              with_error-ok _ (find_airbyte_env_config_map w rfc3339 namespace) s
                (rw missing at h)))
        | inr given ↦ inl (sym (ok-injective (rw given at h)))
      ]

  pub store_config-IsInitialized :
      (c : InitCmd) (namespace source : String) (config : Config) (before : List Call)
      (data_of : List (String × String))
      → IsSource c.from_configmap source
      → w.ask before (Call.config_map_get namespace source) ≡ ok data_of
      → abctl_config_from_data data_of ≡ ok config
      → Ensures
          (λ (x : Unit {0}) s. IsInitialized c namespace s)
          (store_config w rfc3339 c.force namespace source config)
  unfolding store_config and_then
  store_config-IsInitialized c namespace source config before data_of chosen read extracted s x h =
      elim (Bool-cases (is_in_the_way c.force (w.ask s (Call.config_map_get namespace "abctl")))) [
        | inl blocked ↦ let bad = rw blocked at h in cc
        | inr clear ↦
            let (now, got, same) =
              >>=-ok (perform w Call.time_now)
                (λ now.
                  write_config_map w rfc3339 c.force
                    (abctl_config_map namespace source config (rfc3339 now)))
                (Call.config_map_get namespace "abctl" ∷ s) (rw clear at h) in
            rw (clear, same)
              (record {
                source = source;
                chosen = chosen;
                config = config;
                data_of = data_of;
                now = rfc3339 now;
                before = before;
                read = read;
                extracted = extracted;
                put = write_config_map-IsPut c.force _ _ x (rw (clear, same) at h);
                read_back =
                    let required = from_data-required data_of config extracted in
                    config_of-abctl_config_map namespace source (rfc3339 now) config required.0
                      required.1;
                free = not_in_the_way c.force namespace s _ refl clear;
              })
      ]
