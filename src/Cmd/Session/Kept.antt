-- ===== src/Cmd/Session/Kept.antt =====
-- What login, logout and the check of the directory leave behind.
use abctl.Common.{
  String, Bool, true, leb, List, ◌∷◌, is_empty, Bool-cases, inl, inr, ◌⊎◌, Error, Result, ok,
  ok-injective, err, ◌≡◌, refl,
}
use abctl.Effects.{Call, World, Secret, FileInfo, and_then, with_error, from_result, perform}
use abctl.Effects.Invariants.{
  Ensures, finally, finally_with, else-Ensures, with_error-ok, with_error-Ensures,
}
use mathlib.Core.Path.{subst}
use abctl.K8s.Client.{secret_get, secret_create_or_update, get_abctl_config, is_abctl_initialized}
use abctl.K8s.Client.Secrets.{IsWritten, secret_create_or_update-IsWritten}
use abctl.Service.Setup.{default_k8s}
use abctl.Auth.{Credentials, Provider}
use abctl.Auth.Refresh.{CredentialsJson, credentials_secret, default_client_id, discover_provider}
use abctl.Auth.Flow.{Event, authenticate}
use abctl.Cmd.Init.{namespace_of}
use abctl.Cmd.Init.Whole.{namespace_of-ok}
use abctl.Cmd.Session.{
  LoginCmd, new_flow, opened, login_store, login_at, login, not_logged_in, logout, fix_airbyte_dir,
  check_airbyte_dir,
}

module _ (w : World) where
  -- The namespace that a command was given, if it was given one.
  abbrev pub IsNamed : String → String → Type 0
  IsNamed given namespace = (is_empty given ≡ true) ⊎ (namespace ≡ given)

  opened-IsNamed :
      (given : String) → Ensures (λ namespace s. IsNamed given namespace) (opened w given)
  unfolding opened
  opened-IsNamed given =
      let Q = λ (namespace : String) (s : List Call). IsNamed given namespace in
      finally_with Q (namespace_of w "failed to get namespace from current context: " given) _
        (λ s namespace named. finally Q (with_error _ (default_k8s w "" "")) _ (λ x.
          finally Q (is_abctl_initialized w namespace) _ (λ y s' n h.
            subst (IsNamed given) (ok-injective h) (namespace_of-ok w _ given s namespace named))))

  -- The latest call removed the credentials, after the secret was got.
  pub record IsRemoved (patch : Result String) (namespace : String) (calls : List Call)
      : Type 0 where
    pub secret : Secret
    pub data_of : String
    pub before : List Call
    pub earlier : List Call
    pub got : w.ask before (Call.secret_get namespace "abctl-auth") ≡ ok secret
    pub encoded : patch ≡ ok data_of
    pub latest : calls ≡ Call.secret_patch namespace "abctl-auth" data_of ∷ earlier
    pub answered : w.ask earlier (Call.secret_patch namespace "abctl-auth" data_of) ≡ ok tt

  -- A logout that succeeds has found the secret abctl-auth in the namespace that it was given, if it
  -- was given one, and its latest call is the patch of that secret, which the cluster took.
  pub logout-IsRemoved :
      (patch : Result String) (given : String) (calls : List Call)
      → (logout w patch given calls).0 ≡ ok tt
      → (namespace : String) × IsNamed given namespace
        × IsRemoved patch namespace (logout w patch given calls).1
  unfolding logout secret_get
  logout-IsRemoved patch given calls h =
      let Q = λ (x : Unit {0}) (s : List Call).
        (namespace : String) × IsNamed given namespace × IsRemoved patch namespace s in
      finally_with Q (opened w given) _
        (λ s namespace found.
          finally_with Q
            (with_error (not_logged_in w namespace) (secret_get w namespace "abctl-auth")) _
            (λ s' secret got.
              finally_with Q (with_error _ (from_result patch)) _ (λ s'' data_of encoded s3 x done.
                (
                  namespace,
                  opened-IsNamed given s namespace found,
                  record {
                    secret = secret;
                    data_of = data_of;
                    before = s';
                    earlier = s3;
                    got = with_error-ok _ (perform w (Call.secret_get namespace "abctl-auth")) s' (
                        with_error-ok (not_logged_in w namespace)
                          (secret_get w namespace "abctl-auth") s' got);
                    encoded = with_error-ok _ (from_result patch) s'' encoded;
                    latest = refl;
                    answered =
                        with_error-ok _
                          (perform w (Call.secret_patch namespace "abctl-auth" data_of)) s3 done;
                  },
                ))))
        calls tt h

  module _ (json : CredentialsJson) (state code_verifier : String) (event : Event) where
    -- The credentials that some exchange gave are what the cluster holds.
    pub record IsLoggedIn (c : LoginCmd) (namespace : String) (calls : List Call) : Type 0 where
      pub provider : Provider
      pub creds : Credentials
      pub cred_data : String
      pub before : List Call
      pub authenticated :
          (authenticate w
            (new_flow state code_verifier provider default_client_id c.callback_port)
            event
            before).0
          ≡ ok creds
      pub encoded : json.to_json creds ≡ ok cred_data
      pub written : IsWritten w (credentials_secret namespace cred_data) calls

    login_store-IsWritten :
        (namespace : String) (creds : Credentials)
        → Ensures
            (λ (x : Unit {0}) s.
              (cred_data : String) × (json.to_json creds ≡ ok cred_data)
              × IsWritten w (credentials_secret namespace cred_data) s)
            (login_store w json state code_verifier event namespace creds)
    unfolding login_store
    login_store-IsWritten namespace creds =
        let Q = λ (x : Unit {0}) (s : List Call).
          (cred_data : String) × (json.to_json creds ≡ ok cred_data)
          × IsWritten w (credentials_secret namespace cred_data) s in
        finally_with Q (with_error _ (from_result (json.to_json creds))) _ (λ s cred_data encoded.
          with_error-Ensures Q _
            (secret_create_or_update w (credentials_secret namespace cred_data))
            (λ s' x done. (
              cred_data,
              with_error-ok _ (from_result (json.to_json creds)) s encoded,
              secret_create_or_update-IsWritten w (credentials_secret namespace cred_data) s' done,
            )))

    login_at-IsLoggedIn :
        (c : LoginCmd) (namespace auth_url : String)
        → Ensures
            (λ (x : Unit {0}) s. IsLoggedIn c namespace s)
            (login_at w json state code_verifier event c namespace auth_url)
    unfolding login_at
    login_at-IsLoggedIn c namespace auth_url s x h =
        let Q = λ (x : Unit {0}) (s : List Call). IsLoggedIn c namespace s in
        elim (Bool-cases (is_empty auth_url)) [
          | inl missing ↦ let bad = rw missing at h in cc
          | inr there ↦
              else-Ensures Q _ _ there
                (finally_with Q (with_error _ (discover_provider w json auth_url)) _
                  (λ before provider p.
                    finally_with Q
                      (with_error _ (
                        authenticate w
                          (new_flow state code_verifier provider default_client_id c.callback_port)
                          event))
                      _
                      (λ s' creds got.
                        with_error-Ensures Q _
                          (login_store w json state code_verifier event namespace creds)
                          (λ s'' y done.
                            let (cred_data, encoded, written) =
                              login_store-IsWritten namespace creds s'' y done in
                            record {
                              provider = provider;
                              creds = creds;
                              cred_data = cred_data;
                              before = s';
                              authenticated =
                                  with_error-ok _
                                    (authenticate w
                                      (new_flow state code_verifier provider default_client_id
                                        c.callback_port)
                                      event)
                                    s' got;
                              encoded = encoded;
                              written = written;
                            }))))
                s x h
        ]

    -- A login that succeeds has, in the namespace that it was given, if it was given one, written as
    -- its last act the secret with the credentials that the browser login gave, and the cluster took
    -- it.
    pub login-IsLoggedIn :
        (c : LoginCmd) (calls : List Call)
        → (login w json state code_verifier event c calls).0 ≡ ok tt
        → (namespace : String) × IsNamed c.namespace namespace
          × IsLoggedIn c namespace (login w json state code_verifier event c calls).1
    unfolding login
    login-IsLoggedIn c calls h =
        let Q = λ (x : Unit {0}) (s : List Call).
          (namespace : String) × IsNamed c.namespace namespace × IsLoggedIn c namespace s in
        finally_with Q (opened w c.namespace) _
          (λ s namespace found. finally Q (get_abctl_config w namespace) _ (λ config s' x done. (
            namespace,
            opened-IsNamed c.namespace s namespace found,
            login_at-IsLoggedIn c namespace config.airbyte_auth_url s' x done,
          )))
          calls tt h

  -- What the test of the directory has seen: no directory, one with enough permissions, or one that
  -- it gave them.
  pub data IsUsable (is_not_exist : Error → Bool) (airbyte : String) (calls : List Call)
      : Type 0 where
    absent :
        (e : Error)
        → w.ask calls (Call.stat_mode airbyte) ≡ err e
        → is_not_exist e ≡ true
        → IsUsable is_not_exist airbyte calls
    open_enough :
        (info : FileInfo)
        → w.ask calls (Call.stat_mode airbyte) ≡ ok info
        → info.is_dir ≡ true
        → leb 0o744 info.perm ≡ true
        → IsUsable is_not_exist airbyte calls
    opened_up :
        (info : FileInfo)
        → w.ask calls (Call.stat_mode airbyte) ≡ ok info
        → info.is_dir ≡ true
        → w.ask (Call.stat_mode airbyte ∷ calls) (Call.chmod airbyte 0o744) ≡ ok tt
        → IsUsable is_not_exist airbyte calls

  fix_airbyte_dir-IsUsable :
      (is_not_exist : Error → Bool) (airbyte : String) (calls : List Call) (r : Result FileInfo)
      → w.ask calls (Call.stat_mode airbyte) ≡ r
      → (fix_airbyte_dir w is_not_exist airbyte r (Call.stat_mode airbyte ∷ calls)).0 ≡ ok tt
      → IsUsable is_not_exist airbyte calls
  unfolding fix_airbyte_dir
  fix_airbyte_dir-IsUsable is_not_exist airbyte calls (err e) answered h =
      elim (Bool-cases (is_not_exist e)) [
        | inl absent_dir ↦ absent e answered absent_dir
        | inr other ↦ let bad = rw other at h in cc
      ]
  fix_airbyte_dir-IsUsable is_not_exist airbyte calls (ok info) answered h =
      elim (Bool-cases info.is_dir) [
        | inl dir ↦ elim (Bool-cases (leb 0o744 info.perm)) [
          | inl enough ↦ open_enough info answered dir enough
          | inr closed ↦ opened_up info answered dir (
              with_error-ok _ (perform w (Call.chmod airbyte 0o744))
                (Call.stat_mode airbyte ∷ calls) (rw (dir, closed) at h))
        ]
        | inr no_dir ↦ let bad = rw no_dir at h in cc
      ]

  -- When checkAirbyteDir succeeds, the directory is absent, or is a directory with permissions of
  -- 0o744 at least, or is a directory whose permissions were set to 0o744 with success.
  pub check_airbyte_dir-IsUsable :
      (is_not_exist : Error → Bool) (airbyte : String) (calls : List Call)
      → (check_airbyte_dir w is_not_exist airbyte calls).0 ≡ ok tt
      → IsUsable is_not_exist airbyte calls
  unfolding check_airbyte_dir and_then
  check_airbyte_dir-IsUsable is_not_exist airbyte calls h =
      fix_airbyte_dir-IsUsable is_not_exist airbyte calls (w.ask calls (Call.stat_mode airbyte))
        refl h
