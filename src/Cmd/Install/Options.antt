-- ===== src/Cmd/Install/Options.antt =====
-- The options that the manager is given.
use abctl.Common.{
  String, Bool, true, false, not, ◌++◌, if◌then◌else◌, refl, List, [], ◌∷◌, All, Option, none, some,
  Result, Result-cases, ok, err, ok-injective, ◌≡◌, inl, inr, arith,
}
use mathlib.Core.Path.{subst}
use abctl.Helm.Values.{ValuesOpts, build_airbyte_values}
use abctl.Service.{docker_auth}
use abctl.Service.Data.{support_minio, pg_version, enable_psql17}
use abctl.K8s.Cluster.{KindCluster}
use abctl.Effects.{Call, World, try, perform}
use abctl.Effects.Invariants.{finally_with, result-Ensures}
use abctl.Service.{InstallOpts}
use abctl.Cmd.{System}
use abctl.Cmd.Hosts.{validate_host_flag}
use abctl.Cmd.Hosts.Language.{HostName, host_from_language}
use abctl.Cmd.Cluster.{Provider}
use abctl.Cmd.Install.{
  InstallCmd, Tools, validate_hosts, opts_of, values_of, or_panic, install_opts,
}

module _ (w : World) (sys : System) (k : KindCluster) (provider : Provider) (t : Tools) where
  -- The host is a name that the regular expression describes, and no IP address.
  abbrev pub IsAccepted : String → Type 0
  IsAccepted host = (sys.is_ip host ≡ false) × HostName host

  accepted : (host : String) {x : Unit {0}} → validate_host_flag sys host ≡ ok x → IsAccepted host
  unfolding validate_host_flag
  accepted host h = (ground arith, (host_from_language host).0 (ground arith))

  validate_hosts-All :
      (hosts : List String) {x : Unit {0}}
      → validate_hosts w sys k provider t hosts ≡ ok x
      → All IsAccepted hosts
  unfolding validate_hosts
  validate_hosts-All [] h = tt
  validate_hosts-All (host ∷ hosts) h = elim (Result-cases (validate_host_flag sys host)) [
    | inl (e, refused) ↦ let gone = (rw refused at h) in cc
    | inr (y, fine) ↦ (accepted host fine, validate_hosts-All hosts (rw fine at h))
  ]

  -- The chart's values and the manager's options agree with each other and with the flags. Storage is
  -- local exactly if the disk has no directory of MinIO; the database is that of its version file.
  pub record IsOptions (i : InstallCmd) (user_id : String) (opts : InstallOpts) : Type 0 where
    pub values : ValuesOpts
    pub before_stat : List Call
    pub before_read : List Call
    pub local_storage_found :
        support_minio t.is_not_exist
          (w.ask before_stat (Call.stat_dir (t.manager.data_dir ++ "/airbyte-minio-pv")))
        ≡ ok (not opts.local_storage)
    pub psql17_found :
        enable_psql17 t.is_not_exist (
          pg_version t.trim_right (
            w.ask before_read
              (Call.read_file (t.manager.data_dir ++ "/airbyte-volume-db/pgdata/PG_VERSION"))))
        ≡ ok opts.enable_psql17
    pub built :
        build_airbyte_values t.io t.semver values i.chart_version ≡ some (ok opts.helm_values_yaml)
    pub same_storage : values.local_storage ≡ opts.local_storage
    pub same_database : values.enable_psql17 ≡ opts.enable_psql17
    pub same_pull_secret :
        values.image_pull_secret ≡ (if docker_auth opts then "docker-auth" else "")
    pub values_flags :
        (values.values_file ≡ i.values)
        × (values.low_resource_mode ≡ i.low_resource_mode)
        × (values.insecure_cookies ≡ i.insecure_cookies)
        × (values.telemetry_user ≡ user_id)
        × (values.disable_auth ≡ i.disable_auth)
        × (values.port ≡ i.port)
    pub opts_flags :
        (opts.helm_chart_version ≡ i.chart_version)
        × (opts.airbyte_chart_loc ≡ i.chart)
        × (opts.secrets ≡ i.secret)
        × (opts.hosts ≡ i.host)
        × (opts.no_browser ≡ i.no_browser)
    pub docker_flags :
        (opts.docker_server ≡ i.docker_server)
        × (opts.docker_user ≡ i.docker_username)
        × (opts.docker_pass ≡ i.docker_password)
        × (opts.docker_email ≡ i.docker_email)
    pub accepted_hosts : All IsAccepted i.host

  not_involutive : (b : Bool) → not (not b) ≡ b
  not_involutive true = refl
  not_involutive false = refl

  -- Of the options that opts_of and values_of make.
  made-IsOptions :
      (i : InstallCmd) (user_id : String) (minio psql17 : Bool) (values_yaml : String)
      (before_stat before_read : List Call)
      → support_minio t.is_not_exist
          (w.ask before_stat (Call.stat_dir (t.manager.data_dir ++ "/airbyte-minio-pv")))
        ≡ ok minio
      → enable_psql17 t.is_not_exist (
          pg_version t.trim_right (
            w.ask before_read
              (Call.read_file (t.manager.data_dir ++ "/airbyte-volume-db/pgdata/PG_VERSION"))))
        ≡ ok psql17
      → build_airbyte_values t.io t.semver
          (values_of w sys k provider t i minio psql17 user_id)
          i.chart_version
        ≡ some (ok values_yaml)
      → All IsAccepted i.host
      → IsOptions i user_id (opts_of w sys k provider t i minio psql17 values_yaml)
  unfolding docker_auth
  made-IsOptions i user_id minio psql17 values_yaml before_stat before_read found known built
        hosts =
      record {
        values = values_of w sys k provider t i minio psql17 user_id;
        before_stat = before_stat;
        before_read = before_read;
        local_storage_found = rw (not_involutive minio) found;
        psql17_found = known;
        built = built;
        same_storage = refl;
        same_database = refl;
        same_pull_secret = refl;
        values_flags = (refl, refl, refl, refl, refl, refl);
        opts_flags = (refl, refl, refl, refl, refl);
        docker_flags = (refl, refl, refl, refl);
        accepted_hosts = hosts;
      }

  or_panic-ok :
      (o : Option (Result String)) {s : String}
      → or_panic w sys k provider t o ≡ ok s
      → o ≡ some (ok s)
  or_panic-ok none h = cc
  or_panic-ok (some (ok a)) h = cc
  or_panic-ok (some (err e)) h = cc

  -- When the options are made, every host is a host name and no IP address; the manager's options and
  -- the values of the chart agree with each other on the storage, the database and the registry's
  -- secret, and come of the flags; storage is local exactly if the disk has no directory of MinIO;
  -- and the version of the database is that of the file on the disk.
  pub install_opts-IsOptions :
      (i : InstallCmd) (user_id : String) (calls : List Call) (opts : InstallOpts)
      → (install_opts w sys k provider t i user_id calls).0 ≡ ok opts
      → IsOptions i user_id opts
  unfolding install_opts
  install_opts-IsOptions i user_id calls opts h =
      let Q = λ (opts : InstallOpts) (s : List Call). IsOptions i user_id opts in
      result-Ensures Q _ _
        (λ x valid. finally_with Q (try (perform w (Call.stat_dir _))) _ (λ s stat got.
          result-Ensures Q _ _ (λ minio found.
            finally_with Q (try (perform w (Call.read_file _))) _ (λ s' read read_as.
              result-Ensures Q _ _ (λ psql17 known.
                result-Ensures Q _ _ (λ values_yaml built calls a eq.
                  subst (IsOptions i user_id) (ok-injective eq) (
                    made-IsOptions i user_id minio psql17 values_yaml s s'
                      (rw (ok-injective got) found) (rw (ok-injective read_as) known)
                      (or_panic-ok _ built) (validate_hosts-All i.host valid))))))))
        calls opts h
