-- ===== src/Service/Data.antt =====
-- internal/service/manager.go, uninstall.go and status.go, and internal/pgdata/version.go: the data
-- on the disk, and what the releases' status prints.
use abctl.Common.{
  String, Bool, true, false, ◌==◌, ◌||◌, ◌++◌, if◌then◌else◌, Error, errorf, Result, ok, err,
}
use abctl.Effects.{Call, World, Program, return, try, with_error, perform, ◌>>◌}
use abctl.Service.{Manager, airbyte_chart_release, nginx_chart_release}

-- SupportMinio, from the answer of os.Stat (is it a directory?).
unfoldable pub support_minio : (Error → Bool) → Result Bool → Result Bool
support_minio is_not_exist (ok is_dir) = ok is_dir
support_minio is_not_exist (err e) =
    if is_not_exist e
    then ok false
    else err (errorf "failed to determine if minio physical volume dir exists: " e "")

-- pgdata's Version, from the answer of os.ReadFile; `trim_right` is strings.TrimRight of "\n".
unfoldable pub pg_version : (String → String) → Result String → Result String
pg_version trim_right (ok b) = ok (trim_right b)
pg_version trim_right (err e) = err (errorf "error reading pgdata version file: " e "")

-- EnablePsql17, from the result of Version: the version, which is empty beside an error.
unfoldable pub enable_psql17 : (Error → Bool) → Result String → Result Bool
enable_psql17 is_not_exist (ok version) = ok (version == "" || version == "17")
enable_psql17 is_not_exist (err e) =
    if is_not_exist e
    then ok true
    else err (errorf "failed to determine if any previous psql version exists: " e "")

module _ (w : World) (m : Manager) where
  -- Uninstall
  unfoldable pub uninstall : Bool → Program (Unit {0})
  uninstall persisted =
      if persisted
      then with_error
          (λ e. errorf ("unable to remove persisted data '" ++ (m.data_dir ++ "': ")) e "")
          (perform w (Call.remove_all m.data_dir))
      else return tt

  -- Status, for its calls.
  unfoldable pub status : Program (Unit {0})
  status =
      try (perform w (Call.get_release airbyte_chart_release))
      >> (try (perform w (Call.get_release nginx_chart_release)) >> return tt)
