-- ===== src/Cmd.antt =====
-- internal/cmd/local/check.go: the checks before a command. Terminal output, spans and the attributes
-- of the telemetry client are left out.
pub mod Hosts
pub mod Cluster
pub mod Install
pub mod Commands
pub mod Init
pub mod Session
mod Tests
use abctl.Common.{
  String, ℕ, zero, suc, ◌+◌, ◌*◌, Char, code, Bool, true, false, ◌||◌, ◌&&◌, leb, ltb, eqb,
  if◌then◌else◌, ◌==◌, ◌++◌, List, [], ◌∷◌, Option, none, some, Error, new, errorf, message, Result,
  ok, err, ℤ, pos, negsuc, show_int, is_empty,
}
use abctl.Effects.{
  Call, World, Program, ContainerInfo, return, fail, try, from_result, with_error, perform, ◌>>=◌,
  ◌>>◌,
}

-- internal/abctl/error.go
abbrev pub err_docker : Error
err_docker = new "error communicating with docker"

abbrev pub err_port : Error
err_port = new "error verifying port availability"

abbrev pub err_kubernetes : Error
err_kubernetes = new "error communicating with kubernetes"

abbrev pub err_ip_address_for_host_flag : Error
err_ip_address_for_host_flag = new "invalid host - can't use an IP address"

abbrev pub err_invalid_host_flag : Error
err_invalid_host_flag = new "invalid host"

abbrev pub err_port_not_found : Error
err_port_not_found = new "no matching port found"

abbrev pub err_unable_to_inspect : Error
err_unable_to_inspect = new "unable to inspect container"

-- fmt.Errorf("%w: between%w", known, err), which prints both.
abbrev pub known_error : Error → String → Error → Error
known_error known between e = errorf "" known (": " ++ (between ++ message e))

-- The operating system: the errno that errors.As finds in an error, its value for an address in
-- use, and whether it is Windows; net.ParseIP (is it an address?); strconv.Atoi.
pub record System : Type 0 where
  pub errno : Error → Option ℕ
  pub eaddrinuse : ℕ
  pub is_windows : Bool
  pub is_ip : String → Bool
  pub atoi : String → Result ℤ

-- isErrorAddressAlreadyInUse
unfoldable pub is_error_address_already_in_use : System → Error → Bool
is_error_address_already_in_use sys e = in_use (sys.errno e)
  where
    in_use : Option ℕ → Bool
    in_use none = false
    in_use (some n) = eqb n sys.eaddrinuse || (sys.is_windows && eqb n 10048)

-- port < 1024
abbrev pub is_privileged : ℤ → Bool
is_privileged (pos n) = ltb n 1024
is_privileged (negsuc n) = true

-- The bindings of one port: the host port of the first one on all addresses.
unfoldable pub first_on_all : List (String × String) → Option String
first_on_all [] = none
first_on_all ((host_ip, host_port) ∷ bindings) =
    let rest = first_on_all bindings in if host_ip == "0.0.0.0" then some host_port else rest

unfoldable pub find_port : List (List (String × String)) → Option String
unfolding first_on_all
find_port [] = none
find_port (bindings ∷ more) = or_else (first_on_all bindings) (find_port more)
  where
    or_else : Option String → Option String → Option String
    or_else none rest = rest
    or_else (some port) rest = some port

abbrev pub status_text : Option String → String
status_text none = "unknown"
status_text (some status) = status

abbrev pub is_running : Option String → Bool
is_running none = false
is_running (some status) = status == "running"

module _ (w : World) (sys : System) where
  -- Has an earlier call made the docker client, which stays in a global variable?
  unfoldable pub has_docker : List Call → Bool
  has_docker [] = false
  has_docker (Call.docker_new ∷ calls) =
      let earlier = has_docker calls in is_ok (w.ask calls Call.docker_new) || earlier
    where
      is_ok : Result (Unit {0}) → Bool
      is_ok (ok x) = true
      is_ok (err e) = false
  has_docker (_ ∷ calls) = has_docker calls

  -- `if dockerClient == nil { dockerClient, err = docker.New(ctx) }`
  unfoldable pub docker_client : Program (Unit {0})
  unfolding has_docker
  docker_client calls = (if has_docker calls then return tt else perform w Call.docker_new) calls

  unfoldable pub docker_installed : Program String
  unfolding docker_client
  docker_installed = do
    with_error (known_error err_docker "unable to create client: ") docker_client
    version ← with_error (known_error err_docker "") (perform w Call.docker_version)
    try (perform w Call.docker_info)
    return version

  -- The error of a listener that could not be made.
  unfoldable pub listen_error : ℤ → Error → Error
  unfolding is_error_address_already_in_use
  listen_error port e =
      if is_error_address_already_in_use sys e
      then errorf "" err_port (": port " ++ (show_int port ++ " is already in use"))
      else known_error err_port
          ("unable to determine if port '" ++ (show_int port ++ "' is available: ")) e

  unfoldable pub port_available : ℤ → Program (Unit {0})
  unfolding listen_error
  port_available port =
      if is_privileged port
      then return tt
      else with_error (listen_error port) (perform w (Call.listen port))

  -- ContainerNotRunningError, as it prints.
  abbrev pub not_running : String → Option String → Error
  not_running container status = new (
      "container \""
      ++ (container ++ ("\" is not running (status = \"" ++ (status_text status ++ "\")"))))

  abbrev pub invalid_port : String → Error → Error
  invalid_port port e = errorf ("unable to convert host port " ++ (port ++ " to integer: ")) e ""

  -- The end of getPort, from the bindings.
  abbrev pub port_of : String → Option String → Result ℤ
  port_of container none =
      err (errorf "" err_port_not_found (" on container \"" ++ (container ++ "\"")))
  port_of container (some host_port) = change (sys.atoi host_port)
    where
      change : Result ℤ → Result ℤ
      change (ok port) = ok port
      change (err e) = err (invalid_port host_port e)

  unfoldable pub get_port : String → Program ℤ
  unfolding docker_client find_port
  get_port cluster_name = do
    with_error (λ e. errorf "unable to connect to docker: " e "") docker_client
    ci ←
        with_error (known_error err_unable_to_inspect "")
          (perform w (Call.container_inspect (cluster_name ++ "-control-plane")))
    if is_running ci.status
        then from_result (port_of (cluster_name ++ "-control-plane") (find_port ci.bindings))
        else fail (not_running (cluster_name ++ "-control-plane") ci.status)
