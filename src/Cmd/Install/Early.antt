-- ===== src/Cmd/Install/Early.antt =====
-- What the install command refuses before it does anything.
use abctl.Common.{List, Error, errorf, err, ◌≡◌, refl}
use abctl.Effects.{Call, World, and_then}
use abctl.K8s.Volumes.{parse_volume_mounts}
use abctl.K8s.Cluster.{KindCluster}
use abctl.Cmd.{System}
use abctl.Cmd.Cluster.{Provider}
use abctl.Cmd.Install.{InstallCmd, Tools, run}

-- If a volume flag is malformed, the install command fails with that error and makes no call: docker
-- is not asked, no event is sent and no cluster is touched.
pub run_refuses_volumes :
    (w : World) (sys : System) (k : KindCluster) (provider : Provider) (t : Tools) (i : InstallCmd)
    (e : Error) (calls : List Call)
    → parse_volume_mounts i.volume ≡ err e
    → run w sys k provider t i calls
      ≡ (err (errorf "failed to parse the extra volume mounts: " e ""), calls)
unfolding run and_then
run_refuses_volumes w sys k provider t i e calls refused = rw refused refl
