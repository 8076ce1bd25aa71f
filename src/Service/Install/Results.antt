-- ===== src/Service/Install/Results.antt =====
-- What the steps of `Install` return and do.
use abctl.Common.{String, ◌≡◌, arith, if◌then◌else◌, List, [], ◌∷◌, ok}
use abctl.Effects.{Call, World, and_then}
use abctl.K8s.Client.{persistent_volume_exists, persistent_volume_create, new_volume, found}
use abctl.Service.{Manager}
use abctl.Service.Volumes.{volume_dir, persistent_volume, new_persistent_volume}

abbrev first : List String → String
first [] = ""
first (name ∷ names) = name

module _ (w : World) (m : Manager) where
  -- A persistentVolume that succeeds has done nothing but look, if the volume is there or it cannot
  -- be told; else it has made the directory, created the volume and opened the directory, in this order.
  pub persistent_volume_calls :
      (namespace name : String) (calls : List Call)
      → (persistent_volume w m namespace name calls).0 ≡ ok tt
      → (persistent_volume w m namespace name calls).1 ≡ (
          if found w (w.ask calls (Call.persistent_volume_get name))
          then Call.persistent_volume_get name ∷ calls
          else Call.chmod (volume_dir w m name) 511
            ∷ Call.persistent_volume_create (new_volume namespace name)
            ∷ Call.mkdir_all (volume_dir w m name) 502
            ∷ Call.persistent_volume_get name
            ∷ calls)
  unfolding persistent_volume persistent_volume_exists new_persistent_volume
      persistent_volume_create and_then
  persistent_volume_calls namespace name calls h = ground arith
