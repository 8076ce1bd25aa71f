-- ===== src/Cmd/Cluster/Ready.antt =====
-- The cluster that an installation goes on with.
use abctl.Common.{
  String, true, false, List, ◌∷◌, some, ok, ok-injective, ℤ, ◌≡◌, ◌⊎◌, inl, inr, contains, Error,
  err, Result-cases,
}
use abctl.K8s.Volumes.{ExtraVolumeMount}
use abctl.K8s.Cluster.{Config, KindCluster, exists, provider_cluster, cluster_config, node_image}
use abctl.Effects.{Call, World, and_then}
use abctl.Cmd.{System, is_privileged}
use abctl.Cmd.Cluster.{Provider, existing_port}

module _ (w : World) (sys : System) (k : KindCluster) (provider : Provider) where
  -- The latest call created the cluster, from a configuration with the port and the mounts.
  pub record IsCreated (port : ℤ) (mounts : List ExtraVolumeMount) (calls : List Call)
      : Type 0 where
    pub config : Config
    pub raw_cfg : String
    pub earlier : List Call
    pub configured : cluster_config k.data_dir port mounts ≡ some config
    pub encoded : k.marshal_config config ≡ ok raw_cfg
    pub latest : calls ≡ Call.kind_create k.name k.kubeconfig node_image raw_cfg ∷ earlier
    pub answered : w.ask earlier (Call.kind_create k.name k.kubeconfig node_image raw_cfg) ≡ ok tt

  -- The port could be listened on, unless it is too low to try.
  abbrev pub IsAvailable : ℤ → List Call → Type 0
  IsAvailable port before = (is_privileged port ≡ true) ⊎ (w.ask before (Call.listen port) ≡ ok tt)

  -- The listing of the clusters has that name.
  abbrev pub IsThere : List Call → Type 0
  IsThere s =
      (names : List String) × (w.ask s Call.kind_list ≡ ok names) × (contains names k.name ≡ true)

  -- The listing of the clusters failed, or does not have that name.
  abbrev pub IsAbsent : List Call → Type 0
  IsAbsent s =
      ((e : Error) × (w.ask s Call.kind_list ≡ err e))
      ⊎ ((names : List String) × (w.ask s Call.kind_list ≡ ok names)
          × (contains names k.name ≡ false))

  pub exists-IsThere : (s : List Call) → (exists w k s).0 ≡ ok true → IsThere s
  unfolding exists and_then
  exists-IsThere s h = elim (Result-cases (w.ask s Call.kind_list)) [
    | inl (e, failed) ↦ let gone = rw failed at h in cc
    | inr (names, gave) ↦ (names, gave, ok-injective (rw gave at h))
  ]

  pub exists-IsAbsent : (s : List Call) → (exists w k s).0 ≡ ok false → IsAbsent s
  unfolding exists and_then
  exists-IsAbsent s h = elim (Result-cases (w.ask s Call.kind_list)) [
    | inl (e, failed) ↦ inl (e, failed)
    | inr (names, gave) ↦ inr (names, gave, ok-injective (rw gave at h))
  ]

  -- The state in which the clusters are listed.
  abbrev pub prepared : List Call → List Call
  prepared calls = (provider_cluster w provider.dir k calls).1

  -- The outcome of an installation's start, from the listing of the clusters at `s` on.
  abbrev pub IsReady : ℤ → List ExtraVolumeMount → List Call → ℤ → List Call → Type 0
  IsReady port mounts s used calls =
      (IsThere s × ((existing_port w sys k provider port (Call.kind_list ∷ s)).0 ≡ ok used))
      ⊎ (IsAbsent s
          × (used ≡ port)
          × IsAvailable port (Call.kind_list ∷ s)
          × IsCreated port mounts calls)
