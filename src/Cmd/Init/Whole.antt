-- ===== src/Cmd/Init/Whole.antt =====
-- The init command from its namespace to its last call.
use abctl.Common.{
  String, ℕ, true, List, is_empty, Bool-cases, inl, inr, ◌⊎◌, ok, ok-injective, ◌≡◌, sym,
}
use abctl.Effects.{Call, World}
use abctl.Effects.Invariants.{Ensures}
use abctl.K8s.Client.{Config, abctl_config_from_data}
use abctl.Cmd.Init.{namespace_of}

module _ (w : World) where
  pub namespace_of-ok :
      (complaint given : String)
      → Ensures
          (λ namespace s. (is_empty given ≡ true) ⊎ (namespace ≡ given))
          (namespace_of w complaint given)
  unfolding namespace_of
  namespace_of-ok complaint given s namespace h = elim (Bool-cases (is_empty given)) [
    | inl missing ↦ inl missing
    | inr there ↦ inr (sym (ok-injective (rw there at h)))
  ]

module _ (w : World) (rfc3339 : ℕ → String) where
  -- Where a configuration was read.
  abbrev IsRead : String → String → Config → Type 0
  IsRead namespace source config =
      (before : List Call) × (data_of : List (String × String)) × (w.ask before
          (Call.config_map_get namespace source)
        ≡ ok data_of)
      × (abctl_config_from_data data_of ≡ ok config)
