-- ===== src/Helm/Semver.antt =====
-- golang.org/x/mod/semver, which the program calls and does not implement. `Laws` is what its
-- documentation says of Compare: an order on versions, in which versions may tie.
use Prim.Native.Nat.{Ordering}
use abctl.Common.{String, Bool, ◌≢◌}

pub record Semver : Type 0 where
  pub compare : String → String → Ordering
  pub is_valid : String → Bool
  pub prerelease : String → String

pub record Laws (sv : Semver) : Type 0 where
  -- v ≥ w and w ≥ x give v ≥ x
  pub compare_trans :
      (v w x : String)
      → sv.compare v w ≢ Ordering.lt
      → sv.compare w x ≢ Ordering.lt
      → sv.compare v x ≢ Ordering.lt
