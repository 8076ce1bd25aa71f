-- ===== src/Helm/Chart/Versions.antt =====
-- The version tests.
use Prim.Native.Nat.{Ordering}
use text.Mathlib.TextLemmas.{cons≢nil}
use abctl.Common.{
  eq-ne, String, true, false, ◌≡◌, ◌≢◌, refl, ◌++◌, has_prefix, ◌==◌, Bool-cases, inl, inr,
}
use abctl.Helm.Semver.{Semver, Laws}
use abctl.Helm.Chart.{with_v, is_ge, chart_equals_or_higher_version}

is_ge_iff_ne : (o : Ordering) → is_ge o ≡ true → o ≢ Ordering.lt
is_ge_iff_ne Ordering.lt h e = cc
is_ge_iff_ne Ordering.eq h e = cc
is_ge_iff_ne Ordering.gt h e = cc

is_ge_of_ne : (o : Ordering) → o ≢ Ordering.lt → is_ge o ≡ true
is_ge_of_ne Ordering.lt h = absurd (h refl)
is_ge_of_ne Ordering.eq h = refl
is_ge_of_ne Ordering.gt h = refl

module _ (sv : Semver) where
  -- The test reads a version with a leading "v" and the same version without it alike. The version
  -- is not empty and does not begin with "v".
  pub version_prefix_optional :
      (v threshold : String)
      → v ≢ ""
      → has_prefix v "v" ≡ false
      → chart_equals_or_higher_version sv ("v" ++ v) threshold
        ≡ chart_equals_or_higher_version sv v threshold
  unfolding chart_equals_or_higher_version has_prefix
  version_prefix_optional v threshold given bare =
      rw (eq-ne v "" given, eq-ne ("v" ++ v) "" cons≢nil, bare) refl

  -- A version that passes a threshold passes every lower one, by the order of the semver library.
  pub threshold_monotone :
      Laws sv
      → (v high low : String) → sv.compare high low ≢ Ordering.lt
      → chart_equals_or_higher_version sv v high ≡ true
      → chart_equals_or_higher_version sv v low ≡ true
  unfolding chart_equals_or_higher_version
  threshold_monotone laws v high low above h = elim (Bool-cases (v == "")) [
    | inl empty ↦ let bad : false ≡ true = rw empty at h in cc
    | inr given ↦ rw given (
        is_ge_of_ne _
          (laws.compare_trans (with_v v) high low (is_ge_iff_ne _ (rw given at h)) above))
  ]
