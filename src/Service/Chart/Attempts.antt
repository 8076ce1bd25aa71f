-- ===== src/Service/Chart/Attempts.antt =====
-- How often a chart is installed, and what comes of the attempts.
use abctl.Common.{ℕ, suc, ◌≤◌, List, [], ◌∷◌}
use abctl.Effects.{Call}

-- The installations among the calls.
unfoldable pub installs : List Call → ℕ
installs [] = 0
installs (Call.install_or_upgrade_chart spec ∷ calls) = let rest = installs calls in suc rest
installs (_ ∷ calls) = installs calls

-- At most `n` installations among the calls.
abbrev pub AtMost : ℕ → List Call → Type 0
AtMost n calls = installs calls ≤ n
