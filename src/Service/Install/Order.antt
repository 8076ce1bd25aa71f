-- ===== src/Service/Install/Order.antt =====
-- The order of the calls that `Install` makes.
pub mod Steps
pub mod Charts
pub mod Whole
use abctl.Common.{
  String, Bool, true, false, Bool-cases, inl, inr, ◌⊎◌, ℕ, zero, suc, ◌≤◌, ◌≡◌, refl, arith,
  if◌then◌else◌, eqb, ◌==◌, List, [], ◌∷◌,
}
use abctl.Effects.{Call, Program, ◌>>=◌, ◌>>◌}
use abctl.Effects.Invariants.{Takes, chain, keep, branch}

-- The stage of a chart's repository, and of its release: Airbyte's is 4, that of nginx 5.
abbrev pub repo_stage : String → ℕ
repo_stage name = if name == "airbyte" then 4 else 5

abbrev pub release_stage : String → ℕ
release_stage name = if name == "airbyte-abctl" then 4 else 5

-- The stage of an installation that a call belongs to: the namespace, the volumes, the secrets,
-- Airbyte's chart and its diagnosis, the chart of nginx, the ingress, its verification, the browser.
-- It is 0 for the calls that both charts make alike, and for those that no installation makes.
unfoldable pub stage : Call → ℕ
stage (Call.namespace_get name) = 1
stage (Call.namespace_create name) = 1
stage (Call.persistent_volume_get name) = 2
stage (Call.persistent_volume_create volume) = 2
stage (Call.persistent_volume_claim_get namespace name) = 2
stage (Call.persistent_volume_claim_create claim) = 2
stage (Call.mkdir_all path mode) = 2
stage (Call.chmod path mode) = 2
stage (Call.read_file path) = 3
stage (Call.secret_get namespace name) = 3
stage (Call.secret_create secret) = 3
stage (Call.secret_update secret) = 3
stage (Call.add_or_update_chart_repo name url) = repo_stage name
stage (Call.install_or_upgrade_chart spec) = release_stage spec.release_name
stage (Call.pod_list namespace) = 4
stage (Call.logs_get namespace name) = 4
stage (Call.get_release name) = release_stage name
stage (Call.uninstall_release name) = release_stage name
stage (Call.service_get namespace name) = 5
stage (Call.ingress_get namespace name) = 6
stage (Call.ingress_create namespace ingress) = 6
stage (Call.ingress_update namespace ingress) = 6
stage (Call.poll url) = 7
stage (Call.open_browser url) = 8
stage _ = 0

-- The calls were made in the order of their stages, up to stage `n`. The latest comes first.
abbrev pub Staged : ℕ → List Call → Type 0
Staged n [] = Unit
Staged n (c ∷ calls) = (stage c ≤ n) × Staged (if eqb (stage c) 0 then n else stage c) calls

pub weaken : (n k : ℕ) (calls : List Call) → n ≤ k → Staged n calls → Staged k calls
weaken n k [] up s = tt
weaken n k (c ∷ calls) up (low, s) = elim (Bool-cases (eqb (stage c) 0)) [
  | inl free ↦ rw free (omega (arith, low, up), weaken n k calls up (rw free at s))
  | inr staged ↦ rw staged (omega (arith, low, up), rw staged at s)
]

pub push :
    (k : ℕ) (c : Call) (calls : List Call) → stage c ≡ k → Staged k calls → Staged k (c ∷ calls)
push k c calls h s = elim (Bool-cases (eqb k 0)) [
  | inl free ↦ rw (h, free) (omega arith, s)
  | inr staged ↦ rw (h, staged) (omega arith, s)
]

pub push_free :
    (k : ℕ) (c : Call) (calls : List Call) → stage c ≡ 0 → Staged k calls → Staged k (c ∷ calls)
push_free k c calls h s = rw h (omega arith, s)

-- All the calls of `m` are of stage `k`, or of any.
abbrev pub Keeps {ℓ} : {A : Type ℓ} → ℕ → Program A → Type 0
Keeps k m = Takes (Staged k) (Staged k) m

-- A program of the next stage, and what follows it.
pub next {ℓ κ} :
    {A : Type ℓ} {B : Type κ} (n j : ℕ) (m : Program A) (k : Program B)
    → Keeps (suc n) m
    → Takes (Staged (suc n)) (Staged j) k
    → suc n ≤ j
    → Takes (Staged n) (Staged j) (m >> k)
next n j m k stays more up =
    chain {P = Staged n} {Q = Staged (suc n)} {R = Staged j} m (λ a. k)
      (λ calls s. stays calls (weaken n (suc n) calls (omega arith) s)) (λ a. more)
      (λ calls s. weaken (suc n) j calls up s)

-- A chain, and a test, within a stage.
pub both {ℓ κ} :
    {A : Type ℓ} {B : Type κ} (n : ℕ) (m : Program A) (f : A → Program B)
    → Keeps n m
    → ((a : A) → Keeps n (f a))
    → Keeps n (m >>= f)
both n m f = keep {P = Staged n} m f

pub either {ℓ} :
    {A : Type ℓ} (n : ℕ) (b : Bool) (m k : Program A)
    → Keeps n m
    → Keeps n k
    → Keeps n (if b then m else k)
either n b m k = branch (Staged n) (Staged n) b m k
