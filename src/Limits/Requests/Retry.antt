-- ===== src/Limits/Requests/Retry.antt =====
-- providers/rate_limit.py: the attempts of `execute_with_retry`.
use liberated_claude_code.Prelude.{ℕ, zero, suc, ◌+◌, ◌≤◌, ◌≡◌, ◌⊎◌, List, [], ◌∷◌, length}
use liberated_claude_code.Limits.Requests.{Reply, returned, rate_limited, raised, Ended, Pace}

-- The reply is a 429.
abbrev pub IsRateLimited {ℓ κ} : {A : Type ℓ} {E : Type κ} → Reply A E → Type 0
IsRateLimited (returned a) = ⊥
IsRateLimited (rate_limited e) = Unit {0}
IsRateLimited (raised e) = ⊥

abbrev pub AllBelow : ℕ → List ℕ → Type 0
AllBelow bound [] = Unit {0}
AllBelow bound (d ∷ ds) = (d ≤ bound) × AllBelow bound ds

-- The attempts number `from` to `from + n - 1` were all refused by a 429.
abbrev pub AllRefused {ℓ κ} : {A : Type ℓ} {E : Type κ} → (ℕ → Reply A E) → ℕ → ℕ → Type 0
AllRefused fn from zero = Unit {0}
AllRefused fn from (suc n) = IsRateLimited (fn from) × AllRefused fn (suc from) n

module _ {ℓ κ} {A : Type ℓ} {E : Type κ} (base_delay max_delay : ℕ) (jitter : ℕ → ℕ) (pace : Pace)
    (fn : ℕ → Reply A E) (spread : ℕ) (jitter_le : (n : ℕ) → jitter n ≤ spread) where
  -- What attempts from `attempt` on, with `left` retries, come to.
  pub record Retried (left attempt : ℕ) (r : Ended A E) : Type (ℓ ⊔ κ) where
    pub few : length r.delays ≤ left
    pub waited : length r.waits ≡ suc (length r.delays)
    pub bounded : AllBelow (max_delay + spread) r.delays
    pub last : r.reply ≡ fn (attempt + length r.delays)
    pub refused : AllRefused fn attempt (length r.delays)
    pub settled : (length r.delays ≡ left) ⊎ ¬ IsRateLimited r.reply
