-- ===== src/Engine/Budget.antt =====
-- `PrefillBudget` of batching.rs: the prompt tokens that a round may prefill.
use burn_lm.Prelude.{ℕ, zero, suc, ◌-◌, Option, none, some, min}

-- `remaining`; `none` is unbounded.
abbrev pub PrefillBudget : Type 0
PrefillBudget = Option ℕ

-- The budget after the claim, and what is granted: `none` if the budget is spent.
unfoldable pub admit_prefill : PrefillBudget → ℕ → PrefillBudget × Option ℕ
admit_prefill none wanted = (none, some wanted)
admit_prefill (some zero) wanted = (some zero, none)
admit_prefill (some (suc r)) wanted = (some (suc r - min wanted (suc r)), some (min wanted (suc r)))
