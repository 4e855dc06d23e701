-- ===== src/Udt/Search/Halting.antt =====
-- When the lookups end, and what they return.
use go_udt.Common.{ℕ, ◌<◌, ◌≡◌}
use go_udt.Udt.Search.Way.{Way}

module _ {A : Type 0} (key : A → ℕ) (want : ℕ) where
  abbrev pub Above : ℕ → A → Type 0
  Above i x = want < key x

  abbrev pub Below : ℕ → A → Type 0
  Below i x = key x < want

  abbrev pub Sought : ℕ → A → Type 0
  Sought i x = key x ≡ want
