-- ===== src/Interrupts/Tests.antt =====
-- Two drivers, and one that takes the place of the first.
use heine_os.Prelude.{ℕ, List, [], ◌∷◌}

-- Handlers are numbers here.
abbrev drivers : List (ℕ × ℕ)
drivers = (32, 1) ∷ (33, 2) ∷ (32, 3) ∷ []
