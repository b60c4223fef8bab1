-- ===== src/Pi/Presses/Tests.antt =====
-- The key of forward, held down and then let go for the key of backward.
use cg2111a_b.Base.{ℕ, List, [], ◌∷◌, Option, some, none}
use cg2111a_b.Pi.{Pi}

abbrev held_down : List (Option ℕ)
held_down = some b'w' ∷ none ∷ some b'w' ∷ []
