-- ===== src/Prelude/Pieces.antt =====
-- Whether a list of codes begins with another or has it as a piece.
use Prim.Native.Nat.{ℕ}
use mathlib.Core.Bool.{Bool, true, false, ◌&&◌, ◌||◌}
use mathlib.Core.List.{List, [], ◌∷◌}
use wms_secret_backend.Prelude.Tests.{◌==◌}

unfoldable pub begins : List ℕ → List ℕ → Bool
begins [] t = true
begins (a ∷ as') [] = false
begins (a ∷ as') (b ∷ bs) = (a == b) && begins as' bs

-- Python's `piece in text`.
unfoldable pub is_inside : List ℕ → List ℕ → Bool
unfolding begins
is_inside piece [] = begins piece []
is_inside piece (c ∷ cs) = begins piece (c ∷ cs) || is_inside piece cs
