-- ===== src/Base/Texts.antt =====
-- Texts as sequences of characters.
use Prim.Native.Nat.{ℕ, zero, suc}
use Prim.Native.String.{String, [], ◌∷◌}

-- `text[:n]`.
unfoldable pub truncate : ℕ → String → String
truncate zero t = []
truncate (suc n) [] = []
truncate (suc n) (c ∷ t) = c ∷ truncate n t
