-- ===== src/Common/Texts.antt =====
-- Texts by their characters.
use Prim.Native.String.{String}
use mathlib.Core.Path.{◌≡◌, refl, ap}

-- Texts one after the other.
abbrev pub append : String → String → String
append String.[] t = t
append (String.◌∷◌ c s) t = String.◌∷◌ c (append s t)

pub append-nil : (s : String) → append s String.[] ≡ s
append-nil String.[] = refl
append-nil (String.◌∷◌ c s) = ap (λ r. String.◌∷◌ c r) (append-nil s)

pub append_assoc : (s t u : String) → append (append s t) u ≡ append s (append t u)
append_assoc String.[] t u = refl
append_assoc (String.◌∷◌ c s) t u = ap (λ r. String.◌∷◌ c r) (append_assoc s t u)
