-- ===== src/Prelude/Text.antt =====
-- Equality of whole texts, as a decision. It is shut in proofs, where a split on it yields the
-- equation or its negation.
use Prim.Native.String.{String}
use mathlib.Core.Logic.{ite, dite}
use mathlib.Core.Bool.{Bool, true, false, Bool-discrete}
use mathlib.Core.Path.{◌≡◌}
use native.Mathlib.Omega.{arith}
use text.Mathlib.Text
use text.Mathlib.TextEquality.{eq_iff}

unfoldable pub string_dec : Discrete String
string_dec s t =
    dite (Bool-discrete (Text.◌==◌ s t) true) (λ same. yes ((eq_iff s t).0 same))
      (λ differ. no (λ p. differ ((eq_iff s t).1 p)))

abbrev pub same_text : String → String → Bool
same_text s t = ite (string_dec s t) true false

pub same_text_refl : (s : String) → same_text s s ≡ true
same_text_refl s = ground arith

pub same_text-eq : (s t : String) → same_text s t ≡ true → s ≡ t
same_text-eq s t h = ground arith
