-- ===== src/Prelude/Bytes.antt =====
-- Go's strings as lists of bytes, with a Boolean equality.
use Prim.Native.Nat.{ℕ}
use Prim.Native.Char.{code}
use Prim.Native.String.{String}
use mathlib.Core.Path.{◌≡◌, refl}
use mathlib.Core.Bool.{Bool, true, false, ◌&&◌}
use mathlib.Core.Logic.{◌↔◌}
use mathlib.Core.List.{List, [], ◌∷◌}
use native.Mathlib.Omega.{arith}
use kagenti_operator.Prelude.Tests.{◌==◌}

abbrev pub Text : Type 0
Text = List ℕ

-- A literal of the source; all of them are ASCII, so that code points are bytes.
abbrev pub lit : String → Text
lit String.[] = []
lit (String.◌∷◌ c s) = code c ∷ lit s

abbrev pub is_empty : Text → Bool
is_empty [] = true
is_empty (c ∷ s) = false

-- Go's `==` on strings.
unfoldable pub beq : Text → Text → Bool
beq [] [] = true
beq [] (d ∷ t) = false
beq (c ∷ s) [] = false
beq (c ∷ s) (d ∷ t) = c == d && beq s t

beq_refl : (s : Text) → beq s s ≡ true
unfolding beq
beq_refl [] = refl
beq_refl (c ∷ s) = ground (arith, beq_refl s)

eq_of_beq : (s t : Text) → beq s t ≡ true → s ≡ t
unfolding beq
eq_of_beq [] [] h = refl
eq_of_beq [] (d ∷ t) h = ground arith
eq_of_beq (c ∷ s) [] h = ground arith
eq_of_beq (c ∷ s) (d ∷ t) h = ground (arith, eq_of_beq s t)

beq_of_eq : (s t : Text) → s ≡ t → beq s t ≡ true
beq_of_eq s t h = ground (arith, beq_refl s)

pub beq_iff : (s t : Text) → (beq s t ≡ true) ↔ (s ≡ t)
beq_iff s t = (eq_of_beq s t, beq_of_eq s t)

pub beq_self : (s : Text) → beq s s ≡ true
beq_self s = beq_refl s
