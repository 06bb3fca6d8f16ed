-- ===== src/Prelude/Bytes.antt =====
-- Go's strings: sequences of bytes.
use Prim.Native.Nat.{ℕ}
use Prim.Native.Char.{code}
use Prim.Native.String.{String}
use mathlib.Core.Path.{◌≡◌}
use mathlib.Core.Logic.{◌↔◌, ◌≢◌}
use mathlib.Core.Bool.{Bool, true, false, ◌&&◌, ◌||◌}
use mathlib.Core.List.{List, [], ◌∷◌}
use native.Mathlib.Omega.{arith}
use notip_data_consumer.Prelude.Tests.{eqb, Comparable}
use notip_data_consumer.Prelude.Lists.{All}

abbrev pub Bytes : Type 0
Bytes = List ℕ

-- A literal of the source, which is ASCII, byte by byte.
abbrev pub lit : String → Bytes
lit String.[] = []
lit (String.◌∷◌ letter rest) = code letter ∷ lit rest

unfoldable pub bytes_eqb : Bytes → Bytes → Bool
bytes_eqb [] [] = true
bytes_eqb [] (_ ∷ _) = false
bytes_eqb (_ ∷ _) [] = false
bytes_eqb (x ∷ xs) (y ∷ ys) = eqb x y && bytes_eqb xs ys

pub bytes_eqb_iff : (xs ys : Bytes) → (bytes_eqb xs ys ≡ true) ↔ (xs ≡ ys)
unfolding bytes_eqb
bytes_eqb_iff [] [] = ground arith
bytes_eqb_iff [] (_ ∷ _) = ground arith
bytes_eqb_iff (_ ∷ _) [] = ground arith
bytes_eqb_iff (x ∷ xs) (y ∷ ys) = ground (arith, bytes_eqb_iff xs ys)

instance abbrev pub bytes_eq : Comparable Bytes
bytes_eq = record { same = bytes_eqb; same_iff = bytes_eqb_iff }

abbrev pub is_in : ℕ → Bytes → Bool
is_in c [] = false
is_in c (d ∷ s) = eqb c d || is_in c s

-- No byte of the text is `b`.
abbrev pub Lacks : ℕ → Bytes → Type 0
Lacks b = All (λ c. c ≢ b)
