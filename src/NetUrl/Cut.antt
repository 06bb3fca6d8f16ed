-- ===== src/NetUrl/Cut.antt =====
-- Go's `strings.Cut`, at one byte.
use notip_data_consumer.Prelude.{
  ℕ, ◌≡◌, refl, Option, none, some, [], ◌∷◌, ◌++◌, eqb, if◌then◌else◌, arith,
}
use notip_data_consumer.Prelude.Bytes.{Bytes, Lacks}

abbrev extend_before : ℕ → Bytes × Option Bytes → Bytes × Option Bytes
extend_before c (before, after) = (c ∷ before, after)

-- `strings.Cut` at a byte: what is before the first one, and what is after it if there is one.
unfoldable pub cut : ℕ → Bytes → Bytes × Option Bytes
cut sep [] = ([], none)
cut sep (c ∷ s) = let rest = cut sep s in if eqb c sep then ([], some s) else extend_before c rest

pub cut_first :
    (sep : ℕ) (s rest : Bytes) → Lacks sep s → cut sep (s ++ sep ∷ rest) ≡ (s, some rest)
unfolding cut
cut_first sep [] rest l = ground arith
cut_first sep (c ∷ s) rest l = ground (arith, cut_first sep s rest l.1)

pub cut-none : (sep : ℕ) (s : Bytes) → Lacks sep s → cut sep s ≡ (s, none)
unfolding cut
cut-none sep [] l = refl
cut-none sep (c ∷ s) l = ground (arith, cut-none sep s l.1)

abbrev pub or_empty : Option Bytes → Bytes
or_empty none = []
or_empty (some s) = s
