-- ===== src/Prelude/Lists.antt =====
-- Lists measured by native numbers, under the library's names, and predicates over lists.
use Prim.Native.Nat.{ℕ, zero, suc, ◌+◌}
use mathlib.Core.Path.{◌≡◌}
use mathlib.Core.Bool.{Bool}
use mathlib.Core.Option.{Option, none, some}
use mathlib.Core.List.{List, [], ◌∷◌, ◌++◌}
use native.Mathlib.Omega.{arith}
use notip_data_consumer.Prelude.Tests.{if◌then◌else◌}

module _ {ℓ} {A : Type ℓ} where
  abbrev pub length : List A → ℕ
  length [] = 0
  length (x ∷ xs) = suc (length xs)

  abbrev pub get_elem? : List A → ℕ → Option A
  get_elem? [] i = none
  get_elem? (x ∷ xs) zero = some x
  get_elem? (x ∷ xs) (suc i) = get_elem? xs i

  pub length-append : (xs ys : List A) → length (xs ++ ys) ≡ length xs + length ys
  length-append [] ys = omega arith
  length-append (x ∷ xs) ys = omega (arith, length-append xs ys)

  -- The elements that pass a Boolean test, in order.
  abbrev pub keep : (A → Bool) → List A → List A
  keep p [] = []
  keep p (x ∷ xs) = let rest = keep p xs in if p x then x ∷ rest else rest

  -- `Subseq xs ys`: `xs` is `ys` with some elements left out.
  pub data Subseq : List A → List A → Type ℓ where
    done : Subseq [] []
    take_it : {xs ys : List A} (x : A) → Subseq xs ys → Subseq (x ∷ xs) (x ∷ ys)
    skip_it : {xs ys : List A} (x : A) → Subseq xs ys → Subseq xs (x ∷ ys)

module _ {ℓ} {A : Type ℓ} where
  pub Subseq-snoc : {xs ys : List A} (x : A) → Subseq xs ys → Subseq (xs ++ x ∷ []) (ys ++ x ∷ [])
  Subseq-snoc x done = take_it x done
  Subseq-snoc x (take_it y s) = take_it y (Subseq-snoc x s)
  Subseq-snoc x (skip_it y s) = skip_it y (Subseq-snoc x s)

  pub Subseq-skip_last : {xs ys : List A} (x : A) → Subseq xs ys → Subseq xs (ys ++ x ∷ [])
  Subseq-skip_last x done = skip_it x done
  Subseq-skip_last x (take_it y s) = take_it y (Subseq-skip_last x s)
  Subseq-skip_last x (skip_it y s) = skip_it y (Subseq-skip_last x s)

module _ {ℓ} {A : Type ℓ} where
  -- `Interleaved xs ys zs`: `zs` has the elements of `xs` and of `ys`, each in their order.
  pub data Interleaved : List A → List A → List A → Type ℓ where
    neither : Interleaved [] [] []
    from_left :
        {xs ys zs : List A} (x : A) → Interleaved xs ys zs → Interleaved (x ∷ xs) ys (x ∷ zs)
    from_right :
        {xs ys zs : List A} (x : A) → Interleaved xs ys zs → Interleaved xs (x ∷ ys) (x ∷ zs)

module _ {ℓ} {A : Type ℓ} where
  pub Interleaved-snoc_left :
      {xs ys zs : List A} (x : A)
      → Interleaved xs ys zs
      → Interleaved (xs ++ x ∷ []) ys (zs ++ x ∷ [])
  Interleaved-snoc_left x neither = from_left x neither
  Interleaved-snoc_left x (from_left y i) = from_left y (Interleaved-snoc_left x i)
  Interleaved-snoc_left x (from_right y i) = from_right y (Interleaved-snoc_left x i)

  pub Interleaved-snoc_right :
      {xs ys zs : List A} (x : A)
      → Interleaved xs ys zs
      → Interleaved xs (ys ++ x ∷ []) (zs ++ x ∷ [])
  Interleaved-snoc_right x neither = from_right x neither
  Interleaved-snoc_right x (from_left y i) = from_left y (Interleaved-snoc_right x i)
  Interleaved-snoc_right x (from_right y i) = from_right y (Interleaved-snoc_right x i)

module _ {ℓ κ} {A : Type ℓ} (P : A → Type κ) where
  abbrev pub All : List A → Type κ
  All [] = Unit
  All (x ∷ xs) = P x × All xs

  pub All-append : (xs ys : List A) → All xs → All ys → All (xs ++ ys)
  All-append [] ys _ hy = hy
  All-append (x ∷ xs) ys (px, hx) hy = (px, All-append xs ys hx hy)

  pub All-middle : (xs : List A) (x : A) (ys : List A) → All (xs ++ x ∷ ys) → P x
  All-middle [] x ys h = h.0
  All-middle (w ∷ xs) x ys h = All-middle xs x ys h.1
