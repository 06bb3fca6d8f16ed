-- ===== src/Prelude/Members.antt =====
-- Members of a list, and what holds of all of them.
use mathlib.Core.List.{Memᴰ}
use notip_data_consumer.Prelude.{All, sym, ap, subst, List, [], ◌∷◌, ◌++◌, map}

pub Memᴰ-front : {A : Type 0} (xs ys : List A) (x : A) → Memᴰ x xs → Memᴰ x (xs ++ ys)
Memᴰ-front (y ∷ xs) ys x (Memᴰ.head e) = Memᴰ.head e
Memᴰ-front (y ∷ xs) ys x (Memᴰ.tail m) = Memᴰ.tail (Memᴰ-front xs ys x m)
Memᴰ-front [] ys x m = elim m [ ]

pub Memᴰ-back : {A : Type 0} (xs ys : List A) (x : A) → Memᴰ x ys → Memᴰ x (xs ++ ys)
Memᴰ-back [] ys x m = m
Memᴰ-back (y ∷ xs) ys x m = Memᴰ.tail (Memᴰ-back xs ys x m)

pub All-map_in :
    {A : Type 0} (P Q : A → Type 0) (xs : List A) → ((x : A) → P x → Q x) → All P xs → All Q xs
All-map_in P Q [] f h = tt
All-map_in P Q (x ∷ xs) f h = (f x h.0, All-map_in P Q xs f h.1)

pub Memᴰ-map : {A B : Type 0} (f : A → B) (a : A) (xs : List A) → Memᴰ a xs → Memᴰ (f a) (map f xs)
Memᴰ-map f a [] m = elim m [ ]
Memᴰ-map f a (x ∷ xs) (Memᴰ.head e) = Memᴰ.head (ap f e)
Memᴰ-map f a (x ∷ xs) (Memᴰ.tail m) = Memᴰ.tail (Memᴰ-map f a xs m)

pub All-member : {A : Type 0} (P : A → Type 0) (xs : List A) (a : A) → All P xs → Memᴰ a xs → P a
All-member P [] a h m = elim m [ ]
All-member P (x ∷ xs) a h (Memᴰ.head e) = subst P (sym e) h.0
All-member P (x ∷ xs) a h (Memᴰ.tail m) = All-member P xs a h.1 m
