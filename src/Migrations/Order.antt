-- ===== src/Migrations/Order.antt =====
-- The order in which migrations/embed.go applies the scripts.
use notip_data_consumer.Prelude.{
  ◌≡◌, inl, inr, refl, true, false, List, [], ◌∷◌, arith, All, Bool-cases, keep, map,
}
use mathlib.Core.List.{Perm}
use mathlib.Core.List.Perm
use notip_data_consumer.Prelude.Bytes.{Bytes}
use notip_data_consumer.Migrations.{
  DirEntry, bytes_leb, insert_name, sort_strings, is_script, script_names,
}

pub bytes_leb_total : (s t : Bytes) → bytes_leb s t ≡ false → bytes_leb t s ≡ true
unfolding bytes_leb
bytes_leb_total [] t h = ground arith
bytes_leb_total (c ∷ s) [] h = refl
bytes_leb_total (c ∷ s) (d ∷ t) h = ground (arith, bytes_leb_total s t)

pub bytes_leb_trans :
    (s t u : Bytes) → bytes_leb s t ≡ true → bytes_leb t u ≡ true → bytes_leb s u ≡ true
unfolding bytes_leb
bytes_leb_trans [] t u h g = refl
bytes_leb_trans (c ∷ s) [] u h g = absurd (ground arith)
bytes_leb_trans (c ∷ s) (d ∷ t) [] h g = absurd (ground arith)
bytes_leb_trans (c ∷ s) (d ∷ t) (e ∷ u) h g = ground (arith, bytes_leb_trans s t u)

abbrev pub IsBelow : Bytes → List Bytes → Type 0
IsBelow x = All (λ y. bytes_leb x y ≡ true)

-- Each name comes before all that follow it.
unfoldable pub IsSorted : List Bytes → Type 0
IsSorted [] = Unit {0}
IsSorted (x ∷ xs) = IsBelow x xs × IsSorted xs

IsBelow-later : (x y : Bytes) (ys : List Bytes) → bytes_leb x y ≡ true → IsBelow y ys → IsBelow x ys
IsBelow-later x y [] h b = tt
IsBelow-later x y (z ∷ ys) h b = (bytes_leb_trans x y z h b.0, IsBelow-later x y ys h b.1)

insert_name-IsBelow :
    (w x : Bytes) (ys : List Bytes)
    → bytes_leb w x ≡ true
    → IsBelow w ys
    → IsBelow w (insert_name x ys)
unfolding insert_name
insert_name-IsBelow w x [] h b = (h, tt)
insert_name-IsBelow w x (y ∷ ys) h b = ground (arith, insert_name-IsBelow w x ys h b.1)

insert_name-IsSorted : (x : Bytes) (ys : List Bytes) → IsSorted ys → IsSorted (insert_name x ys)
unfolding insert_name IsSorted
insert_name-IsSorted x [] s = (tt, tt)
insert_name-IsSorted x (y ∷ ys) s = elim (Bool-cases (bytes_leb x y)) [
  | inl le ↦ rw le ((le, IsBelow-later x y ys le s.0), s)
  | inr gt ↦
      rw gt (insert_name-IsBelow y x ys (bytes_leb_total x y gt) s.0, insert_name-IsSorted x ys s.1)
]

pub sort_strings-IsSorted : (xs : List Bytes) → IsSorted (sort_strings xs)
unfolding sort_strings IsSorted
sort_strings-IsSorted [] = tt
sort_strings-IsSorted (x ∷ xs) = insert_name-IsSorted x (sort_strings xs) (sort_strings-IsSorted xs)

insert_name-Perm : (x : Bytes) (ys : List Bytes) → Perm (insert_name x ys) (x ∷ ys)
unfolding insert_name
insert_name-Perm x [] = Perm.rfl
insert_name-Perm x (y ∷ ys) = elim (Bool-cases (bytes_leb x y)) [
  | inl le ↦ rw le Perm.rfl
  | inr gt ↦ rw gt (Perm.trans (Perm.cons y (insert_name-Perm x ys)) (Perm.swap x y ys))
]

pub sort_strings-Perm : (xs : List Bytes) → Perm (sort_strings xs) xs
unfolding sort_strings
sort_strings-Perm [] = Perm.rfl
sort_strings-Perm (x ∷ xs) =
    Perm.trans (insert_name-Perm x (sort_strings xs)) (Perm.cons x (sort_strings-Perm xs))

pub script_names-keep :
    (entries : List DirEntry)
    → script_names entries ≡ map (λ entry. entry.name) (keep is_script entries)
unfolding script_names
script_names-keep [] = refl
script_names-keep (entry ∷ entries) = ground (arith, script_names-keep entries)
