-- ===== src/Go/Query/Sorting.antt =====
-- Entries sorted by their keys.
use iothub.Base.{
  ◌≡◌, refl, [], ◌∷◌, none, some, Str, arith, All, lookup, Dict, HasDistinctKeys, str_eq,
  str_eq_iff, if◌then◌else◌, ap, ◌∙◌,
}
use iothub.Go.Query.{insert_sorted, sort_keys}
use iothub.Go.Query.Pieces.{singles}

-- Sorting by key loses no entry and makes none up.
lookup-insert_sorted :
    {V : Type 0} (j k : Str) (v : V) (m : Dict V)
    → lookup k m ≡ none
    → lookup j (insert_sorted k v m) ≡ (if str_eq k j then some v else lookup j m)
unfolding lookup insert_sorted
lookup-insert_sorted j k v [] h = refl
lookup-insert_sorted j k v ((i, w) ∷ m) h =
    ground (arith, lookup-insert_sorted j k v m, str_eq_iff i k, str_eq_iff i j, str_eq_iff k j)

pub lookup-sort_keys :
    {V : Type 0} (j : Str) (m : Dict V) → HasDistinctKeys m → lookup j (sort_keys m) ≡ lookup j m
unfolding sort_keys lookup
lookup-sort_keys j [] d = refl
lookup-sort_keys j ((k, v) ∷ m) (f, d) =
    lookup-insert_sorted j k v (sort_keys m) (lookup-sort_keys k m d ∙ f)
    ∙ ap (λ o. if str_eq k j then some v else o) (lookup-sort_keys j m d)

insert_sorted-HasDistinctKeys :
    {V : Type 0} (k : Str) (v : V) (m : Dict V)
    → lookup k m ≡ none
    → HasDistinctKeys m
    → HasDistinctKeys (insert_sorted k v m)
unfolding insert_sorted lookup
insert_sorted-HasDistinctKeys k v [] f d = (refl, tt)
insert_sorted-HasDistinctKeys k v ((i, w) ∷ m) f (g, d) = ground (
  arith,
  insert_sorted-HasDistinctKeys k v m,
  lookup-insert_sorted i k v m,
  str_eq_iff i k,
  str_eq_iff k i,
)

pub sort_keys-HasDistinctKeys :
    {V : Type 0} (m : Dict V) → HasDistinctKeys m → HasDistinctKeys (sort_keys m)
unfolding sort_keys
sort_keys-HasDistinctKeys [] d = tt
sort_keys-HasDistinctKeys ((k, v) ∷ m) (f, d) =
    insert_sorted-HasDistinctKeys k v (sort_keys m) (lookup-sort_keys k m d ∙ f)
      (sort_keys-HasDistinctKeys m d)

insert_sorted-All :
    {V : Type 0} (P : Str × V → Type 0) (k : Str) (v : V) (m : Dict V)
    → P (k, v)
    → All P m
    → All P (insert_sorted k v m)
unfolding insert_sorted
insert_sorted-All P k v [] p h = (p, tt)
insert_sorted-All P k v ((i, w) ∷ m) p (q, h) = ground (arith, insert_sorted-All P k v m p h)

pub sort_keys-All : {V : Type 0} (P : Str × V → Type 0) (m : Dict V) → All P m → All P (sort_keys m)
unfolding sort_keys
sort_keys-All P [] h = tt
sort_keys-All P ((k, v) ∷ m) (p, h) = insert_sorted-All P k v (sort_keys m) p (sort_keys-All P m h)

insert_sorted-singles :
    (k v : Str) (m : Dict Str)
    → insert_sorted k (v ∷ []) (singles m) ≡ singles (insert_sorted k v m)
unfolding insert_sorted
insert_sorted-singles k v [] = refl
insert_sorted-singles k v ((i, w) ∷ m) = ground (arith, insert_sorted-singles k v m)

pub sort_keys-singles : (m : Dict Str) → sort_keys (singles m) ≡ singles (sort_keys m)
unfolding sort_keys
sort_keys-singles [] = refl
sort_keys-singles ((k, v) ∷ m) =
    ap (insert_sorted k (v ∷ [])) (sort_keys-singles m) ∙ insert_sorted-singles k v (sort_keys m)
