-- ===== src/Sas/Parsing.antt =====
-- ParseConnectionString: what it yields, what it refuses and where it panics.
use iothub.Base.{
  ◌≡◌, ◌≢◌, ◌↔◌, ◌⊎◌, inl, inr, List, [], ◌∷◌, none, some, Str, codes, str_eq, str_eq_iff, arith,
  length, split, cut, Error, Outcome-cases, ok, fail, panic, malformed_connection_string,
  if◌then◌else◌, Option-cases, >>=-eq-ok, ap, ◌∙◌,
}
use iothub.Sas.{
  Credentials, no_credentials, chunk_key, chunk_value, assign, assign_all, parse_connection_string,
}

-- The value of the last chunk with the given key, or the value so far.
abbrev pub last_value : Str → Str → List Str → Str
last_value key so_far [] = so_far
last_value key so_far (chunk ∷ chunks) =
    last_value key
      (elim (cut b'=' chunk) [ none ↦ so_far | some (k, v) ↦ if str_eq k key then v else so_far ])
      chunks

-- What the chunks say, read key by key.
abbrev pub Says : List Str → Credentials → Credentials → Type 0
Says chunks m c =
    (c.host_name ≡ last_value (codes "HostName") m.host_name chunks)
    × (c.device_id ≡ last_value (codes "DeviceId") m.device_id chunks)
    × (c.shared_access_key ≡ last_value (codes "SharedAccessKey") m.shared_access_key chunks)
    × (c.shared_access_key_name
        ≡ last_value (codes "SharedAccessKeyName") m.shared_access_key_name chunks)
    × (c.now ≡ m.now)

-- The keys of a connection string.
abbrev pub IsKnown : Str → Type 0
IsKnown k =
    (k ≡ codes "HostName")
    ⊎ (k ≡ codes "DeviceId")
    ⊎ (k ≡ codes "SharedAccessKey")
    ⊎ (k ≡ codes "SharedAccessKeyName")

assign-known :
    (m c : Credentials) (k v : Str)
    → assign m k (ok v) ≡ ok c
    → (c.host_name ≡ (if str_eq k (codes "HostName") then v else m.host_name))
      × (c.device_id ≡ (if str_eq k (codes "DeviceId") then v else m.device_id))
      × (c.shared_access_key
          ≡ (if str_eq k (codes "SharedAccessKey") then v else m.shared_access_key))
      × (c.shared_access_key_name
          ≡ (if str_eq k (codes "SharedAccessKeyName") then v else m.shared_access_key_name))
      × (c.now ≡ m.now)
unfolding assign
assign-known m c k v e = ground (
  arith,
  str_eq_iff k (codes "HostName"),
  str_eq_iff k (codes "DeviceId"),
  str_eq_iff k (codes "SharedAccessKey"),
  str_eq_iff k (codes "SharedAccessKeyName"),
)

assign_panic_iff : (m : Credentials) (k : Str) → (assign m k panic ≡ panic) ↔ IsKnown k
unfolding assign
assign_panic_iff m k = ground (
  arith,
  str_eq_iff k (codes "HostName"),
  str_eq_iff k (codes "DeviceId"),
  str_eq_iff k (codes "SharedAccessKey"),
  str_eq_iff k (codes "SharedAccessKeyName"),
)

assign_unknown : (m c : Credentials) (k : Str) → assign m k panic ≡ ok c → c ≡ m
unfolding assign
assign_unknown m c k e = ground arith

assign-Says :
    (m c : Credentials) (chunk : Str)
    → assign m (chunk_key chunk) (chunk_value chunk) ≡ ok c
    → Says (chunk ∷ []) m c
assign-Says m c chunk e = elim (Option-cases (cut b'=' chunk)) [
  | inl bare ↦ ground (arith, assign_unknown m c chunk)
  | inr ((k, v), both) ↦ ground (arith, assign-known m c k v)
]

assign_all-Says :
    (m c : Credentials) (chunks : List Str) → assign_all m chunks ≡ ok c → Says chunks m c
unfolding assign_all
assign_all-Says m c [] e = ground arith
assign_all-Says m c (chunk ∷ chunks) e =
    let (m', first, later) = >>=-eq-ok _ _ e in
    let s = assign-Says m m' chunk first in
    let t = assign_all-Says m' c chunks later in
    (
      t.0 ∙ ap (λ x. last_value (codes "HostName") x chunks) s.0,
      t.1 ∙ ap (λ x. last_value (codes "DeviceId") x chunks) s.1,
      t.2 ∙ ap (λ x. last_value (codes "SharedAccessKey") x chunks) s.2,
      t.3 ∙ ap (λ x. last_value (codes "SharedAccessKeyName") x chunks) s.3,
      t.4 ∙ s.4,
    )

-- Some chunk is a known key with no '=' behind it.
abbrev pub HasBareKey : List Str → Type 0
HasBareKey [] = ⊥
HasBareKey (chunk ∷ chunks) = ((cut b'=' chunk ≡ none) × IsKnown chunk) ⊎ HasBareKey chunks

-- A bare chunk panics if it is a known key, and is skipped otherwise.
assign_bare :
    (m : Credentials) (k : Str)
    → (IsKnown k × (assign m k panic ≡ panic)) ⊎ ((¬ IsKnown k) × (assign m k panic ≡ ok m))
unfolding assign
assign_bare m k = ground (
  arith,
  str_eq_iff k (codes "HostName"),
  str_eq_iff k (codes "DeviceId"),
  str_eq_iff k (codes "SharedAccessKey"),
  str_eq_iff k (codes "SharedAccessKeyName"),
)

assign_value : (m : Credentials) (k v : Str) → (c : Credentials) × (assign m k (ok v) ≡ ok c)
unfolding assign
assign_value m k v = elim (Outcome-cases (assign m k (ok v))) [
  | inl done ↦ done
  | inr (inl (x, e)) ↦ absurd (ground arith)
  | inr (inr e) ↦ absurd (ground arith)
]

assign_all_panic_iff :
    (m : Credentials) (chunks : List Str) → (assign_all m chunks ≡ panic) ↔ HasBareKey chunks
unfolding assign_all
assign_all_panic_iff m [] = ground arith
assign_all_panic_iff m (chunk ∷ chunks) = elim (Option-cases (cut b'=' chunk)) [
  | inl bare ↦ ground (arith, assign_bare m chunk, assign_all_panic_iff m chunks)
  | inr ((k, v), both) ↦
      let (m', done) = assign_value m k v in ground (arith, assign_all_panic_iff m' chunks)
]

assign_all-ne-fail :
    (m : Credentials) (chunks : List Str) (x : Error) → assign_all m chunks ≢ fail x
unfolding assign_all
assign_all-ne-fail m [] x = λ e. cc
assign_all-ne-fail m (chunk ∷ chunks) x = elim (Option-cases (cut b'=' chunk)) [
  | inl bare ↦ ground (arith, assign_bare m chunk, assign_all-ne-fail m chunks x)
  | inr ((k, v), both) ↦
      let (m', done) = assign_value m k v in ground (arith, assign_all-ne-fail m' chunks x)
]

-- The number of chunks that ParseConnectionString accepts.
abbrev pub IsRightCount : Str → Type 0
IsRightCount cs = (length (split b';' cs) ≡ 3) ⊎ (length (split b';' cs) ≡ 4)

-- A parsed connection string has three or four chunks, and each field holds the value of the last
-- chunk with the field's key, or is empty where no chunk has it; the test clock is not set.
pub parse_connection_string-Says :
    (cs : Str) (c : Credentials)
    → parse_connection_string cs ≡ ok c
    → IsRightCount cs × Says (split b';' cs) no_credentials c
unfolding parse_connection_string
parse_connection_string-Says cs c e =
    ground (arith, assign_all-Says no_credentials c (split b';' cs))

-- ParseConnectionString returns an error exactly when the number of chunks is neither 3 nor 4.
pub parse_connection_string_fail_iff :
    (cs : Str)
    → (parse_connection_string cs ≡ fail malformed_connection_string) ↔ (¬ IsRightCount cs)
unfolding parse_connection_string
parse_connection_string_fail_iff cs =
    ground (arith, assign_all-ne-fail no_credentials (split b';' cs) malformed_connection_string)

-- It panics exactly when the number of chunks is right and some chunk is one of the four keys with
-- no '=' behind it.
pub parse_connection_string_panic_iff :
    (cs : Str)
    → (parse_connection_string cs ≡ panic) ↔ (IsRightCount cs × HasBareKey (split b';' cs))
unfolding parse_connection_string
parse_connection_string_panic_iff cs =
    ground (arith, assign_all_panic_iff no_credentials (split b';' cs))
