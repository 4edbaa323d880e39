-- ===== src/Ring.antt =====
-- server/ringhash/ringhash.go: the ring of consistent hashing, which gives each topic a node of the
-- cluster. The digest behind `Signature` is not part of it.
pub mod Order
pub mod Search
pub mod Nearest
pub mod Stable
use server_chat.Common.{
  ℕ, ◌+◌, ◌-◌, All, ◌%◌, ◌/◌, ◌^◌, ◌<◌, ◌≤◌, ◌≡◌, ◌⊎◌, ◌↔◌, bit_xor, Bool, true, false, not, ◌&&◌,
  ◌||◌, Option, none, some, List, [], ◌∷◌, ◌++◌, ◌==◌, ltb, length, get_elem?, zero, suc,
  if◌then◌else◌,
}
use server_chat.Common.Bytes.{Bytes}

-- elem
pub record Elem : Type 0 where
  pub key : Bytes
  pub hash : ℕ

-- Go's `<` on strings.
abbrev pub lt_bytes : Bytes → Bytes → Bool
lt_bytes a [] = false
lt_bytes [] (y ∷ b) = true
lt_bytes (x ∷ a) (y ∷ b) = ltb x y || (x == y && lt_bytes a b)

-- sortable.Less
unfoldable pub less : Elem → Elem → Bool
less a b = ltb a.hash b.hash || (a.hash == b.hash && lt_bytes a.key b.key)

-- An item is in the list.
abbrev pub Has : {A : Type 0} → List A → A → Type 0
Has [] e = ⊥
Has (x ∷ xs) e = (x ≡ e) ⊎ Has xs e

-- No item is before one that stands in front of it.
abbrev pub IsAscending : List Elem → Type 0
IsAscending [] = Unit
IsAscending (x ∷ xs) = All (λ (y : Elem). less y x ≡ false) xs × IsAscending xs

-- Go's package `sort`, as far as it is used, with what its documentation says.
pub record SortPackage : Type 0 where
  -- sort.Sort of a `sortable`
  pub sort : List Elem → List Elem
  pub sort_has : (es : List Elem) (e : Elem) → Has (sort es) e ↔ Has es e
  pub sort_ascending : (es : List Elem) → IsAscending (sort es)
  -- sort.Search: the least index with the property, if it holds from there on
  pub search : ℕ → (ℕ → Bool) → ℕ
  pub search_le : (n : ℕ) (f : ℕ → Bool) → search n f ≤ n
  pub search_before :
      (n : ℕ) (f : ℕ → Bool)
      → ((i : ℕ) → suc i < n → f i ≡ true → f (suc i) ≡ true)
      → (i : ℕ) → i < search n f
      → f i ≡ false
  pub search_at :
      (n : ℕ) (f : ℕ → Bool)
      → ((i : ℕ) → suc i < n → f i ≡ true → f (suc i) ≡ true)
      → search n f < n
      → f (search n f) ≡ true

-- checksumIEEEString, with the table of Go's package `crc32`.
module _ (ieee_table : ℕ → ℕ) where
  abbrev pub checksum_step : ℕ → ℕ → ℕ
  checksum_step checksum byte =
      bit_xor (ieee_table (bit_xor (checksum % 2 ^ 8) byte)) (checksum / 2 ^ 8)

  abbrev pub checksum_loop : ℕ → Bytes → ℕ
  checksum_loop checksum [] = checksum
  checksum_loop checksum (byte ∷ value) = checksum_loop (checksum_step checksum byte) value

  abbrev pub flip : ℕ → ℕ
  flip checksum = 2 ^ 32 - 1 - checksum

  unfoldable pub checksum_ieee_string : Bytes → ℕ
  checksum_ieee_string value = flip (checksum_loop (flip 0) value)

-- Ring, without the signature. `New` gives the one without keys.
pub record Ring : Type 0 where
  pub keys : List Elem
  pub replicas : ℕ
  pub hashfunc : Option (Bytes → ℕ)

unfoldable pub new : ℕ → Option (Bytes → ℕ) → Ring
new replicas hashfunc = record { keys = []; replicas = replicas; hashfunc = hashfunc }

-- The test of the binary search.
abbrev pub is_at : Bytes → ℕ → Option Elem → Bool
is_at key hash none = false
is_at key hash (some el) = ltb hash el.hash || (el.hash == hash && not (lt_bytes el.key key))

module _ (ieee_table : ℕ → ℕ) where
  abbrev pub hash_with : Option (Bytes → ℕ) → Bytes → ℕ
  hash_with none value = checksum_ieee_string ieee_table value
  hash_with (some hashfunc) value = hashfunc value

  -- Ring.hashString
  abbrev pub hash_string : Ring → Bytes → ℕ
  hash_string ring value = hash_with ring.hashfunc value

module _ (ieee_table : ℕ → ℕ) (itoa : ℕ → Bytes) where
  abbrev pub replica : Ring → Bytes → ℕ → Elem
  replica ring key i = record { key = key; hash = hash_string ieee_table ring (itoa i ++ key) }

  -- The inner loop of `Add`, from a number on.
  abbrev pub replicas_from : Ring → Bytes → ℕ → ℕ → List Elem
  replicas_from ring key i zero = []
  replicas_from ring key i (suc rest) = replica ring key i ∷ replicas_from ring key (suc i) rest

  abbrev pub append_keys : Ring → List Bytes → List Elem → List Elem
  append_keys ring [] es = es
  append_keys ring (key ∷ keys) es =
      append_keys ring keys (es ++ replicas_from ring key 0 ring.replicas)

  -- Ring.Add
  unfoldable pub add : SortPackage → Ring → List Bytes → Ring
  add go ring keys = record ring { keys = go.sort (append_keys ring keys ring.keys) }

abbrev pub key_of : Option Elem → Bytes
key_of none = []
key_of (some el) = el.key

module _ (ieee_table : ℕ → ℕ) (go : SortPackage) where
  -- Ring.Get
  unfoldable pub get : Ring → Bytes → Bytes
  get ring key =
      if length ring.keys == 0
      then []
      else let hash = hash_string ieee_table ring key in
        let idx = go.search (length ring.keys) (λ i. is_at key hash (get_elem? ring.keys i)) in
        key_of (get_elem? ring.keys (if idx == length ring.keys then 0 else idx))
