-- ===== src/Mutations/MapClient.antt =====
-- A cache of queries as an association list: the laws of `QueryClient` can hold.
use link_lynx_ai.Common.{
  Bool, true, false, not, ◌&&◌, List, [], ◌∷◌, Option, none, some, ◌≡◌, ◌≢◌, refl, ap, sym, ◌∙◌,
  arith, All, if_neg, if◌then◌else◌, lookup, insert, lookup-insert_same, lookup-insert_other,
}
use link_lynx_ai.Timeline.Data.{MessagePagesData}
use link_lynx_ai.Mutations.Queries.{
  QueryKey, Entry, QueryClient, query_key_discrete, has_key, or_unchanged, HasDistinctKeys,
}
use link_lynx_ai.Mutations.Rollback.{has_key-here}

abbrev pub flat : Option (Option MessagePagesData) → Option MessagePagesData
flat none = none
flat (some o) = o

unfoldable pub read : List Entry → QueryKey → Option MessagePagesData
unfolding lookup
read s k = flat (lookup query_key_discrete k s)

unfoldable pub write :
    List Entry → QueryKey → (Option MessagePagesData → Option MessagePagesData) → List Entry
unfolding read insert
write s k f = insert query_key_discrete k (or_unchanged (f (read s k)) (read s k)) s

-- The entries of `whole` with a key of `m`, each once.
unfoldable pub entries_of : (QueryKey → Bool) → List Entry → List Entry → List Entry
unfolding read query_key_discrete
entries_of p whole [] = []
entries_of p whole (e ∷ m) =
    let rest = entries_of p whole m in
    if p e.0 && not (has_key e.0 rest) then (e.0, read whole e.0) ∷ rest else rest

has_key-more :
    (c : Bool) (e : Entry) (rest : List Entry) (k : QueryKey)
    → has_key k rest ≡ true
    → has_key k (if c then e ∷ rest else rest) ≡ true
has_key-more true e rest k h = ground arith
has_key-more false e rest k h = h

has_key-taken :
    (a b : Bool) (e : Entry) (rest : List Entry) (k : QueryKey)
    → e.0 ≡ k
    → a ≡ true
    → has_key k rest ≡ b
    → has_key k (if a && not b then e ∷ rest else rest) ≡ true
has_key-taken false b e rest k q h r = absurd (cc)
has_key-taken true true e rest k q h r = r
has_key-taken true false e rest k q h r = has_key-here e rest k q

read-tail : (x : Entry) (m : List Entry) (k : QueryKey) → x.0 ≢ k → read (x ∷ m) k ≡ read m k
unfolding read lookup
read-tail (j, v) m k n =
    ap flat (if_neg (query_key_discrete j k) n (some v) (lookup query_key_discrete k m))

pub read-write :
    (s : List Entry) (k : QueryKey) (f : Option MessagePagesData → Option MessagePagesData)
    → read (write s k f) k ≡ or_unchanged (f (read s k)) (read s k)
unfolding read write
read-write s k f =
    ap flat (lookup-insert_same query_key_discrete k (or_unchanged (f (read s k)) (read s k)) s)

pub read-write_other :
    (s : List Entry) (k j : QueryKey) (f : Option MessagePagesData → Option MessagePagesData)
    → k ≢ j
    → read (write s k f) j ≡ read s j
unfolding read write
read-write_other s k j f n =
    ap flat
      (lookup-insert_other query_key_discrete k j (or_unchanged (f (read s k)) (read s k)) s n)

module _ (p : QueryKey → Bool) (whole : List Entry) where
  abbrev pub IsRead : Entry → Type 0
  IsRead e = (e.1 ≡ read whole e.0) × (p e.0 ≡ true)

  pub entries_of-IsRead : (m : List Entry) → All IsRead (entries_of p whole m)
  unfolding entries_of
  entries_of-IsRead [] = tt
  entries_of-IsRead (e ∷ m) =
      taken (p e.0) (has_key e.0 (entries_of p whole m)) refl (entries_of-IsRead m)
    where
      taken :
          (a b : Bool)
          → p e.0 ≡ a
          → All IsRead (entries_of p whole m)
          → All IsRead (
              if a && not b
              then (e.0, read whole e.0) ∷ entries_of p whole m
              else entries_of p whole m)
      taken true false h r = ((refl, h), r)
      taken true true h r = r
      taken false b h r = r

  pub entries_of-HasDistinctKeys : (m : List Entry) → HasDistinctKeys (entries_of p whole m)
  unfolding entries_of
  entries_of-HasDistinctKeys [] = tt
  entries_of-HasDistinctKeys (e ∷ m) =
      taken (p e.0) (has_key e.0 (entries_of p whole m)) refl (entries_of-HasDistinctKeys m)
    where
      taken :
          (a b : Bool)
          → has_key e.0 (entries_of p whole m) ≡ b
          → HasDistinctKeys (entries_of p whole m)
          → HasDistinctKeys (
              if a && not b
              then (e.0, read whole e.0) ∷ entries_of p whole m
              else entries_of p whole m)
      taken true false h r = (h, r)
      taken true true h r = r
      taken false b h r = r

  -- A key that is read is among the entries.
  pub entries_of_complete :
      (m : List Entry) (k : QueryKey) (data_ : MessagePagesData)
      → p k ≡ true
      → read m k ≡ some data_
      → has_key k (entries_of p whole m) ≡ true
  unfolding entries_of read lookup
  entries_of_complete [] k data_ h e = absurd (cc)
  entries_of_complete (x ∷ m) k data_ h e = elim (query_key_discrete x.0 k) [
    | yes q ↦
        has_key-taken (p x.0) (has_key x.0 (entries_of p whole m)) (x.0, read whole x.0)
          (entries_of p whole m) k q (ap p q ∙ h)
          (ap (λ j. has_key j (entries_of p whole m)) (sym q))
    | no n ↦
        has_key-more (p x.0 && not (has_key x.0 (entries_of p whole m))) (x.0, read whole x.0)
          (entries_of p whole m) k (entries_of_complete m k data_ h (sym (read-tail x m k n) ∙ e))
  ]

abbrev pub map_client : QueryClient (List Entry)
map_client = record {
  get_query_data = read;
  get_queries_data = λ s p. entries_of p s s;
  set_query_data = write;
  get_set = λ s k f. read-write s k f;
  get_set_other = λ s k j f n. read-write_other s k j f n;
  queries_read = λ s p. entries_of-IsRead p s s;
  queries_distinct = λ s p. entries_of-HasDistinctKeys p s s;
  queries_complete = λ s p k d h e. entries_of_complete p s s k d h e;
}
