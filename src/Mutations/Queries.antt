-- ===== src/Mutations/Queries.antt =====
-- @tanstack/react-query: what the mutations use of its `QueryClient`.
use link_lynx_ai.Common.{
  String, Bool, true, List, [], ◌∷◌, Option, none, some, ◌≡◌, ◌≢◌, ap, str_discrete, All, any, refl,
  ite, false,
}
use link_lynx_ai.Timeline.Data.{MessagePagesData}

abbrev pub QueryKey : Type 0
QueryKey = List String

-- `===` on the parts of two keys.
unfoldable pub query_key_discrete : Discrete QueryKey
unfolding str_discrete
query_key_discrete [] [] = yes refl
query_key_discrete [] (t ∷ ts) = no (λ e. cc)
query_key_discrete (s ∷ ss) [] = no (λ e. cc)
query_key_discrete (s ∷ ss) (t ∷ ts) = elim (str_discrete s t) [
  | no n ↦ no (λ e. n (ap (head_or s) e))
  | yes p ↦ elim (query_key_discrete ss ts) [
    | no n ↦ no (λ e. n (ap tail_of e))
    | yes q ↦ yes (λ i. p i ∷ q i)
  ]
]
  where
    head_or : String → QueryKey → String
    head_or x [] = x
    head_or x (y ∷ ys) = y

    tail_of : QueryKey → QueryKey
    tail_of [] = []
    tail_of (y ∷ ys) = ys

-- `none` is `undefined`.
abbrev pub Entry : Type 0
Entry = QueryKey × Option MessagePagesData

abbrev pub same_key : QueryKey → QueryKey → Bool
same_key k j = ite (query_key_discrete k j) true false

abbrev pub has_key : QueryKey → List Entry → Bool
has_key j entries = any (λ (e : Entry). same_key e.0 j) entries

-- No key twice.
abbrev pub HasDistinctKeys : List Entry → Type 0
HasDistinctKeys [] = Unit
HasDistinctKeys (e ∷ entries) = (has_key e.0 entries ≡ false) × HasDistinctKeys entries

-- What `setQueryData` writes: an updater that gives `undefined` leaves the query as it is.
abbrev pub or_unchanged :
    Option MessagePagesData → Option MessagePagesData → Option MessagePagesData
or_unchanged none current = current
or_unchanged (some data_) current = some data_

-- The client on a state of its cache, and its documented laws.
pub record QueryClient (S : Type 0) : Type 0 where
  pub get_query_data : S → QueryKey → Option MessagePagesData
  pub get_queries_data : S → (QueryKey → Bool) → List Entry
  pub set_query_data : S → QueryKey → (Option MessagePagesData → Option MessagePagesData) → S
  pub get_set :
      (s : S) (k : QueryKey) (f : Option MessagePagesData → Option MessagePagesData)
      → get_query_data (set_query_data s k f) k
        ≡ or_unchanged (f (get_query_data s k)) (get_query_data s k)
  pub get_set_other :
      (s : S) (k j : QueryKey) (f : Option MessagePagesData → Option MessagePagesData)
      → k ≢ j
      → get_query_data (set_query_data s k f) j ≡ get_query_data s j
  pub queries_read :
      (s : S) (p : QueryKey → Bool)
      → All (λ (e : Entry). (e.1 ≡ get_query_data s e.0) × (p e.0 ≡ true)) (get_queries_data s p)
  pub queries_distinct : (s : S) (p : QueryKey → Bool) → HasDistinctKeys (get_queries_data s p)
  pub queries_complete :
      (s : S) (p : QueryKey → Bool) (k : QueryKey) (data_ : MessagePagesData)
      → p k ≡ true
      → get_query_data s k ≡ some data_
      → has_key k (get_queries_data s p) ≡ true
