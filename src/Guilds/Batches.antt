-- ===== src/Guilds/Batches.antt =====
-- shared/api/guild-channel-api-client.ts: the batches in which `getChannel` asks the servers.
use link_lynx_ai.Common.{
  ◌≤◌, Bool, not, ◌||◌, List, [], ◌∷◌, ◌++◌, ◌≡◌, refl, ap, arith, length, any, keep, All,
}

-- `slice(index, index + CHANNEL_LOOKUP_BATCH_SIZE)` for index 0, 4, 8 and so on.
unfoldable pub batches {ℓ} : {A : Type ℓ} → List A → List (List A)
batches [] = []
batches (a ∷ []) = (a ∷ []) ∷ []
batches (a ∷ b ∷ []) = (a ∷ b ∷ []) ∷ []
batches (a ∷ b ∷ c ∷ []) = (a ∷ b ∷ c ∷ []) ∷ []
batches (a ∷ b ∷ c ∷ d ∷ rest) = (a ∷ b ∷ c ∷ d ∷ []) ∷ batches rest

abbrev pub concat {ℓ} : {A : Type ℓ} → List (List A) → List A
concat [] = []
concat (xs ∷ xss) = xs ++ concat xss

abbrev pub IsBatch {ℓ} : {A : Type ℓ} → List A → Type 0
IsBatch b = (1 ≤ length b) × (length b ≤ 4)

-- Every item is in one batch, in its order, and no batch is empty or has more than four items.
pub batches_lem {ℓ} :
    {A : Type ℓ} (xs : List A) → (concat (batches xs) ≡ xs) × All IsBatch (batches xs)
unfolding batches
batches_lem [] = (refl, tt)
batches_lem (a ∷ []) = (refl, ((omega arith, omega arith), tt))
batches_lem (a ∷ b ∷ []) = (refl, ((omega arith, omega arith), tt))
batches_lem (a ∷ b ∷ c ∷ []) = (refl, ((omega arith, omega arith), tt))
batches_lem (a ∷ b ∷ c ∷ d ∷ rest) =
    let (whole, sizes) = batches_lem rest in
    (ap (λ xs. a ∷ b ∷ c ∷ d ∷ xs) whole, ((omega arith, omega arith), sizes))

pub any-append {ℓ} :
    {A : Type ℓ} (p : A → Bool) (xs ys : List A) → any p (xs ++ ys) ≡ (any p xs || any p ys)
any-append p [] ys = refl
any-append p (x ∷ xs) ys = ground (arith, any-append p xs ys)

pub any-concat {ℓ} :
    {A : Type ℓ} (p : A → Bool) (xss : List (List A)) → any p (concat xss) ≡ any (any p) xss
any-concat p [] = refl
any-concat p (xs ∷ xss) = ground (arith, any-append p xs (concat xss), any-concat p xss)

pub any-keep {ℓ} :
    {A : Type ℓ} (p q : A → Bool) (xs : List A)
    → (any p (keep (λ x. not (q x)) xs) || any p (keep q xs)) ≡ any p xs
unfolding keep
any-keep p q [] = refl
any-keep p q (x ∷ xs) = ground (arith, any-keep p q xs)
