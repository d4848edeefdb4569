-- ===== src/Intel/Order.antt =====
-- The order of news (src/providers/sentiment.py): the sort, and instants that cannot be compared.
use finpipe.Base.{
  ℕ, zero, suc, ◌≤◌, ◌≡◌, refl, ap, Bool, true, false, not, Bool-cases, inl, inr, Option, List, [],
  ◌∷◌, String, take, map, length, filter, any, ◌==◌, all, arith,
}
use finpipe.Intel.Sources.{Python, FeedItem, NewsArticle}
use finpipe.Intel.News.{instant_of, article, insert_newest, newest_first, is_comparable}

-- No article is newer than the one before it.
abbrev pub IsNewest : List NewsArticle → Type 0
IsNewest [] = Unit
IsNewest (x ∷ []) = Unit
IsNewest (x ∷ y ∷ ys) = (y.published_at.moment ≤ x.published_at.moment) × IsNewest (y ∷ ys)

abbrev pub is_at : ℕ → NewsArticle → Bool
is_at m x = x.published_at.moment == m

insert_newest-IsNewest :
    (x : NewsArticle) (xs : List NewsArticle) → IsNewest xs → IsNewest (insert_newest x xs)
unfolding insert_newest
insert_newest-IsNewest x [] h = tt
insert_newest-IsNewest x (y ∷ []) h = ground arith
insert_newest-IsNewest x (y ∷ z ∷ zs) h =
    let rest = insert_newest-IsNewest x (z ∷ zs) h.1 in ground arith

pub newest_first-IsNewest : (xs : List NewsArticle) → IsNewest (newest_first xs)
unfolding newest_first
newest_first-IsNewest [] = tt
newest_first-IsNewest (x ∷ xs) =
    insert_newest-IsNewest x (newest_first xs) (newest_first-IsNewest xs)

filter-insert_newest :
    (m : ℕ) (x : NewsArticle) (xs : List NewsArticle)
    → IsNewest xs
    → filter (is_at m) (insert_newest x xs) ≡ filter (is_at m) (x ∷ xs)
unfolding insert_newest
filter-insert_newest m x [] h = refl
filter-insert_newest m x (y ∷ []) h = ground arith
filter-insert_newest m x (y ∷ z ∷ zs) h =
    let rest = filter-insert_newest m x (z ∷ zs) h.1 in ground arith

pub filter-newest_first :
    (m : ℕ) (xs : List NewsArticle) → filter (is_at m) (newest_first xs) ≡ filter (is_at m) xs
unfolding newest_first
filter-newest_first m [] = refl
filter-newest_first m (x ∷ xs) = ground (
  arith,
  filter-insert_newest m x (newest_first xs) (newest_first-IsNewest xs),
  filter-newest_first m xs,
)

length-insert_newest :
    (x : NewsArticle) (xs : List NewsArticle) → length (insert_newest x xs) ≡ suc (length xs)
unfolding insert_newest
length-insert_newest x [] = refl
length-insert_newest x (y ∷ ys) = ground (arith, length-insert_newest x ys)

pub length-newest_first : (xs : List NewsArticle) → length (newest_first xs) ≡ length xs
unfolding newest_first
length-newest_first [] = refl
length-newest_first (x ∷ xs) =
    ground (arith, length-insert_newest x (newest_first xs), length-newest_first xs)

pub take-all {ℓ} : {A : Type ℓ} (n : ℕ) (xs : List A) → length xs ≤ n → take n xs ≡ xs
take-all zero [] h = refl
take-all zero (x ∷ xs) h = absurd (omega arith)
take-all (suc n) [] h = refl
take-all (suc n) (x ∷ xs) h = ap (λ ys. x ∷ ys) (take-all n xs (omega arith))

naive_among :
    (py : Python) (symbol : Option String) (items : List FeedItem)
    → any (λ item. not (instant_of py item.pub_date).is_aware) items ≡ true
    → all (λ x. x.published_at.is_aware) (map (article py symbol) items) ≡ false
unfolding article
naive_among py symbol [] h = absurd (ground arith)
naive_among py symbol (item ∷ items) h = elim (Bool-cases (instant_of py item.pub_date).is_aware) [
  | inl e ↦ rw e (naive_among py symbol items (rw e at h))
  | inr e ↦ rw e refl
]

aware_among :
    (py : Python) (symbol : Option String) (items : List FeedItem)
    → any (λ item. (instant_of py item.pub_date).is_aware) items ≡ true
    → all (λ x. not x.published_at.is_aware) (map (article py symbol) items) ≡ false
unfolding article
aware_among py symbol [] h = absurd (ground arith)
aware_among py symbol (item ∷ items) h = elim (Bool-cases (instant_of py item.pub_date).is_aware) [
  | inl e ↦ rw e refl
  | inr e ↦ rw e (aware_among py symbol items (rw e at h))
]

pub mixed-not_comparable :
    (py : Python) (symbol : Option String) (items : List FeedItem)
    → any (λ item. (instant_of py item.pub_date).is_aware) items ≡ true
    → any (λ item. not (instant_of py item.pub_date).is_aware) items ≡ true
    → is_comparable (map (article py symbol) items) ≡ false
mixed-not_comparable py symbol items aware naive =
    ground (arith, naive_among py symbol items naive, aware_among py symbol items aware)
