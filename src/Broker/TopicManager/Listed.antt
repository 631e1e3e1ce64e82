-- ===== src/Broker/TopicManager/Listed.antt =====
-- Where a subscription stands in a list, and what stays of a list without one client.
use aqua.Base.{◌≡◌, ◌≢◌, ◌⊎◌, inl, inr, refl, false, List, [], ◌∷◌, ◌++◌, Bool-cases}
use aqua.Bytes.{Bytes}
use aqua.Topic.{bytes_eq}
use aqua.Broker.TopicManager.{Subscription, without}

-- Where a subscription stands in a list
pub data Listed : Subscription → List Subscription → Type 0 where
  here : {x : Subscription} {xs : List Subscription} → Listed x (x ∷ xs)
  further : {x y : Subscription} {xs : List Subscription} → Listed x xs → Listed x (y ∷ xs)

pub Listed-nonempty : {x : Subscription} {xs : List Subscription} → Listed x xs → xs ≢ []
Listed-nonempty here e = cc
Listed-nonempty (further h) e = cc

pub Listed-left :
    {x : Subscription} {xs : List Subscription} (ys : List Subscription)
    → Listed x xs
    → Listed x (xs ++ ys)
Listed-left ys here = here
Listed-left ys (further h) = further (Listed-left ys h)

pub Listed-right :
    {x : Subscription} (xs : List Subscription) {ys : List Subscription}
    → Listed x ys
    → Listed x (xs ++ ys)
Listed-right [] h = h
Listed-right (y ∷ xs) h = further (Listed-right xs h)

pub Listed-cases :
    {x : Subscription} (xs ys : List Subscription) → Listed x (xs ++ ys) → Listed x xs ⊎ Listed x ys
Listed-cases [] ys h = inr h
Listed-cases (x ∷ xs) ys here = inl here
Listed-cases (y ∷ xs) ys (further h) = elim (Listed-cases xs ys h) [
  | inl l ↦ inl (further l)
  | inr r ↦ inr r
]

pub in_front :
    (c : Bytes) (x y : Subscription) (v : List Subscription)
    → Listed x (y ∷ without c v)
    → bytes_eq y.0 c ≡ false
    → (Listed x (without c v) → Listed x v × (bytes_eq x.0 c ≡ false))
    → Listed x (y ∷ v) × (bytes_eq x.0 c ≡ false)
in_front c x _ v here kept rec = (here, kept)
in_front c x y v (further l) kept rec = let (l', other) = rec l in (further l', other)

-- `without` leaves what is listed under other names.
pub without_sound :
    (client_id : Bytes) (x : Subscription) (v : List Subscription)
    → Listed x (without client_id v)
    → Listed x v × (bytes_eq x.0 client_id ≡ false)
unfolding without
without_sound c x [] h = absurd (Listed-nonempty h refl)
without_sound c x (y ∷ v) h = elim (Bool-cases (bytes_eq y.0 c)) [
  | inl gone ↦ let (l, other) = without_sound c x v (rw gone at h) in (further l, other)
  | inr kept ↦ in_front c x y v (rw kept at h) kept (without_sound c x v)
]

pub without_complete :
    (client_id : Bytes) (x : Subscription) (v : List Subscription)
    → bytes_eq x.0 client_id ≡ false
    → Listed x v
    → Listed x (without client_id v)
unfolding without
without_complete c x [] other l = absurd (Listed-nonempty l refl)
without_complete c x (y ∷ v) other here = rw other here
without_complete c x (y ∷ v) other (further l) = elim (Bool-cases (bytes_eq y.0 c)) [
  | inl gone ↦ rw gone (without_complete c x v other l)
  | inr kept ↦ rw kept (further (without_complete c x v other l))
]
