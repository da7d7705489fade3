-- ===== src/Projection/Memory.antt =====
-- A table as the function from its keys, which shows that the laws of the client can hold.
use seat_service.Common.{◌≡◌, Bool, Option, none, some, if◌then◌else◌, ap}
use seat_service.Projection.{Projection, IsProjection, upserted}

module _ {Key Row : Type 0} (same : Key → Key → Bool) where
  abbrev pub in_memory : Projection Key Row (Key → Option Row)
  in_memory = record {
    find_unique = λ k t. t k;
    upsert = λ k create update t.
        some (λ j. if same k j then some (upserted create update (t j)) else t j);
    delete_many = λ f t. some (λ j. if f j then none else t j);
  }

  pub in_memory-IsProjection : IsProjection same in_memory
  in_memory-IsProjection = record {
    find-upsert = λ k j create update t t' h. find (ap (λ o. read o j) h);
    find-delete_many = λ f j t t' h. find (ap (λ o. read o j) h);
  }
    where
      read : Option (Key → Option Row) → Key → Option (Option Row)
      read none j = none
      read (some t) j = some (t j)

      find : {a b : Option Row} → some a ≡ some b → b ≡ a
      find e = cc
