-- ===== src/Facade/Loops.antt =====
-- The loop of `AdapterRegistry.close` in src/catalog/adapter_registry.py over adapters other than Schwab's.
use finpipe.Base.{
  ◌≡◌, refl, ◌∙◌, Bool, true, false, not, Bool-cases, Option-cases, inl, inr, none, some, List, [],
  ◌∷◌, String, str_eq, eq_iff, eq_refl, Dict, lookup, insert, lookup-insert, contains, all, arith,
}
use finpipe.Errors.{Exn, Done, ok, raise, attribute_error}
use finpipe.Facade.Adapters.{
  HttpClient, call_client, Adapter, call_clients, closing_method, with_clients, close_adapter,
  close_key, and_then, close_keys,
}

abbrev pub no_aclose : Exn
no_aclose = attribute_error "'ResilientHttpClient' object has no attribute 'aclose'"

abbrev pub is_closed : Adapter → Bool
is_closed a = all (λ c. not c.is_open) a.clients

-- The adapter of the key, if there is one, has no open client.
abbrev pub closed_at : String → Dict Adapter → Bool
closed_at key d = elim (lookup key d) [ none ↦ true | some a ↦ is_closed a ]

abbrev pub is_other : String → Bool
is_other key = not (str_eq key "schwab")

call_clients-close :
    (cs : List HttpClient)
    → ((call_clients "close" cs).0 ≡ ok tt)
      × (all (λ c. not c.is_open) (call_clients "close" cs).1 ≡ true)
unfolding call_clients call_client
call_clients-close [] = (refl, refl)
call_clients-close (c ∷ cs) = call_clients-close cs

close_key-found :
    (key : String) (d : Dict Adapter) (a : Adapter)
    → is_other key ≡ true
    → lookup key d ≡ some a
    → (a' : Adapter) × (close_key key d ≡ (ok tt, insert key a' d)) × (is_closed a' ≡ true)
unfolding close_key close_adapter
close_key-found key d a other found =
    let (done, closed) = call_clients-close a.clients in
    let name : closing_method key ≡ "close" = ground arith in
    (
      record a { clients = (call_clients "close" a.clients).1 },
      rw (found, close_key) (rw (name, close_adapter) (rw (done, with_clients) refl)),
      closed,
    )

close_key-absent :
    (key : String) (d : Dict Adapter) → lookup key d ≡ none → close_key key d ≡ (ok tt, d)
unfolding close_key
close_key-absent key d e = rw (e, close_key) refl

closed_at-found :
    (key : String) (d : Dict Adapter) (a : Adapter)
    → lookup key d ≡ some a
    → is_closed a ≡ true
    → closed_at key d ≡ true
closed_at-found key d a e h = rw (e, closed_at) h

pub closed_at-same :
    (key : String) (d d' : Dict Adapter)
    → lookup key d ≡ lookup key d'
    → closed_at key d' ≡ true
    → closed_at key d ≡ true
closed_at-same key d d' e h = rw (e, closed_at) h

pub close_key-other :
    (key : String) (d : Dict Adapter)
    → is_other key ≡ true
    → ((close_key key d).0 ≡ ok tt)
      × (closed_at key (close_key key d).1 ≡ true)
      × ((j : String) → str_eq key j ≡ false → lookup j (close_key key d).1 ≡ lookup j d)
close_key-other key d other = elim (Option-cases (lookup key d)) [
  | inl e ↦
      let e' = close_key-absent key d e in
      (rw e' refl, rw e' (rw (e, closed_at) refl), (λ j h. rw e' refl))
  | inr (a, e) ↦ present (close_key-found key d a other e)
]
  where
    present :
        (a' : Adapter) × (close_key key d ≡ (ok tt, insert key a' d)) × (is_closed a' ≡ true)
        → ((close_key key d).0 ≡ ok tt)
          × (closed_at key (close_key key d).1 ≡ true)
          × ((j : String) → str_eq key j ≡ false → lookup j (close_key key d).1 ≡ lookup j d)
    present (a', e, closed) = (
      rw e refl,
      rw e (
          closed_at-found key (insert key a' d) a'
            (rw (lookup-insert key key a' d, eq_refl key) refl) closed),
      (λ j h. rw (e, lookup-insert key j a' d, h) refl),
    )

-- a key stays closed when another adapter, or it again, is closed
close_key-keeps :
    (key j : String) (d : Dict Adapter)
    → is_other key ≡ true
    → closed_at j d ≡ true
    → closed_at j (close_key key d).1 ≡ true
close_key-keeps key j d other h = elim (Bool-cases (str_eq key j)) [
  | inl e ↦ rw (← (eq_iff key j).0 e) (close_key-other key d other).1
  | inr e ↦ closed_at-same j (close_key key d).1 d ((close_key-other key d other).2 j e) h
]

pub and_then-ok :
    {S : Type 0} (r : Done × S) (next : S → Done × S) → r.0 ≡ ok tt → and_then r next ≡ next r.1
and_then-ok (ok x, s) next h = refl
and_then-ok (raise e, s) next h = absurd (ground arith)

-- The loop over keys other than Schwab's: it ends, closes them all, and leaves other adapters alone.
pub close_keys-others :
    (keys : List String) (d : Dict Adapter)
    → all is_other keys ≡ true
    → ((close_keys keys d).0 ≡ ok tt)
      × ((j : String) → closed_at j d ≡ true → closed_at j (close_keys keys d).1 ≡ true)
      × ((j : String) → contains j keys ≡ true → closed_at j (close_keys keys d).1 ≡ true)
      × ((j : String) → contains j keys ≡ false → lookup j (close_keys keys d).1 ≡ lookup j d)
unfolding close_keys
close_keys-others [] d others = (refl, (λ j h. h), (λ j h. absurd (ground arith)), (λ j h. refl))
close_keys-others (key ∷ keys) d others =
    let one = close_key-other key d (ground arith) in
    let rest = close_keys-others keys (close_key key d).1 (ground arith) in
    let step = and_then-ok (close_key key d) (close_keys keys) one.0 in
    (
      rw step rest.0,
      (λ j h. rw step (rest.1 j (close_key-keeps key j d (ground arith) h))),
      (λ j h. rw step (elim (Bool-cases (str_eq key j)) [
        | inl e ↦ rest.1 j (rw (← (eq_iff key j).0 e) one.1)
        | inr e ↦ rest.2 j (ground arith)
      ])),
      (λ j h. rw step (rest.3 j (ground arith) ∙ one.2 j (ground arith))),
    )
