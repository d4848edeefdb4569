-- ===== src/Facade/Closing.antt =====
-- What closing a client comes to (src/client.py, src/catalog/adapter_registry.py, src/providers/schwab.py).
use finpipe.Base.{
  ◌≡◌, refl, sym, ap, ◌∙◌, true, false, Bool-cases, inl, inr, some, List, [], ◌∷◌, ◌++◌, String,
  str_eq, eq_iff, Dict, lookup, insert, lookup-insert, contains, all, if◌then◌else◌, arith,
}
use finpipe.Errors.{Exn, Done, ok, raise}
use finpipe.Cache.Manager.{Manager}
use finpipe.Facade.Adapters.{
  HttpClient, call_client, Adapter, call_clients, with_clients, close_adapter, stored, close_key,
  and_then, close_keys, closed_keys, close_caches, close_tradingview, Client, with_adapters,
  close_registry, close_client,
}
use finpipe.Facade.Loops.{
  no_aclose, closed_at, is_other, closed_at-same, close_key-other, and_then-ok, close_keys-others,
}

-- the keys that `close` gets to before Schwab's
abbrev pub first_keys : List String
first_keys =
    "alpha_vantage" ∷ "massive" ∷ "fred" ∷ "screener" ∷ "sentiment" ∷ "groq" ∷ "gemini" ∷ "nvidia"
    ∷ []

close_keys-append :
    (keys others : List String) (d : Dict Adapter)
    → all is_other keys ≡ true
    → close_keys (keys ++ others) d ≡ close_keys others (close_keys keys d).1
unfolding close_keys
close_keys-append [] others d h = refl
close_keys-append (key ∷ keys) others d h =
    let one = close_key-other key d (ground arith) in
    and_then-ok (close_key key d) (close_keys (keys ++ others)) one.0
    ∙ close_keys-append keys others (close_key key d).1 (ground arith)
    ∙ ap (λ r. close_keys others r.1) (sym (and_then-ok (close_key key d) (close_keys keys) one.0))

call_clients-aclose :
    (c : HttpClient) (cs : List HttpClient)
    → call_clients "aclose" (c ∷ cs) ≡ (raise no_aclose, c ∷ cs)
unfolding call_clients call_client
call_clients-aclose c cs = refl

and_then-raise :
    {S : Type 0} (r : Done × S) (next : S → Done × S) (e : Exn)
    → r.0 ≡ raise e
    → and_then r next ≡ r
and_then-raise (ok x, s) next e h = absurd (ground arith)
and_then-raise (raise x, s) next e h = refl

close_key-schwab :
    (d : Dict Adapter) (a : Adapter) (c : HttpClient) (cs : List HttpClient)
    → lookup "schwab" d ≡ some a
    → a.clients ≡ c ∷ cs
    → close_key "schwab" d ≡ (raise no_aclose, insert "schwab" (record a { clients = c ∷ cs }) d)
unfolding close_key close_adapter
close_key-schwab d a c cs found has =
    rw (found, close_key)
      (ap (λ r. stored "schwab" d (with_clients a r))
        (ap (call_clients "aclose") has ∙ call_clients-aclose c cs))

-- The loop of `AdapterRegistry.close` ends at Schwab's adapter, with the ones before it closed.
close_keys-raises :
    (d : Dict Adapter) (a : Adapter) (c : HttpClient) (cs : List HttpClient)
    → lookup "schwab" d ≡ some a
    → a.clients ≡ c ∷ cs
    → ((close_keys closed_keys d).0 ≡ raise no_aclose)
      × ((j : String)
          → contains j first_keys ≡ true
          → closed_at j (close_keys closed_keys d).1 ≡ true)
unfolding close_keys
close_keys-raises d a c cs found has =
    let before = close_keys-others first_keys d refl in
    let d1 = (close_keys first_keys d).1 in
    let last = close_key-schwab d1 a c cs (before.3 "schwab" refl ∙ found) has in
    let whole : close_keys closed_keys d
        ≡ (raise no_aclose, insert "schwab" (record a { clients = c ∷ cs }) d1) =
      close_keys-append first_keys ("schwab" ∷ []) d refl
      ∙ and_then-raise (close_key "schwab" d1) (close_keys []) no_aclose (ap (λ r. r.0) last)
      ∙ last in
    (
      rw whole refl,
      (λ j h. rw whole (
          closed_at-same j (insert "schwab" (record a { clients = c ∷ cs }) d1) d1
            (rw (lookup-insert "schwab" j (record a { clients = c ∷ cs }) d1, not_schwab j h) refl)
            (before.2 j h))),
    )
  where
    not_schwab : (j : String) → contains j first_keys ≡ true → str_eq "schwab" j ≡ false
    not_schwab j h = elim (Bool-cases (str_eq "schwab" j)) [
      | inr e ↦ e
      | inl e ↦
          let e' : "schwab" ≡ j = (eq_iff "schwab" j).0 e in
          let h' : contains "schwab" first_keys ≡ true = ap (λ k. contains k first_keys) e' ∙ h in
          absurd (ground arith)
    ]

with_adapters-raise :
    (f : Client) (r : Done × Dict Adapter) (e : Exn)
    → r.0 ≡ raise e
    → with_adapters f r ≡ (raise e, record f { adapters = r.1 })
with_adapters-raise f (ok x, d) e h = absurd (ground arith)
with_adapters-raise f (raise x, d) e h = ground arith

-- the manager behind the closing of the adapters' own caches
abbrev own_closed : Client → Manager
own_closed f =
    if f.cache.singleton
    then f.manager
    else record f.manager { closed = close_caches f.adapters [] f.manager.closed }

-- A client that has Schwab's adapter with a client of its own cannot be closed: `close` raises
-- AttributeError, the shared caches are never shut down, and it has closed the adapters before Schwab's.
pub close_client-raises :
    (f : Client) (a : Adapter) (c : HttpClient) (cs : List HttpClient)
    → lookup "schwab" f.adapters ≡ some a
    → a.clients ≡ c ∷ cs
    → ((close_client f).0 ≡ raise no_aclose)
      × (f.cache.singleton ≡ true → (close_client f).1.manager ≡ f.manager)
      × ((j : String)
          → contains j first_keys ≡ true
          → closed_at j (close_client f).1.adapters ≡ true)
unfolding close_client close_registry
close_client-raises f a c cs found has =
    let keys = close_keys-raises f.adapters a c cs found has in
    let stop =
      and_then-raise (close_keys closed_keys f.adapters) close_tradingview no_aclose keys.0 in
    let g = record f { manager = own_closed f } in
    let ended : close_registry f
        ≡ (raise no_aclose, record g { adapters = (close_keys closed_keys f.adapters).1 }) =
      ap (with_adapters g) stop
      ∙ with_adapters-raise g (close_keys closed_keys f.adapters) no_aclose keys.0 in
    let whole : close_client f
        ≡ (raise no_aclose, record g { adapters = (close_keys closed_keys f.adapters).1 }) =
      and_then-raise (close_registry f) _ no_aclose (ap (λ r. r.0) ended) ∙ ended in
    (
      ap (λ r. r.0) whole,
      (λ h. ap (λ r. r.1.manager) whole ∙ rw h refl),
      (λ j h. rw whole (keys.1 j h)),
    )
