-- ===== src/Options/Snapshots.antt =====
-- What the snapshot of an option chain holds (src/providers/yahoo.py, src/providers/schwab.py).
use mathlib.Core.List.{append_assoc, append-nil, map-append}
use finpipe.Base.{
  ℕ, zero, suc, ◌+◌, ◌-◌, ◌≤◌, ◌≡◌, refl, sym, ◌∙◌, ap, true, false, Bool-cases, inl, inr, List, [],
  ◌∷◌, ◌++◌, map, leb, length, length-append, length-map, take, take-append_within,
  take-append_beyond, take-take, take_all, length-take_full, String, arith,
}
use finpipe.Float.{Float}
use finpipe.Json.{Json}
use finpipe.Options.{
  OptionContract, OptionChain, Query, sides_of, snapshot_row, append_rows, filtered, append_sides,
  snapshot_of,
}

module _ {F : Type 0} where
  -- The loop over a side's contracts, where there is room for `suc room` more rows.
  append_rows_lem :
      (expiration : String) (limit room : ℕ) (cs : List (OptionContract F)) (snapshots : List Json)
      → limit ≡ length snapshots + suc room
      → append_rows expiration limit cs snapshots ≡ (
        snapshots ++ map (snapshot_row expiration) (take (suc room) cs),
        leb (suc room) (length cs),
      )
  unfolding append_rows
  append_rows_lem expiration limit room [] snapshots h = ground (arith, append-nil snapshots)
  append_rows_lem expiration limit zero (c ∷ cs) snapshots h =
      let row = snapshot_row expiration c in
      let full : leb limit (length (snapshots ++ row ∷ [])) ≡ true =
        ground (arith, length-append snapshots (row ∷ [])) in
      rw (full, append_rows) (ground arith)
  append_rows_lem expiration limit (suc room) (c ∷ cs) snapshots h =
      let row = snapshot_row expiration c in
      let count = length-append snapshots (row ∷ []) in
      let not_full : leb limit (length (snapshots ++ row ∷ [])) ≡ false = ground arith in
      let rest = append_rows_lem expiration limit room cs (snapshots ++ row ∷ []) (omega arith) in
      rw (not_full, append_rows)
        (rest
          ∙ rw
              (append_assoc snapshots (row ∷ [])
                (map (snapshot_row expiration) (take (suc room) cs)))
              (ground arith))

module _ {F : Type 0} ⦃fl : Float F⦄ where
  -- the contracts of some sides that are within the bounds, in order
  abbrev pub wanted : Query F → List (List (OptionContract F)) → List (OptionContract F)
  wanted q [] = []
  wanted q (rows ∷ sides) = filtered q rows ++ wanted q sides

  append_sides_lem :
      (expiration : String) (q : Query F) (sides : List (List (OptionContract F)))
      (snapshots : List Json) (room : ℕ)
      → q.limit ≡ length snapshots + suc room
      → append_sides expiration q sides snapshots
        ≡ snapshots ++ map (snapshot_row expiration) (take (suc room) (wanted q sides))
  unfolding append_sides
  append_sides_lem expiration q [] snapshots room h = sym (append-nil snapshots)
  append_sides_lem expiration q (rows ∷ sides) snapshots room h =
      let all_rows = filtered q rows in
      let taken = take q.limit all_rows in
      let later = wanted q sides in
      let done = append_rows_lem expiration q.limit room taken snapshots h in
      elim (Bool-cases (leb (suc room) (length all_rows))) [
        | inl full ↦
            let enough : suc room ≤ length all_rows = ground arith in
            let stops : leb (suc room) (length taken) ≡ true =
              ground (arith, length-take_full (suc room) q.limit all_rows (omega arith) enough) in
            rw
              (done
                ∙ ap (λ b. (snapshots ++ map (snapshot_row expiration) (take (suc room) taken), b))
                    stops)
              (ap (λ l. snapshots ++ map (snapshot_row expiration) l)
                (take-take (suc room) q.limit all_rows (omega arith)
                  ∙ sym (take-append_within (suc room) all_rows later enough)))
        | inr short ↦
            let row = snapshot_row expiration in
            let few : length all_rows ≤ room = ground arith in
            let left = room - length all_rows in
            let e : suc room ≡ length all_rows + suc left = omega arith in
            let appended : append_rows expiration q.limit taken snapshots
                ≡ (snapshots ++ map row all_rows, false) =
              ap (λ l. append_rows expiration q.limit l snapshots)
                (take_all q.limit all_rows (omega arith))
              ∙ append_rows_lem expiration q.limit room all_rows snapshots h
              ∙ rw (take_all (suc room) all_rows (omega arith)) (rw short refl) in
            rw appended (
              append_sides_lem expiration q sides (snapshots ++ map row all_rows) left
                (omega (arith, length-append snapshots (map row all_rows), length-map row all_rows))
              ∙ append_assoc snapshots (map row all_rows) (map row (take (suc left) later))
              ∙ ap (λ l. snapshots ++ l)
                  (sym (map-append row all_rows (take (suc left) later))
                    ∙ ap (map row) (
                        sym (take-append_beyond (suc left) all_rows later)
                        ∙ ap (λ n. take n (all_rows ++ later)) (sym e))))
      ]

  zero_rows :
      (expiration : String) (q : Query F) (sides : List (List (OptionContract F)))
      → q.limit ≡ 0
      → append_sides expiration q sides [] ≡ []
  unfolding append_sides append_rows
  zero_rows expiration q [] h = refl
  zero_rows expiration q (rows ∷ sides) h = rw h (zero_rows expiration q sides h)

  -- A snapshot has the rows of the first `limit` contracts within the bounds on the strike, the calls before
  -- the puts, each side where the type of contract asks for it.
  pub snapshot_of-wanted :
      (q : Query F) (chain : OptionChain F)
      → snapshot_of q chain
        ≡ map (snapshot_row chain.expiration_date) (take q.limit (wanted q (sides_of q chain)))
  unfolding snapshot_of
  snapshot_of-wanted q chain = elim (Bool-cases (leb 1 q.limit)) [
    | inl some_rows ↦
        let e : q.limit ≡ suc (q.limit - 1) = ground arith in
        append_sides_lem chain.expiration_date q (sides_of q chain) [] (q.limit - 1)
          (omega (arith, e))
        ∙ ap (λ n. map (snapshot_row chain.expiration_date) (take n (wanted q (sides_of q chain))))
            (sym e)
    | inr no_rows ↦
        let e : q.limit ≡ 0 = ground arith in
        zero_rows chain.expiration_date q (sides_of q chain) e
        ∙ ap (λ n. map (snapshot_row chain.expiration_date) (take n (wanted q (sides_of q chain))))
            (sym e)
  ]
