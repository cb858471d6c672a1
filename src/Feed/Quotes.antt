-- ===== src/Feed/Quotes.antt =====
-- `_apply_quotes` of resources/feedhandler.py: what a batch of quotes adds to the store, and what it
-- leaves as the last id of each symbol.
use nano_tick.Base.{
  map-append, ℕ, ◌≤◌, ◌≡◌, refl, ap, sym, ◌∙◌, Option, List, [], ◌∷◌, ◌++◌, map, length, All,
  All-map, length-append, arith, ok, ◌>>=◌, append-nil, append_assoc, read_all-map,
}
use nano_tick.Base.Dict.{insert}
use mathlib.Core.Path.{subst, ap₂}
use nano_tick.Batch.{dedup}
use nano_tick.Batch.Groups.{
  of_symbol, group_of, Distinct, grouping, grouping_lem, by_symbol-grouping, All-grouping,
}
use nano_tick.Batch.Fresh.{dedup-All}
use nano_tick.Roller.{Roller, feed_quote}
use nano_tick.Roller.Days.{Keeps, feed_quote-Keeps}
use nano_tick.Feed.{
  Handler, Wire, Bridging, last_of, feed_fresh_quotes, apply_quote_groups, apply_quotes,
}
use nano_tick.Feed.Wiring.{View, ReadableQuote}
use nano_tick.Feed.Admitted.{admitted, admitted-insert, dedup-nil, last_after, of_symbol-admitted}

module _ {K T Q R S : Type 0} (dec : Discrete K) (w : Wire K T Q R S) (v : View K T Q R S)
    (bridge : Bridging K R) where
  feed_fresh_quotes-Keeps :
      (fresh : List Q) (h : Handler K T Q R S) (day : ℕ) (ts : List R) (qs : List S)
      → All (ReadableQuote w v) fresh
      → Keeps h.roller day ts qs
      → (roller : Roller R S) × (day' : ℕ) × (feed_fresh_quotes dec w bridge fresh h
          ≡ ok (record h { roller = roller }, length fresh))
        × (day ≤ day')
        × Keeps roller day' ts (qs ++ map v.quote_row fresh)
  unfolding feed_fresh_quotes
  feed_fresh_quotes-Keeps [] h day ts qs all k =
      (h.roller, day, refl, omega arith, rw (append-nil qs) k)
  feed_fresh_quotes-Keeps (t ∷ fresh) h day ts qs all k =
      let (roller, fed, day', run, up, k') =
        feed_quote-Keeps w.row_time w.quote_row_time day (v.quote_row t) (map v.quote_row fresh)
          h.roller ts qs k in
      let rows =
        read_all-map w.quote_row v.quote_row (t ∷ fresh)
          (All-map (ReadableQuote w v) _ (λ x r. r.1) (t ∷ fresh) all) in
      (
        roller,
        day',
        ap
              (λ r. r >>= λ l. feed_quote w.quote_row_time l h.roller >>= λ fed'.
                ok (record h { roller = fed'.0 }, length (t ∷ fresh)))
              rows
            ∙ rw run refl,
        up,
        k',
      )

  -- All groups: the table grows by what is admitted.
  apply_quote_groups-Keeps :
      (groups : List (K × List Q)) (h : Handler K T Q R S) (day : ℕ) (ts : List R) (qs : List S)
      → Distinct dec v.quote_symbol groups
      → All (λ g. All (ReadableQuote w v) g.1) groups
      → Keeps h.roller day ts qs
      → (roller : Roller R S) × (last' : List (K × Option ℕ)) × (day' : ℕ) × (apply_quote_groups dec
            w bridge groups h
          ≡ ok (
            record h { roller = roller; last_quote_id = last' },
            length (admitted dec v.quote_symbol w.quote_id h.last_quote_id groups),
          ))
        × (day ≤ day')
        × Keeps roller day' ts
            (qs ++ map v.quote_row (admitted dec v.quote_symbol w.quote_id h.last_quote_id groups))
        × ((k : K)
            → last_of dec k last'
              ≡ (dedup w.quote_id
                  (group_of dec v.quote_symbol k groups)
                  (last_of dec k h.last_quote_id)).1)
  unfolding apply_quote_groups admitted group_of
  apply_quote_groups-Keeps [] h day ts qs d all keeps = (
    h.roller,
    h.last_quote_id,
    day,
    refl,
    omega arith,
    rw (append-nil qs) keeps,
    λ k.
        sym
          (ap (λ r. r.1) (dedup-nil dec v.quote_symbol w.quote_id (last_of dec k h.last_quote_id))),
  )
  apply_quote_groups-Keeps ((k, group) ∷ groups) h day ts qs d all keeps =
      let last = last_of dec k h.last_quote_id in
      let r = dedup w.quote_id group last in
      let (roller, day₁, run₁, up₁, keeps₁) =
        feed_fresh_quotes-Keeps r.0 (record h { last_quote_id = insert dec k r.1 h.last_quote_id })
          day ts qs (dedup-All w.quote_id (ReadableQuote w v) group last all.0) keeps in
      let h₁ : Handler K T Q R S = record h {
        roller = roller;
        last_quote_id = insert dec k r.1 h.last_quote_id;
      } in
      let (roller', last', day', run', up', keeps', lasts') =
        apply_quote_groups-Keeps groups h₁ day₁ ts (qs ++ map v.quote_row r.0) d.1 all.1 keeps₁ in
      let same = admitted-insert dec v.quote_symbol w.quote_id k r.1 h.last_quote_id groups d.0 in
      let rest = admitted dec v.quote_symbol w.quote_id h.last_quote_id groups in
      (
        roller',
        last',
        day',
        rw (run₁, run', same, length-append r.0 rest) refl,
        omega arith,
        subst (λ l. Keeps roller' day' ts l)
            (append_assoc qs (map v.quote_row r.0)
                (map v.quote_row (admitted dec v.quote_symbol w.quote_id h₁.last_quote_id groups))
              ∙ ap (λ l. qs ++ (map v.quote_row r.0 ++ map v.quote_row l)) same
              ∙ ap (◌++◌ qs) (sym (map-append v.quote_row r.0 rest)))
            keeps',
        λ j.
            lasts' j
            ∙ last_after dec v.quote_symbol w.quote_id j k group groups h.last_quote_id d.0,
      )

  -- A batch of quotes that have symbols and rows is applied and never raises, in the same way.
  pub apply_quotes-Keeps :
      (batch : List Q) (h : Handler K T Q R S) (day : ℕ) (ts : List R) (qs : List S)
      → All (ReadableQuote w v) batch
      → Keeps h.roller day ts qs
      → (more : List Q) × (roller : Roller R S) × (last' : List (K × Option ℕ)) × (day' : ℕ)
        × (apply_quotes dec w bridge batch h
            ≡ ok (record h { roller = roller; last_quote_id = last' }, length more))
        × (day ≤ day')
        × Keeps roller day' ts (qs ++ map v.quote_row more)
        × ((k : K)
            → (of_symbol dec v.quote_symbol k more, last_of dec k last')
              ≡ dedup w.quote_id
                  (of_symbol dec v.quote_symbol k batch)
                  (last_of dec k h.last_quote_id))
  unfolding apply_quotes
  apply_quotes-Keeps batch h day ts qs all keeps =
      let (parts, distinct, uniform) = grouping_lem dec v.quote_symbol batch in
      let groups = grouping dec v.quote_symbol batch in
      let grouped =
        by_symbol-grouping dec v.quote_symbol w.quote_symbol batch
          (All-map (ReadableQuote w v) _ (λ x r. r.0) batch all) in
      let (roller, last', day', run, up, keeps', lasts) =
        apply_quote_groups-Keeps groups h day ts qs distinct
          (All-grouping dec v.quote_symbol (ReadableQuote w v) batch all) keeps in
      (
        admitted dec v.quote_symbol w.quote_id h.last_quote_id groups,
        roller,
        last',
        day',
        ap (λ r. r >>= λ g. apply_quote_groups dec w bridge g h) grouped ∙ run,
        up,
        keeps',
        λ k.
            ap₂ (λ l o. (l, o))
              (of_symbol-admitted dec v.quote_symbol w.quote_id k h.last_quote_id groups distinct
                uniform)
              (lasts k)
            ∙ ap (λ l. dedup w.quote_id l (last_of dec k h.last_quote_id)) (parts k),
      )
