-- ===== src/Feed/Gap.antt =====
-- The gap that `_maybe_rebridge` of resources/feedhandler.py closes, over the `bridge` of
-- resources/backfill.py. A REST trade is any type that shows its id and becomes a row of a symbol.
use nano_tick.Base.{
  ℕ, suc, ◌+◌, ◌<◌, ◌≡◌, refl, Option, none, some, List, take, length, ltb, if◌then◌else◌,
  Bool-cases, inl, inr, ap, ◌∙◌, Result, ok, raise, Error,
}
use nano_tick.Base.Dict.{insert}
use nano_tick.Store.{Table, max_stored}
use nano_tick.Bridge.{Bridged, bridge}
use nano_tick.Bridge.Pages.{Ascending, from_start}
use nano_tick.Bridge.Gapless.{with_trades, wanted, bridge-gapless}
use nano_tick.Feed.Queue.{IsFirstNew, first_new-IsFirstNew}
use nano_tick.Feed.{
  Handler, Wire, Bridging, last_of, discard, first_new, close_gap, rebridge_from, maybe_rebridge,
}

-- the table that a bridge leaves; to lack fuel is made an error
unfoldable pub bridged_table : {R : Type 0} → Option (Result (Bridged R)) → Result (Table R)
bridged_table none = raise Error.runtime_error
bridged_table (some (raise e)) = raise e
bridged_table (some (ok b)) = ok b.table

module _ {K T Q R S A : Type 0} (dec : Discrete K) (w : Wire K T Q R S) (rest_id : A → ℕ)
    (rest_row : K → A → R) (fetch : K → ℕ → ℕ → Result (List A)) (p fuel : ℕ) where
  -- `backfill.bridge(self._config, self._writer, sym, target_id)`, in pages of p + 1 trades
  unfoldable pub bridging : Bridging K R
  unfolding bridged_table
  bridging k target table = bridged_table (
      bridge rest_id (rest_row k) (fetch k) (suc p) fuel target
        (max_stored dec w.row_symbol w.row_id k table) table)

  module _ (k : K) (archive : List A) (ascending : Ascending rest_id 0 archive)
      (serves : (s : ℕ)
        → fetch k s (suc p) ≡ ok (take (suc p) (from_start rest_id s archive))) where
    abbrev pub missing : ℕ → ℕ → List A
    missing floor first =
        wanted rest_id (rest_row k) (fetch k) p archive ascending serves (some first) (floor + 1)

    -- the handler after a rebridge whose first new id is this one, if there is any
    abbrev pub after_first : ℕ → ℕ → Handler K T Q R S → Option ℕ → Handler K T Q R S
    after_first floor last h none = h
    after_first floor last h (some first) =
        let settled = discard dec k h.pending_rebridge in
        if ltb (last + 1) first
        then (let table = with_trades (rest_row k) (missing floor first) h.roller.store.trade in
            record h {
              roller = record h.roller { store = record h.roller.store { trade = table } };
              last_id = insert dec k (max_stored dec w.row_symbol w.row_id k table) h.last_id;
              pending_rebridge = settled;
            })
        else record h { pending_rebridge = settled }

    rebridge_from-bridging :
        (floor last : ℕ) (o : Option ℕ) (h : Handler K T Q R S)
        → max_stored dec w.row_symbol w.row_id k h.roller.store.trade ≡ some floor
        → length (from_start rest_id (floor + 1) archive) < fuel
        → rebridge_from dec w bridging k (some last) o h ≡ ok (after_first floor last h o)
    unfolding rebridge_from close_gap bridging
    rebridge_from-bridging floor last none h stored enough = refl
    rebridge_from-bridging floor last (some first) h stored enough =
        elim (Bool-cases (ltb (last + 1) first)) [
          | inl wide ↦
              let filled =
                bridge-gapless rest_id (rest_row k) (fetch k) p archive ascending serves fuel
                  (some first) floor h.roller.store.trade enough in
              rw (wide, stored, filled) refl
          | inr e ↦ rw e refl
        ]

    -- Against an API that serves the archive of a symbol in ascending pages, with a known last id and
    -- fuel for one round more than the trades left, a rebridge does what the first new id of the batch
    -- asks for, which is the least of its ids above the last one. Without a new id nothing changes.
    -- When no id lies between the last one and the first new one, the symbol is pending no more.
    -- Otherwise the trades gain every trade of the archive between the highest stored id and the first
    -- new one, once and in order, the last id is read back from the table, and the symbol is pending
    -- no more.
    pub maybe_rebridge-bridging :
        (floor last : ℕ) (trades : List T) (h : Handler K T Q R S)
        → max_stored dec w.row_symbol w.row_id k h.roller.store.trade ≡ some floor
        → last_of dec k h.last_id ≡ some last
        → length (from_start rest_id (floor + 1) archive) < fuel
        → (first : Option ℕ) × IsFirstNew w.id (some last) trades first
          × (maybe_rebridge dec w bridging k trades h ≡ ok (after_first floor last h first))
    unfolding maybe_rebridge
    maybe_rebridge-bridging floor last trades h stored known enough =
        let first = first_new w.id (some last) trades in
        (
          first,
          first_new-IsFirstNew w.id (some last) trades,
          ap (λ o. rebridge_from dec w bridging k o (first_new w.id o trades) h) known
              ∙ rebridge_from-bridging floor last first h stored enough,
        )
