-- ===== src/Recorder/Once.antt =====
-- The deduplication of tools/receiver.py (and of resources/recorder.py, which is the same): what is
-- processed of a stream that the broker may deliver again.
use nano_tick.Base.{
  ℕ, ◌+◌, ◌<◌, ◌≡◌, refl, sym, ◌∙◌, ap, true, Option, none, some, List, [], ◌∷◌, ◌++◌, Bool-cases,
  inl, inr, arith, leb→le, leb→gt, le→leb, ◌≢◌, append-nil,
}
use nano_tick.Base.Int.{ℤ, negsuc, pos_part, neg_part, ◌≤ℤ◌, leb_ℤ}
use nano_tick.Base.Dict.{insert, lookup-insert_self, lookup-insert_ne}
use mathlib.Core.Path.{subst}
use mathlib.Core.Logic.{if_pos, if_neg}
use nano_tick.Batch.Groups.{of_symbol, of_symbol-append}
use nano_tick.Recorder.{Receiver, or_minus_one, last_seen, on_message, on_messages}

infix 50 ◌<ℤ◌
abbrev pub ◌<ℤ◌ : ℤ → ℤ → Type 0
a <ℤ b = pos_part a + neg_part b < pos_part b + neg_part a

module _ {T : Type 0} (id : T → ℤ) where
  -- The ids rise strictly, from above `lo`, and the last one is `hi`, or `lo` if there is none.
  abbrev pub Rising : ℤ → List T → ℤ → Type 0
  Rising lo [] hi = lo ≡ hi
  Rising lo (t ∷ ts) hi = (lo <ℤ id t) × Rising (id t) ts hi

  Rising-snoc :
      (lo hi : ℤ) (ts : List T) (t : T)
      → Rising lo ts hi
      → hi <ℤ id t
      → Rising lo (ts ++ t ∷ []) (id t)
  Rising-snoc lo hi [] t e h = (subst (λ i. i <ℤ id t) (sym e) h, refl)
  Rising-snoc lo hi (u ∷ ts) t r h = (r.0, Rising-snoc (id u) hi ts t r.1 h)

-- how many messages are well-formed
abbrev pub well_formed : {T : Type 0} → List (Option T) → ℕ
well_formed [] = 0
well_formed (none ∷ ms) = well_formed ms
well_formed (some t ∷ ms) = well_formed ms + 1

module _ {K : Type 0} (dec : Discrete K) where
  pub last_seen_self : (k : K) (n : ℤ) (d : List (K × ℤ)) → last_seen dec k (insert dec k n d) ≡ n
  unfolding last_seen
  last_seen_self k n d = ap or_minus_one (lookup-insert_self dec k n d)

  last_seen_other :
      (j k : K) (n : ℤ) (d : List (K × ℤ))
      → j ≢ k
      → last_seen dec j (insert dec k n d) ≡ last_seen dec j d
  unfolding last_seen
  last_seen_other j k n d h = ap or_minus_one (lookup-insert_ne dec j k n d h)

module _ {K T : Type 0} (dec : Discrete K) (key : T → K) (id : T → ℤ) where
  -- Of each key, what is processed has rising ids, the last of which is remembered.
  abbrev pub IsOnce : Receiver K T → Type 0
  IsOnce r =
      (k : K)
      → Rising id (negsuc 0) (of_symbol dec key k r.processed) (last_seen dec k r.last_trade_id)

  added_same :
      (t : T) (processed : List T) (d : List (K × ℤ))
      → Rising id (negsuc 0) (of_symbol dec key (key t) processed) (last_seen dec (key t) d)
      → last_seen dec (key t) d <ℤ id t
      → Rising id
          (negsuc 0)
          (of_symbol dec key (key t) (processed ++ t ∷ []))
          (last_seen dec (key t) (insert dec (key t) (id t) d))
  unfolding of_symbol
  added_same t processed d rising above =
      rw
        (
          last_seen_self dec (key t) (id t) d,
          of_symbol-append dec key (key t) processed (t ∷ []),
          if_pos (dec (key t) (key t)) refl (t ∷ []) [],
        )
        (Rising-snoc id (negsuc 0) _ (of_symbol dec key (key t) processed) t rising above)

  added_other :
      (k : K) (t : T) (processed : List T) (d : List (K × ℤ))
      → key t ≢ k
      → Rising id (negsuc 0) (of_symbol dec key k processed) (last_seen dec k d)
      → Rising id
          (negsuc 0)
          (of_symbol dec key k (processed ++ t ∷ []))
          (last_seen dec k (insert dec (key t) (id t) d))
  unfolding of_symbol
  added_other k t processed d other rising =
      rw
        (
          last_seen_other dec k (key t) (id t) d (λ e. other (sym e)),
          of_symbol-append dec key k processed (t ∷ []),
          if_neg (dec (key t) k) other (t ∷ []) [],
          append-nil (of_symbol dec key k processed),
        )
        rising

  on_message-IsOnce :
      (m : Option T) (r : Receiver K T) → IsOnce r → IsOnce (on_message dec key id m r)
  unfolding on_message
  on_message-IsOnce none r h = h
  on_message-IsOnce (some t) r h =
      elim (Bool-cases (leb_ℤ (id t) (last_seen dec (key t) r.last_trade_id))) [
        | inl e ↦ rw e h
        | inr e ↦ rw e (λ k. elim (dec (key t) k) [
          | yes same ↦
              subst
                (λ j.
                  Rising id (negsuc 0) (of_symbol dec key j (r.processed ++ t ∷ []))
                    (last_seen dec j (insert dec (key t) (id t) r.last_trade_id)))
                same (added_same t r.processed r.last_trade_id (h (key t)) (leb→gt _ _ e))
          | no other ↦ added_other k t r.processed r.last_trade_id other (h k)
        ])
      ]

  -- If the processed messages of each key have strictly rising trade ids, from 0 on, and the last
  -- trade id of the key is the last of them (or -1), then it is still so after any deliveries.
  pub on_messages-IsOnce :
      (ms : List (Option T)) (r : Receiver K T) → IsOnce r → IsOnce (on_messages dec key id ms r)
  unfolding on_messages
  on_messages-IsOnce [] r h = h
  on_messages-IsOnce (m ∷ ms) r h =
      on_messages-IsOnce ms (on_message dec key id m r) (on_message-IsOnce m r h)

  -- the ids of the well-formed messages are no higher than the last one of their key
  abbrev AllSeen : List (K × ℤ) → List (Option T) → Type 0
  AllSeen d [] = Unit
  AllSeen d (none ∷ ms) = AllSeen d ms
  AllSeen d (some t ∷ ms) = (id t ≤ℤ last_seen dec (key t) d) × AllSeen d ms

  seen_again :
      (ms : List (Option T)) (r : Receiver K T)
      → AllSeen r.last_trade_id ms
      → on_messages dec key id ms r ≡ record r { duplicates = r.duplicates + well_formed ms }
  unfolding on_messages on_message
  seen_again [] r h = ap (λ n. record r { duplicates = n }) (omega arith)
  seen_again (none ∷ ms) r h = seen_again ms r h
  seen_again (some t ∷ ms) r h =
      let e : leb_ℤ (id t) (last_seen dec (key t) r.last_trade_id) ≡ true = le→leb _ _ h.0 in
      rw e (
        seen_again ms (record r { duplicates = r.duplicates + 1 }) h.1
        ∙ ap (λ n. record r { duplicates = n }) (omega arith))

  grows :
      (m : Option T) (r : Receiver K T) (k : K)
      → last_seen dec k r.last_trade_id ≤ℤ last_seen dec k (on_message dec key id m r).last_trade_id
  unfolding on_message
  grows none r k = omega arith
  grows (some t) r k = elim (Bool-cases (leb_ℤ (id t) (last_seen dec (key t) r.last_trade_id))) [
    | inl e ↦ rw e (omega arith)
    | inr e ↦ elim (dec (key t) k) [
      | yes same ↦
          subst
            (λ j.
              last_seen dec j r.last_trade_id
              ≤ℤ last_seen dec j (on_message dec key id (some t) r).last_trade_id)
            same
            (rw (on_message, e, last_seen_self dec (key t) (id t) r.last_trade_id)
              (omega (arith, leb→gt _ _ e)))
      | no other ↦
          rw (e, last_seen_other dec k (key t) (id t) r.last_trade_id (λ i. other (sym i)))
            (omega arith)
    ]
  ]

  all_grow :
      (ms : List (Option T)) (r : Receiver K T) (k : K)
      → last_seen dec k r.last_trade_id
        ≤ℤ last_seen dec k (on_messages dec key id ms r).last_trade_id
  unfolding on_messages
  all_grow [] r k = omega arith
  all_grow (m ∷ ms) r k =
      let r' = on_message dec key id m r in omega (arith, grows m r k, all_grow ms r' k)

  head_seen :
      (t : T) (r : Receiver K T)
      → id t ≤ℤ last_seen dec (key t) (on_message dec key id (some t) r).last_trade_id
  unfolding on_message
  head_seen t r = elim (Bool-cases (leb_ℤ (id t) (last_seen dec (key t) r.last_trade_id))) [
    | inl e ↦ rw e (leb→le _ _ e)
    | inr e ↦ rw (e, last_seen_self dec (key t) (id t) r.last_trade_id) (omega arith)
  ]

  on_messages-AllSeen :
      (ms : List (Option T)) (r : Receiver K T)
      → AllSeen (on_messages dec key id ms r).last_trade_id ms
  unfolding on_messages
  on_messages-AllSeen [] r = tt
  on_messages-AllSeen (none ∷ ms) r = on_messages-AllSeen ms (on_message dec key id none r)
  on_messages-AllSeen (some t ∷ ms) r =
      let r' = on_message dec key id (some t) r in
      (omega (arith, head_seen t r, all_grow ms r' (key t)), on_messages-AllSeen ms r')

  -- When the same messages are delivered again, none of them is processed: each well-formed
  -- one is counted as a duplicate and nothing else changes.
  pub redelivery_ignored :
      (ms : List (Option T)) (r : Receiver K T)
      → let r' = on_messages dec key id ms r in
        on_messages dec key id ms r' ≡ record r' { duplicates = r'.duplicates + well_formed ms }
  redelivery_ignored ms r = seen_again ms (on_messages dec key id ms r) (on_messages-AllSeen ms r)
