-- ===== src/Game/Trade/Wallet.antt =====
-- What the answers of zone-server/internal/game/stash_trade_ledger.go to trade actions say of the
-- purse of the account.
use Prim.Native.String.{String}
use zone.Prelude.{
  ℕ, suc, ◌-◌, ◌^◌, ◌<◌, ◌≡◌, ◌⊎◌, ◌∙◌, sym, ap, refl, Bool, true, false, not, ◌||◌, Option, none,
  some, arith, ltb, min, ◌==◌, comparable_nat, comparable_string, if◌then◌else◌, Bool-cases, inl,
  inr,
}
use mathlib.Core.Path.{subst}
use zone.Prelude.Integers.{ℤ, pos, negsuc, negate}
use zone.Protocol.Packets.{
  TradeActionPacket, TradeResultPacket, trade_action_sell, trade_action_buy, item_result_ok,
  item_result_rejected, item_result_corrected,
}
use zone.Database.Items.{Conditions}
use zone.Game.Economy.{Bank, Result, ok, failed}
use zone.Game.Economy.Purses.{Solvent, Posts, purse, post, add-zero}
use zone.Game.Economy.Posts.{is_true, is_sold, sell_items-Posts, buy_items-Posts}
use zone.Game.Ledger.{ItemLedger, lookup_trade, is_stale, allow_action}
use zone.Game.Ledger.Gate.{Answer, pass, trade_gate, trade_reject}
use zone.Game.Text.{Texts, null_term, valid_item_section}
use zone.Game.Trade.{
  Traded, to_int32, minus_int32, answer_sale, trade_sell, answer_trade, answer_purchase, trade_buy,
  trade_passed, handle_trade_action,
}

-- An `int32` that a client reads.
abbrev pub read_int32 : ℕ → ℤ
read_int32 n = if ltb n (2 ^ 31) then pos n else negsuc (2 ^ 32 - suc n)

read-to_int32 : (n : ℕ) → n < 2 ^ 31 → read_int32 (to_int32 n) ≡ pos n
read-to_int32 n h = ground arith

read-minus_int32 : (n : ℕ) → n < 2 ^ 31 → read_int32 (minus_int32 n) ≡ negate (pos n)
unfolding negate
read-minus_int32 n h = ground arith

post-zero : (uuid who : String) (o : Option ℤ) → post uuid (pos 0) who o ≡ o
post-zero uuid who none = ground arith
post-zero uuid who (some r) = ground (arith, add-zero r)

-- No one owes rubles, and the delta of the result is what the account has more than before.
abbrev pub Told : String → Bank → Bank → ℕ → Type 0
Told uuid b b' delta =
    Solvent b' × ((who : String) → purse who b' ≡ post uuid (read_int32 delta) who (purse who b))

-- The result is a rejection with no delta, or the code of an acceptance with the amount.
abbrev pub Agrees : Bool → ℤ → TradeResultPacket → Type 0
Agrees capped amount res =
    (res.result ≡ item_result_rejected) × (res.money_delta ≡ 0)
    ⊎ (res.result ≡ (if capped then item_result_corrected else item_result_ok))
      × (read_int32 res.money_delta ≡ amount)

record Tells (uuid : String) (b : Bank) (capped : Bool) (amount : ℤ) (t : Traded) : Type 0 where
  told : Told uuid b t.bank t.result.money_delta
  agrees : Agrees capped amount t.result

-- What a trade action asks for, as much of it as the server allows.
abbrev pub asked : ℕ → TradeActionPacket → ℤ
asked max_delta pkt =
    if pkt.action == trade_action_sell
    then pos (min pkt.money_delta max_delta)
    else negate (pos (min pkt.money_delta max_delta))

kept-Told : (uuid : String) (b : Bank) → Solvent b → Told uuid b b 0
kept-Told uuid b v = (v, λ who. sym (post-zero uuid who (purse who b)))

idle-Told :
    (uuid : String) (amount : ℤ) (b b' : Bank) → Posts b b' uuid amount false → Told uuid b b' 0
idle-Told uuid amount b b' k =
    (k.solvent, λ who. k.purses who ∙ sym (post-zero uuid who (purse who b)))

done-Told :
    (uuid : String) (amount : ℤ) (b b' : Bank) (delta : ℕ)
    → Posts b b' uuid amount true
    → read_int32 delta ≡ amount
    → Told uuid b b' delta
done-Told uuid amount b b' delta k same =
    (k.solvent, λ who. k.purses who ∙ ap (λ d. post uuid d who (purse who b)) (sym same))

-- A trade action that the cache does not hold is rejected or goes on, with a ledger that is the old
-- one but for the rate.
pub trade_gate-cases :
    (Kept : ItemLedger → Type 0) (session_id now : ℕ) (pkt : TradeActionPacket) (l : ItemLedger)
    → Kept l
    → Kept (allow_action session_id now l).0
    → lookup_trade session_id pkt.action_id l ≡ none
    → ((l' : ItemLedger) × Kept l'
        × (trade_gate session_id now pkt l ≡ trade_reject session_id pkt l'))
      ⊎ ((l' : ItemLedger) × Kept l' × (trade_gate session_id now pkt l ≡ (l', pass)))
unfolding trade_gate
trade_gate-cases Kept session_id now pkt l kept kept' new =
    elim (Bool-cases (pkt.action == trade_action_buy || pkt.action == trade_action_sell)) [
      | inr unknown ↦ inl (l, kept, rw unknown refl)
      | inl known ↦ rw known (
          rw new (elim (Bool-cases (is_stale session_id pkt.action_id l)) [
            | inl stale ↦ inl (l, kept, rw stale refl)
            | inr fresh ↦ rw fresh (elim (Bool-cases (allow_action session_id now l).1) [
              | inr over ↦ inl ((allow_action session_id now l).0, kept', rw over refl)
              | inl allowed ↦ inr ((allow_action session_id now l).0, kept', rw allowed refl)
            ])
          ]))
    ]

module _ (tx : Texts) (fl : Conditions) (max_delta : ℕ) (is_ready : Bool) (session_id : ℕ)
    (uuid : String) where
  answer_sale-Told :
      (pkt : TradeActionPacket) (delta : ℕ) (capped : Bool) (l : ItemLedger) (b b' : Bank)
      (r : Result (Option ℕ))
      → delta < 2 ^ 31
      → Posts b b' uuid (pos delta) (is_sold r)
      → Tells uuid b capped
          (pos delta)
          (answer_sale tx fl max_delta is_ready session_id uuid pkt delta capped l b' r)
  unfolding answer_sale
  answer_sale-Told pkt delta capped l b b' (failed e) h k = record {
    told = idle-Told uuid (pos delta) b b' k;
    agrees = inl (refl, refl);
  }
  answer_sale-Told pkt delta capped l b b' (ok none) h k = record {
    told = idle-Told uuid (pos delta) b b' k;
    agrees = inl (refl, refl);
  }
  answer_sale-Told pkt delta capped l b b' (ok (some c)) h k = record {
    told = done-Told uuid (pos delta) b b' _ k (read-to_int32 delta h);
    agrees = inr (refl, read-to_int32 delta h);
  }

  answer_purchase-Told :
      (pkt : TradeActionPacket) (delta : ℕ) (capped : Bool) (condition : ℕ) (l : ItemLedger)
      (b b' : Bank) (r : Result Bool)
      → delta < 2 ^ 31
      → Posts b b' uuid (negate (pos delta)) (is_true r)
      → Tells uuid b capped (negate (pos delta)) (
          answer_purchase tx fl max_delta is_ready session_id uuid pkt delta capped condition l b'
            r)
  unfolding answer_purchase
  answer_purchase-Told pkt delta capped condition l b b' (failed e) h k = record {
    told = idle-Told uuid (negate (pos delta)) b b' k;
    agrees = inl (refl, refl);
  }
  answer_purchase-Told pkt delta capped condition l b b' (ok false) h k = record {
    told = idle-Told uuid (negate (pos delta)) b b' k;
    agrees = inl (refl, refl);
  }
  answer_purchase-Told pkt delta capped condition l b b' (ok true) h k = record {
    told = done-Told uuid (negate (pos delta)) b b' _ k (read-minus_int32 delta h);
    agrees = inr (refl, read-minus_int32 delta h);
  }

  trade_passed-Told :
      (now : ℕ) (pkt : TradeActionPacket) (l : ItemLedger) (b : Bank)
      → Solvent b
      → max_delta < 2 ^ 31
      → Tells uuid b
          (ltb max_delta pkt.money_delta)
          (asked max_delta pkt)
          (trade_passed tx fl max_delta is_ready session_id uuid now pkt l b)
  unfolding trade_passed trade_sell trade_buy
  trade_passed-Told now pkt l b v h = elim (Bool-cases (uuid == "" || not is_ready)) [
    | inl not_ready ↦ rw not_ready (record { told = kept-Told uuid b v; agrees = inl (refl, refl) })
    | inr ready ↦
        rw ready
          (elim (Bool-cases (
            not (valid_item_section tx (null_term pkt.section))
            || pkt.count == 0
            || pkt.money_delta == 0)) [
              | inl bad ↦ rw bad (record { told = kept-Told uuid b v; agrees = inl (refl, refl) })
              | inr good ↦ rw good (elim (Bool-cases (pkt.action == trade_action_sell)) [
                | inl sell ↦ rw sell (
                    answer_sale-Told pkt _ _ l b _ _ (omega arith)
                      (sell_items-Posts fl now uuid _ pkt.count _ b v))
                | inr buy ↦ rw buy (
                    answer_purchase-Told pkt _ _ _ l b _ _ (omega arith)
                      (buy_items-Posts fl now uuid _ pkt.count _ _ b v))
              ])
            ])
  ]

  handle_trade_action-Tells :
      (now : ℕ) (pkt : TradeActionPacket) (l : ItemLedger) (b : Bank)
      → Solvent b
      → max_delta < 2 ^ 31
      → lookup_trade session_id pkt.action_id l ≡ none
      → Tells uuid b
          (ltb max_delta pkt.money_delta)
          (asked max_delta pkt)
          (handle_trade_action tx fl max_delta is_ready session_id uuid now pkt l b)
  unfolding handle_trade_action answer_trade trade_reject
  handle_trade_action-Tells now pkt l b v h new =
      let answered : ItemLedger × Answer TradeResultPacket → Type 0 = λ g.
        Tells uuid b (ltb max_delta pkt.money_delta) (asked max_delta pkt)
          (answer_trade tx fl max_delta is_ready session_id uuid now pkt b g) in
      elim (trade_gate-cases (λ l. Unit {0}) session_id now pkt l tt tt new) [
        | inl (l', _, refused) ↦
            subst answered (sym refused)
              (record { told = kept-Told uuid b v; agrees = inl (refl, refl) })
        | inr (l', _, passed) ↦ subst answered (sym passed) (trade_passed-Told now pkt l' b v h)
      ]

  -- While no character owes rubles and the limit of a trade fits an `int32`, the answer to a trade
  -- action that the cache does not hold is a rejection with the amount 0, or has the amount that
  -- was asked for, cut to the limit, as a gain for a sale and as a loss for a purchase, with the
  -- code of a correction if it is over the limit and of success if not. The account has the amount
  -- of the answer more than before, no other purse changes, and no character owes rubles.
  pub handle_trade_action_lem :
      (now : ℕ) (pkt : TradeActionPacket) (l : ItemLedger) (b : Bank)
      → Solvent b
      → max_delta < 2 ^ 31
      → lookup_trade session_id pkt.action_id l ≡ none
      → let t = handle_trade_action tx fl max_delta is_ready session_id uuid now pkt l b in
        Told uuid b t.bank t.result.money_delta
        × Agrees (ltb max_delta pkt.money_delta) (asked max_delta pkt) t.result
  handle_trade_action_lem now pkt l b v h new =
      let k = handle_trade_action-Tells now pkt l b v h new in (k.told, k.agrees)
