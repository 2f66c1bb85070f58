-- ===== src/Game/Trade/Replays.antt =====
-- The answers of zone-server/internal/game/stash_trade_ledger.go to a trade action that comes again.
use Prim.Native.String.{String}
use mathlib.Core.Path.{subst}
use zone.Prelude.{
  ℕ, ◌≡◌, ◌∙◌, sym, ap, refl, Bool, true, false, not, ◌||◌, Option, none, some, arith, ◌==◌,
  comparable_nat, comparable_string, Bool-cases, inl, inr,
}
use zone.Prelude.Map.{lookup-insert_self}
use zone.Protocol.Packets.{
  TradeActionPacket, TradeResultPacket, trade_action_sell, trade_action_buy,
}
use zone.Database.Items.{Conditions}
use zone.Game.Economy.{Bank, Result, ok, failed}
use zone.Game.Ledger.{
  ItemLedger, state_of, new_state, record_floor, lookup_trade, record_trade, allow_action,
}
use zone.Game.Ledger.Cache.{Ring, Inv, empty_ring, find, push, push-At, At-find}
use zone.Game.Ledger.Gate.{Answer, echo, trade_gate, trade_reject, rejected_trade}
use zone.Game.Trade.Wallet.{trade_gate-cases}
use zone.Game.Text.{Texts, null_term, valid_item_section}
use zone.Game.Trade.{
  Traded, answer_sale, trade_sell, answer_purchase, trade_buy, trade_passed, answer_trade,
  handle_trade_action,
}

-- A ledger that is ready to record the answer to an action of the session.
record Open (s a : ℕ) (l : ItemLedger) : Type 0 where
  ring : Inv (state_of s l).trade_cache
  unknown : lookup_trade s a l ≡ none

lookup_trade-find :
    (s a : ℕ) (l : ItemLedger)
    → lookup_trade s a l ≡ find a (state_of s l).trade_cache.len (state_of s l).trade_cache.slots
unfolding lookup_trade new_state empty_ring find
lookup_trade-find s a l = ground arith

state_of-record_trade :
    (s a : ℕ) (p : TradeResultPacket) (l : ItemLedger)
    → (state_of s (record_trade s a p l)).trade_cache ≡ push a p (state_of s l).trade_cache
unfolding record_trade
state_of-record_trade s a p l = ground (
  arith,
  lookup-insert_self s
      (record (record_floor a (state_of s l)) { trade_cache = push a p (state_of s l).trade_cache })
      l.sessions,
)

state_of-allow_action :
    (s now : ℕ) (l : ItemLedger)
    → (state_of s (allow_action s now l).0).trade_cache ≡ (state_of s l).trade_cache
unfolding allow_action
state_of-allow_action s now l = ground (
  arith,
  lookup-insert_self s
      (record (state_of s l) {
        rate = (zone.Limits.allow_action_window l.max_per_s now (state_of s l).rate).0;
      })
      l.sessions,
)

lookup_trade-record_self :
    (s a : ℕ) (p : TradeResultPacket) (l : ItemLedger)
    → Open s a l
    → lookup_trade s a (record_trade s a p l) ≡ some p
lookup_trade-record_self s a p l o =
    let found : Ring TradeResultPacket → Option TradeResultPacket = λ r. find a r.len r.slots in
    let new = sym (lookup_trade-find s a l) ∙ o.unknown in
    let r = (state_of s l).trade_cache in
    lookup_trade-find s a (record_trade s a p l)
    ∙ ap found (state_of-record_trade s a p l)
    ∙ At-find r.pos a p (push a p r) (push-At a p r o.ring new)

allow_action-Open : (s now a : ℕ) (l : ItemLedger) → Open s a l → Open s a (allow_action s now l).0
allow_action-Open s now a l o =
    let same = state_of-allow_action s now l in
    let found : Ring TradeResultPacket → Option TradeResultPacket = λ r. find a r.len r.slots in
    record {
      ring = subst Inv (sym same) o.ring;
      unknown =
          lookup_trade-find s a (allow_action s now l).0
          ∙ ap found same
          ∙ sym (lookup_trade-find s a l)
          ∙ o.unknown;
    }

-- The ledger holds the answer.
record Cached (s a : ℕ) (t : Traded) : Type 0 where
  cached : lookup_trade s a t.ledger ≡ some t.result

module _ (tx : Texts) (fl : Conditions) (max_delta : ℕ) (is_ready : Bool) (session_id : ℕ)
    (uuid : String) where
  answer_sale-Cached :
      (pkt : TradeActionPacket) (delta : ℕ) (capped : Bool) (l : ItemLedger) (b : Bank)
      (r : Result (Option ℕ))
      → Open session_id pkt.action_id l
      → Cached session_id pkt.action_id
          (answer_sale tx fl max_delta is_ready session_id uuid pkt delta capped l b r)
  unfolding answer_sale trade_reject
  answer_sale-Cached pkt delta capped l b (failed e) o = record {
    cached = lookup_trade-record_self session_id pkt.action_id _ l o;
  }
  answer_sale-Cached pkt delta capped l b (ok none) o = record {
    cached = lookup_trade-record_self session_id pkt.action_id _ l o;
  }
  answer_sale-Cached pkt delta capped l b (ok (some c)) o = record {
    cached = lookup_trade-record_self session_id pkt.action_id _ l o;
  }

  answer_purchase-Cached :
      (pkt : TradeActionPacket) (delta : ℕ) (capped : Bool) (condition : ℕ) (l : ItemLedger)
      (b : Bank) (r : Result Bool)
      → Open session_id pkt.action_id l
      → Cached session_id pkt.action_id (
          answer_purchase tx fl max_delta is_ready session_id uuid pkt delta capped condition l b r)
  unfolding answer_purchase trade_reject
  answer_purchase-Cached pkt delta capped condition l b (failed e) o = record {
    cached = lookup_trade-record_self session_id pkt.action_id _ l o;
  }
  answer_purchase-Cached pkt delta capped condition l b (ok false) o = record {
    cached = lookup_trade-record_self session_id pkt.action_id _ l o;
  }
  answer_purchase-Cached pkt delta capped condition l b (ok true) o = record {
    cached = lookup_trade-record_self session_id pkt.action_id _ l o;
  }

  trade_passed-Cached :
      (now : ℕ) (pkt : TradeActionPacket) (l : ItemLedger) (b : Bank)
      → Open session_id pkt.action_id l
      → Cached session_id pkt.action_id
          (trade_passed tx fl max_delta is_ready session_id uuid now pkt l b)
  unfolding trade_passed trade_sell trade_buy trade_reject
  trade_passed-Cached now pkt l b o =
      let recorded = lookup_trade-record_self session_id pkt.action_id (rejected_trade pkt) l o in
      elim (Bool-cases (uuid == "" || not is_ready)) [
        | inl not_ready ↦ rw not_ready (record { cached = recorded })
        | inr ready ↦
            rw ready
              (elim (Bool-cases (
                not (valid_item_section tx (null_term pkt.section))
                || pkt.count == 0
                || pkt.money_delta == 0)) [
                  | inl bad ↦ rw bad (record { cached = recorded })
                  | inr good ↦ rw good (elim (Bool-cases (pkt.action == trade_action_sell)) [
                    | inl sell ↦ rw sell (answer_sale-Cached pkt _ _ l _ _ o)
                    | inr buy ↦ rw buy (answer_purchase-Cached pkt _ _ _ l _ _ o)
                  ])
                ])
      ]

  handle_trade_action-Cached :
      (now : ℕ) (pkt : TradeActionPacket) (l : ItemLedger) (b : Bank)
      → Open session_id pkt.action_id l
      → Cached session_id pkt.action_id
          (handle_trade_action tx fl max_delta is_ready session_id uuid now pkt l b)
  unfolding handle_trade_action answer_trade trade_reject
  handle_trade_action-Cached now pkt l b o =
      let answered : ItemLedger × Answer TradeResultPacket → Type 0 = λ g.
        Cached session_id pkt.action_id
          (answer_trade tx fl max_delta is_ready session_id uuid now pkt b g) in
      let s = session_id in
      let a = pkt.action_id in
      elim (trade_gate-cases (Open s a) s now pkt l o (allow_action-Open s now a l o) o.unknown) [
        | inl (l', o', refused) ↦
            subst answered (sym refused)
              (record { cached = lookup_trade-record_self s a (rejected_trade pkt) l' o' })
        | inr (l', o', passed) ↦ subst answered (sym passed) (trade_passed-Cached now pkt l' b o')
      ]

  trade_gate-cached :
      (later : ℕ) (pkt : TradeActionPacket) (p : TradeResultPacket) (l : ItemLedger)
      → lookup_trade session_id pkt.action_id l ≡ some p
      → pkt.action == trade_action_buy || pkt.action == trade_action_sell ≡ true
      → trade_gate session_id later pkt l ≡ (l, echo p)
  unfolding trade_gate
  trade_gate-cached later pkt p l found known = rw known (rw found refl)

  -- A buying or selling action that the cache did not hold and that comes again after it was
  -- handled, at whatever time, changes neither the bank nor the ledger and is answered with the
  -- result of the first time, if the cache was well-formed.
  pub handle_trade_action-again :
      (now later : ℕ) (pkt : TradeActionPacket) (l : ItemLedger) (b : Bank)
      → Inv (state_of session_id l).trade_cache
      → lookup_trade session_id pkt.action_id l ≡ none
      → pkt.action == trade_action_buy || pkt.action == trade_action_sell ≡ true
      → let handle = handle_trade_action tx fl max_delta is_ready session_id uuid in
        let t = handle now pkt l b in
        let again = handle later pkt t.ledger t.bank in
        (again.bank ≡ t.bank) × (again.ledger ≡ t.ledger) × (again.result ≡ t.result)
  unfolding handle_trade_action answer_trade
  handle_trade_action-again now later pkt l b v new known =
      let t = handle_trade_action tx fl max_delta is_ready session_id uuid now pkt l b in
      let held =
        (handle_trade_action-Cached now pkt l b (record { ring = v; unknown = new })).cached in
      let same =
        ap (answer_trade tx fl max_delta is_ready session_id uuid later pkt t.bank)
          (trade_gate-cached later pkt t.result t.ledger held known) in
      (
        ap (λ (x : Traded). x.bank) same,
        ap (λ (x : Traded). x.ledger) same,
        ap (λ (x : Traded). x.result) same,
      )
