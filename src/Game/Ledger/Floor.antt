-- ===== src/Game/Ledger/Floor.antt =====
-- The replay floor and the replayed answers of zone-server/internal/game/item_ledger.go.
use zone.Prelude.{
  ℕ, ◌≤◌, ◌<◌, ◌≡◌, ◌∙◌, sym, ap, refl, true, false, none, some, List, [], ◌∷◌, arith, length, leb,
  ◌==◌, comparable_nat, if◌then◌else◌,
}
use zone.Prelude.Map.{lookup-insert, lookup-insert_self}
use zone.Protocol.Packets.{
  ItemUpdatePacket, ContainerUpdatePacket, StashResultPacket, TradeResultPacket,
}
use zone.Game.Ledger.Cache.{Ring, Inv, empty_ring, find, push, push_all, push_all-find, AllOther}
use zone.Game.Ledger.{
  ItemLedger, ItemActionState, state_of, put_state, record_floor, lookup_item, record_item,
  record_container, record_stash, record_trade, is_stale, new_state,
}

is_stale-put :
    (s t b a : ℕ) (st : ItemActionState) (l : ItemLedger)
    → st.has_last ≡ true
    → st.last_action_id ≡ a
    → is_stale t b (put_state s st l) ≡ (if s == t then leb b a else is_stale t b l)
unfolding is_stale
is_stale-put s t b a st l h e = ground (arith, lookup-insert t s st l.sessions)

-- Recording an answer of any of the four kinds sets the session's floor to the action, and leaves
-- the floors of other sessions.
pub is_stale-record :
    (s t a b : ℕ) (l : ItemLedger) (i : ItemUpdatePacket) (c : ContainerUpdatePacket)
    (r : StashResultPacket) (d : TradeResultPacket)
    → let floor = if s == t then leb b a else is_stale t b l in
      (is_stale t b (record_item s a i l) ≡ floor)
      × (is_stale t b (record_container s a c l) ≡ floor)
      × (is_stale t b (record_stash s a r l) ≡ floor)
      × (is_stale t b (record_trade s a d l) ≡ floor)
unfolding record_item record_container record_stash record_trade
is_stale-record s t a b l i c r d = (
  is_stale-put s t b a _ l refl refl,
  is_stale-put s t b a _ l refl refl,
  is_stale-put s t b a _ l refl refl,
  is_stale-put s t b a _ l refl refl,
)

-- Two actions of a session: if the higher one is stale, so is the lower one.
pub is_stale-below :
    (s a b : ℕ) (l : ItemLedger) → a ≤ b → is_stale s b l ≡ true → is_stale s a l ≡ true
unfolding is_stale
is_stale-below s a b l h stale = ground arith

pub is_stale-record_self :
    (s a b : ℕ) (p : ItemUpdatePacket) (l : ItemLedger)
    → is_stale s b (record_item s a p l) ≡ leb b a
unfolding record_item is_stale
is_stale-record_self s a b p l = ground (
  arith,
  lookup-insert_self s
      (record (record_floor a (state_of s l)) { cache = push a p (state_of s l).cache }) l.sessions,
)

pub is_stale-record_stash :
    (s a b : ℕ) (p : StashResultPacket) (l : ItemLedger)
    → is_stale s b (record_stash s a p l) ≡ leb b a
unfolding record_stash is_stale
is_stale-record_stash s a b p l = ground (
  arith,
  lookup-insert_self s
      (record (record_floor a (state_of s l)) { stash_cache = push a p (state_of s l).stash_cache })
      l.sessions,
)

pub is_stale-record_container :
    (s a b : ℕ) (p : ContainerUpdatePacket) (l : ItemLedger)
    → is_stale s b (record_container s a p l) ≡ leb b a
unfolding record_container is_stale
is_stale-record_container s a b p l = ground (
  arith,
  lookup-insert_self s
      (record (record_floor a (state_of s l)) {
        container_cache = push a p (state_of s l).container_cache;
      })
      l.sessions,
)

pub is_stale-record_trade :
    (s a b : ℕ) (p : TradeResultPacket) (l : ItemLedger)
    → is_stale s b (record_trade s a p l) ≡ leb b a
unfolding record_trade is_stale
is_stale-record_trade s a b p l = ground (
  arith,
  lookup-insert_self s
      (record (record_floor a (state_of s l)) { trade_cache = push a p (state_of s l).trade_cache })
      l.sessions,
)

-- Recording the answer to an item action that is not stale keeps every stale action of the session
-- stale.
pub is_stale-record_new :
    (s a b : ℕ) (l : ItemLedger) (i : ItemUpdatePacket)
    → is_stale s a l ≡ false
    → is_stale s b l ≡ true
    → is_stale s b (record_item s a i l) ≡ true
unfolding is_stale
is_stale-record_new s a b l i new stale = ground (arith, is_stale-record_self s a b i l)

-- The answers that are recorded for one session, the first in front.
unfoldable pub record_items : ℕ → List (ℕ × ItemUpdatePacket) → ItemLedger → ItemLedger
record_items s [] l = l
record_items s ((a, p) ∷ xs) l = record_items s xs (record_item s a p l)

state_of-record_item :
    (s a : ℕ) (p : ItemUpdatePacket) (l : ItemLedger)
    → (state_of s (record_item s a p l)).cache ≡ push a p (state_of s l).cache
unfolding record_item
state_of-record_item s a p l = ground (
  arith,
  lookup-insert_self s
      (record (record_floor a (state_of s l)) { cache = push a p (state_of s l).cache }) l.sessions,
)

state_of-record_items :
    (s : ℕ) (xs : List (ℕ × ItemUpdatePacket)) (l : ItemLedger)
    → (state_of s (record_items s xs l)).cache ≡ push_all xs (state_of s l).cache
unfolding record_items push_all
state_of-record_items s [] l = refl
state_of-record_items s ((a, p) ∷ xs) l =
    state_of-record_items s xs (record_item s a p l)
    ∙ ap (push_all xs) (state_of-record_item s a p l)

lookup_item-find :
    (s a : ℕ) (l : ItemLedger)
    → lookup_item s a l ≡ find a (state_of s l).cache.len (state_of s l).cache.slots
unfolding lookup_item new_state empty_ring find
lookup_item-find s a l = ground arith

-- An answer that is recorded for an action which the cache does not hold is found again as long as
-- fewer than 256 answers to other actions of the session have been recorded after it, if the cache
-- was well-formed.
pub lookup_item-record_items :
    (s a : ℕ) (p : ItemUpdatePacket) (xs : List (ℕ × ItemUpdatePacket)) (l : ItemLedger)
    → Inv (state_of s l).cache
    → lookup_item s a l ≡ none
    → AllOther a xs
    → length xs < 256
    → lookup_item s a (record_items s xs (record_item s a p l)) ≡ some p
lookup_item-record_items s a p xs l v new others few =
    let l' = record_items s xs (record_item s a p l) in
    let same =
      state_of-record_items s xs (record_item s a p l)
      ∙ ap (push_all xs) (state_of-record_item s a p l) in
    lookup_item-find s a l'
    ∙ ap (λ (r : Ring ItemUpdatePacket). find a r.len r.slots) same
    ∙ push_all-find a p xs (state_of s l).cache v (sym (lookup_item-find s a l) ∙ new) others few
