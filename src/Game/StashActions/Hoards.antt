-- ===== src/Game/StashActions/Hoards.antt =====
-- What the handlers of stash and container actions of zone-server/internal/game do to the copies of
-- a section in inventories, world and stashes.
use Prim.Native.String.{String}
use mathlib.Core.Path.{subst}
use zone.Prelude.{
  ℕ, ◌≡◌, sym, Bool, true, false, not, ◌||◌, Option, none, some, List, arith, ◌==◌, comparable_nat,
  comparable_string, if◌then◌else◌, Bool-cases, Option-cases, inl, inr,
}
use zone.Prelude.Map.{Map, lookup, insert, lookup-insert, insert-Distinct}
use zone.Prelude.Totals.{total_by-insert}
use zone.Protocol.Packets.{
  StashActionPacket, StashResultPacket, ContainerActionPacket, ContainerUpdatePacket,
  stash_action_store, container_action_deposit,
}
use zone.Database.Items.{Conditions}
use zone.Game.Text.{Texts, null_term, valid_item_section}
use zone.Game.Ledger.{ItemLedger}
use zone.Game.Ledger.Gate.{Answer, echo, reject, reject_resync, pass}
use zone.Game.Stash.{StashItem, Stash, Store, StashError, Moved}
use zone.Game.Stash.Contents.{Entries, stashed}
use zone.Game.Stash.Inv.{Inv, Keeps, same-Keeps, hoard, weigh_stash}
use zone.Game.Stash.Moves.{deposit-Keeps, withdraw-Keeps}
use zone.Game.StashActions.{
  Places, find_stash_at, new_stash, Outcome, find_or_create_stash_at, answer_store, answer_take,
  store_into, stash_store, take_from, stash_take, stash_passed, answer_stash, handle_stash_action,
}
use zone.Game.StashActions.Containers.{
  answer_deposit, answer_withdraw, container_deposit, container_withdraw, container_granted,
  container_found, container_passed, answer_container, handle_container_action,
}

pub then-Keeps : (s s' s'' : Store) → Keeps s s' → Keeps s' s'' → Keeps s s''
then-Keeps s s' s'' k l = record {
  valid = l.valid;
  hoard_le = λ section. omega (arith, k.hoard_le section, l.hoard_le section);
}

if-Keeps :
    {P : Type 0}
    → (b : Bool) (o o' : Outcome P) (s : Store) → Keeps s o.store
    → Keeps s o'.store
    → Keeps s (if b then o else o').store
if-Keeps true o o' s k k' = k
if-Keeps false o o' s k k' = k'

create-Keeps :
    (id now : ℕ) (level : String) (x y z : ℕ) (s : Store)
    → lookup id s.stashes ≡ none
    → Inv s
    → Keeps s (record s { stashes = insert id (new_stash now level x y z) s.stashes })
unfolding hoard Entries stashed
create-Keeps id now level x y z s fresh v = record {
  valid = record {
    tables = v.tables;
    keys = insert-Distinct id _ s.stashes v.keys;
    entries = λ j st items found same.
        ground
          (arith, lookup-insert j id (new_stash now level x y z) s.stashes, v.entries j st items);
  };
  hoard_le = λ section.
      omega (
        arith,
        total_by-insert (weigh_stash section) id (new_stash now level x y z) s.stashes fresh,
      );
}

module _ (tx : Texts) (fl : Conditions) (json_length : List StashItem → ℕ) (pl : Places)
    (next_id : Map ℕ Stash → ℕ) (is_ready : Bool) (uuid level : String)
    (is_free : (m : Map ℕ Stash) → lookup (next_id m) m ≡ none) where
  find_or_create-Keeps :
      (now : ℕ) (x y z : ℕ) (s : Store)
      → Inv s
      → Keeps s (find_or_create_stash_at pl next_id now level x y z s).0
  unfolding find_or_create_stash_at
  find_or_create-Keeps now x y z s v =
      elim (Option-cases (find_stash_at pl level x y z s.stashes)) [
        | inr (found, there) ↦ rw (there, find_or_create_stash_at) (same-Keeps s v)
        | inl missing ↦
            rw (missing, find_or_create_stash_at)
              (create-Keeps (next_id s.stashes) now level x y z s (is_free s.stashes) v)
      ]

  answer_store-store :
      (pkt : StashActionPacket) (section : String) (s : Store) (m : Moved)
      → (answer_store tx fl json_length pl next_id is_ready uuid level pkt section s m).store ≡ s
  unfolding answer_store
  answer_store-store pkt section s m = ground arith

  answer_take-store :
      (pkt : StashActionPacket) (s : Store) (m : Moved)
      → (answer_take tx fl json_length pl next_id is_ready uuid level pkt s m).store ≡ s
  unfolding answer_take
  answer_take-store pkt s m = ground arith

  answer_deposit-store :
      (pkt : ContainerActionPacket) (section : String) (s : Store) (m : Moved)
      → (answer_deposit tx fl json_length pl next_id is_ready uuid level pkt section s m).store ≡ s
  unfolding answer_deposit
  answer_deposit-store pkt section s m = ground arith

  answer_withdraw-store :
      (pkt : ContainerActionPacket) (s : Store) (m : Moved)
      → (answer_withdraw tx fl json_length pl next_id is_ready uuid level pkt s m).store ≡ s
  unfolding answer_withdraw
  answer_withdraw-store pkt s m = ground arith

  store_into-Keeps :
      (now id : ℕ) (pkt : StashActionPacket) (s : Store) (denied : Option StashError)
      → Inv s
      → Keeps s
          (store_into tx fl json_length pl next_id is_ready uuid level now pkt s id denied).store
  unfolding store_into
  store_into-Keeps now id pkt s (some e) v = same-Keeps s v
  store_into-Keeps now id pkt s none v =
      subst (Keeps s) (sym (answer_store-store pkt _ _ _))
        (deposit-Keeps fl json_length now id uuid level _ pkt.count pkt.condition s v)

  stash_store-Keeps :
      (now : ℕ) (pkt : StashActionPacket) (x y z : ℕ) (s : Store)
      → Inv s
      → Keeps s (stash_store tx fl json_length pl next_id is_ready uuid level now pkt x y z s).store
  unfolding stash_store
  stash_store-Keeps now pkt x y z s v =
      let k = find_or_create-Keeps now x y z s v in
      then-Keeps s _ _ k (store_into-Keeps now _ pkt _ _ k.valid)

  take_from-Keeps :
      (now id : ℕ) (pkt : StashActionPacket) (s : Store) (denied : Option StashError)
      → Inv s
      → Keeps s
          (take_from tx fl json_length pl next_id is_ready uuid level now pkt s id denied).store
  unfolding take_from
  take_from-Keeps now id pkt s (some e) v = same-Keeps s v
  take_from-Keeps now id pkt s none v =
      subst (Keeps s) (sym (answer_take-store pkt _ _))
        (withdraw-Keeps fl now id uuid level _ pkt.count pkt.condition s v)

  stash_take-Keeps :
      (now : ℕ) (pkt : StashActionPacket) (s : Store) (found : Option (ℕ × Stash))
      → Inv s
      → Keeps s (stash_take tx fl json_length pl next_id is_ready uuid level now pkt s found).store
  unfolding stash_take
  stash_take-Keeps now pkt s none v = same-Keeps s v
  stash_take-Keeps now pkt s (some (id, st)) v = take_from-Keeps now id pkt s _ v

  stash_passed-Keeps :
      (now : ℕ) (pkt : StashActionPacket) (s : Store)
      → Inv s
      → Keeps s (stash_passed tx fl json_length pl next_id is_ready uuid level now pkt s).store
  unfolding stash_passed
  stash_passed-Keeps now pkt s v =
      let same = same-Keeps s v in
      if-Keeps (uuid == "" || not is_ready) _ _ s same (
        if-Keeps (not (valid_item_section tx (null_term pkt.section)) || pkt.count == 0) _ _ s same
          (if-Keeps (pl.is_too_far _ _ _) _ _ s same (
            if-Keeps (pkt.action == stash_action_store) _ _ s (stash_store-Keeps now pkt _ _ _ s v)
              (stash_take-Keeps now pkt s _ v))))

  answer_stash-Keeps :
      (session_id now : ℕ) (pkt : StashActionPacket) (s : Store)
      (g : ItemLedger × Answer StashResultPacket)
      → Inv s
      → Keeps s
          (answer_stash tx fl json_length pl next_id is_ready uuid level session_id now pkt s
            g).store
  unfolding answer_stash
  answer_stash-Keeps session_id now pkt s (l, echo res) v = same-Keeps s v
  answer_stash-Keeps session_id now pkt s (l, reject res) v = same-Keeps s v
  answer_stash-Keeps session_id now pkt s (l, reject_resync res) v = same-Keeps s v
  answer_stash-Keeps session_id now pkt s (l, pass) v = stash_passed-Keeps now pkt s v

  container_granted-Keeps :
      (now : ℕ) (pkt : ContainerActionPacket) (s : Store) (denied : Option StashError)
      → Inv s
      → Keeps s
          (container_granted tx fl json_length pl next_id is_ready uuid level now pkt s
            denied).store
  unfolding container_granted container_deposit container_withdraw
  container_granted-Keeps now pkt s (some e) v = same-Keeps s v
  container_granted-Keeps now pkt s none v =
      elim (Bool-cases (pkt.action == container_action_deposit)) [
        | inl deposits ↦ rw deposits (
            subst (Keeps s) (sym (answer_deposit-store pkt _ _ _)) (
              deposit-Keeps fl json_length now pkt.container_id uuid level _ pkt.count pkt.condition
                s v))
        | inr withdraws ↦ rw withdraws (
            subst (Keeps s) (sym (answer_withdraw-store pkt _ _))
              (withdraw-Keeps fl now pkt.container_id uuid level _ pkt.count pkt.condition s v))
      ]

  container_found-Keeps :
      (now : ℕ) (pkt : ContainerActionPacket) (s : Store) (found : Option Stash)
      → Inv s
      → Keeps s
          (container_found tx fl json_length pl next_id is_ready uuid level now pkt s found).store
  unfolding container_found
  container_found-Keeps now pkt s none v = same-Keeps s v
  container_found-Keeps now pkt s (some st) v = container_granted-Keeps now pkt s _ v

  answer_container-Keeps :
      (session_id now : ℕ) (pkt : ContainerActionPacket) (s : Store)
      (g : ItemLedger × Answer ContainerUpdatePacket)
      → Inv s
      → Keeps s
          (answer_container tx fl json_length pl next_id is_ready uuid level session_id now pkt s
            g).store
  unfolding answer_container container_passed
  answer_container-Keeps session_id now pkt s (l, echo res) v = same-Keeps s v
  answer_container-Keeps session_id now pkt s (l, reject res) v = same-Keeps s v
  answer_container-Keeps session_id now pkt s (l, reject_resync res) v = same-Keeps s v
  answer_container-Keeps session_id now pkt s (l, pass) v =
      let same = same-Keeps s v in
      if-Keeps (uuid == "" || not is_ready) _ _ s same (
        if-Keeps (not (valid_item_section tx (null_term pkt.section)) || pkt.count == 0) _ _ s same
          (container_found-Keeps now pkt s _ v))

  pub handle_stash_action-Keeps :
      (session_id now : ℕ) (pkt : StashActionPacket) (l : ItemLedger) (s : Store)
      → Inv s
      → Keeps s
          (handle_stash_action tx fl json_length pl next_id is_ready uuid level session_id now pkt l
            s).store
  unfolding handle_stash_action
  handle_stash_action-Keeps session_id now pkt l s v = answer_stash-Keeps session_id now pkt s _ v

  pub handle_container_action-Keeps :
      (session_id now : ℕ) (pkt : ContainerActionPacket) (l : ItemLedger) (s : Store)
      → Inv s
      → Keeps s
          (handle_container_action tx fl json_length pl next_id is_ready uuid level session_id now
            pkt l s).store
  unfolding handle_container_action
  handle_container_action-Keeps session_id now pkt l s v =
      answer_container-Keeps session_id now pkt s _ v
