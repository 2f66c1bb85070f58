-- ===== src/Game/ItemActions/Applied.antt =====
-- The handler of item actions of zone-server/internal/game/item_ledger.go as a step of the ledger:
-- only an action that the ledger records changes the tables.
use Prim.Native.String.{String}
use zone.Prelude.{
  ℕ, ◌≡◌, ◌∙◌, sym, ap, refl, Bool, false, not, ◌||◌, Option, none, some, List, ◌==◌,
  comparable_nat, comparable_string, Bool-cases, Option-cases, inl, inr,
}
use zone.Prelude.Map.{lookup}
use zone.Protocol.Packets.{ItemUpdatePacket}
use zone.Database.Items.{
  Conditions, Tables, WorldItem, ItemError, insufficient_items, world_item_limit,
  world_item_not_found, Dropped, dropped, not_dropped, Consumed, consumed, not_consumed,
  drop_item_to_world, consume_item, pickup_world_item,
}
use zone.Database.Items.Steps.{Keeps, same-Keeps, drop-Keeps, consume-Keeps, pickup-Keeps}
use zone.Game.Text.{Texts, null_term, valid_item_section}
use zone.Game.Ledger.{ItemLedger}
use zone.Game.Ledger.Gate.{
  ItemAction, Answer, echo, reject, reject_resync, pass, item_gate, item_step, record_verdict,
}
use zone.Game.ItemActions.{
  ItemActionPacket, Places, Outcome, Handled, answer_drop, handle_item_drop, answer_consume,
  handle_item_consume, answer_pickup, handle_item_pickup, item_passed, settle_item, answer_item,
  handle_item_action,
}

-- A branch that records nothing leaves the tables as they were; no branch makes copies.
record Careful (db : Tables) (o : Outcome) : Type 0 where
  careful : o.is_recorded ≡ false → o.tables ≡ db
  keeps : zone.Database.Items.Copies.Inv db → Keeps db o.tables

module _ (tx : Texts) (fl : Conditions) (pl : Places) (max_per_level : ℕ)
    (uuid level : String) where
  answer_drop-Careful :
      (pkt : ItemActionPacket) (section : List ℕ) (db db' : Tables) (r : Dropped fl)
      → (zone.Database.Items.Copies.Inv db → Keeps db db')
      → Careful db (answer_drop tx fl pl max_per_level uuid level pkt section db' r)
  unfolding answer_drop
  answer_drop-Careful pkt section db db' (not_dropped insufficient_items n) k = record {
    careful = λ h. cc;
    keeps = k;
  }
  answer_drop-Careful pkt section db db' (not_dropped world_item_limit n) k = record {
    careful = λ h. cc;
    keeps = k;
  }
  answer_drop-Careful pkt section db db' (not_dropped world_item_not_found n) k = record {
    careful = λ h. cc;
    keeps = k;
  }
  answer_drop-Careful pkt section db db' (dropped id n c) k = record {
    careful = λ h. cc;
    keeps = k;
  }

  answer_consume-Careful :
      (pkt : ItemActionPacket) (section : List ℕ) (db db' : Tables) (r : Consumed fl)
      → (zone.Database.Items.Copies.Inv db → Keeps db db')
      → Careful db (answer_consume tx fl pl max_per_level uuid level pkt section db' r)
  unfolding answer_consume
  answer_consume-Careful pkt section db db' (not_consumed n) k = record {
    careful = λ h. cc;
    keeps = k;
  }
  answer_consume-Careful pkt section db db' (consumed n) k = record { careful = λ h. cc; keeps = k }

  answer_pickup-Careful :
      (pkt : ItemActionPacket) (db db' : Tables) (r : Option WorldItem)
      → (zone.Database.Items.Copies.Inv db → Keeps db db')
      → Careful db (answer_pickup tx fl pl max_per_level uuid level pkt db' r)
  unfolding answer_pickup
  answer_pickup-Careful pkt db db' none k = record { careful = λ h. cc; keeps = k }
  answer_pickup-Careful pkt db db' (some w) k = record { careful = λ h. cc; keeps = k }

  handle_item_drop-Careful :
      (now : ℕ) (pkt : ItemActionPacket) (section : List ℕ) (db : Tables)
      → Careful db (handle_item_drop tx fl pl max_per_level uuid level now pkt section db)
  unfolding handle_item_drop
  handle_item_drop-Careful now pkt section db = elim (Bool-cases (pkt.count == 0)) [
    | inl nothing ↦ rw nothing (record { careful = λ h. refl; keeps = same-Keeps db })
    | inr real ↦ rw real (
        answer_drop-Careful pkt section db _ _
          (drop-Keeps fl now uuid level _ pkt.count _ _ _ _ max_per_level db))
  ]

  handle_item_consume-Careful :
      (pkt : ItemActionPacket) (section : List ℕ) (db : Tables)
      → Careful db (handle_item_consume tx fl pl max_per_level uuid level pkt section db)
  unfolding handle_item_consume
  handle_item_consume-Careful pkt section db = elim (Bool-cases (pkt.count == 0)) [
    | inl nothing ↦ rw nothing (record { careful = λ h. refl; keeps = same-Keeps db })
    | inr real ↦
        rw real (answer_consume-Careful pkt section db _ _ (consume-Keeps fl uuid _ pkt.count db))
  ]

  handle_item_pickup-Careful :
      (pkt : ItemActionPacket) (db : Tables)
      → Careful db (handle_item_pickup tx fl pl max_per_level uuid level pkt db)
  unfolding handle_item_pickup
  handle_item_pickup-Careful pkt db = elim (Bool-cases (pkt.item_id == 0)) [
    | inl nothing ↦ rw nothing (record { careful = λ h. refl; keeps = same-Keeps db })
    | inr real ↦ rw real (elim (Option-cases (lookup pkt.item_id db.world)) [
      | inl gone ↦ rw gone (record { careful = λ h. refl; keeps = same-Keeps db })
      | inr (w, found) ↦ rw found (elim (Bool-cases (not (w.level_name == level))) [
        | inl away ↦ rw away (record { careful = λ h. refl; keeps = same-Keeps db })
        | inr here ↦ rw here (elim (Bool-cases (not (pl.is_in_range w))) [
          | inl far ↦ rw far (record { careful = λ h. refl; keeps = same-Keeps db })
          | inr near ↦
              rw near (answer_pickup-Careful pkt db _ _ (pickup-Keeps fl uuid pkt.item_id db))
        ])
      ])
    ])
  ]

  item_passed-Careful :
      (has_database : Bool) (now : ℕ) (pkt : ItemActionPacket) (db : Tables)
      → Careful db (item_passed tx fl pl max_per_level uuid level has_database now pkt db)
  unfolding item_passed
  item_passed-Careful has_database now pkt db = elim (Bool-cases (uuid == "" || not has_database)) [
    | inl unready ↦ rw unready (record { careful = λ h. refl; keeps = same-Keeps db })
    | inr ready ↦
        rw ready (elim (Bool-cases (not (valid_item_section tx (null_term pkt.head.section)))) [
          | inl bad ↦ rw bad (record { careful = λ h. refl; keeps = same-Keeps db })
          | inr good ↦ rw good (elim (Bool-cases (pkt.head.action == 1)) [
            | inl drops ↦ rw drops (handle_item_drop-Careful now pkt _ db)
            | inr other ↦ rw other (elim (Bool-cases (pkt.head.action == 3)) [
              | inl consumes ↦ rw consumes (handle_item_consume-Careful pkt _ db)
              | inr picks ↦ rw picks (handle_item_pickup-Careful pkt db)
            ])
          ])
        ])
  ]

  abbrev step_of :
      ℕ → ℕ → Option ItemUpdatePacket → ItemLedger × Answer ItemUpdatePacket → ItemLedger × Bool
  step_of s a verdict g = elim g.1 [ pass ↦ record_verdict s a verdict g.0 | _ ↦ (g.0, false) ]

  item_step-step_of :
      (s now : ℕ) (pkt : ItemAction) (verdict : Option ItemUpdatePacket) (l : ItemLedger)
      → item_step s now pkt verdict l ≡ step_of s pkt.action_id verdict (item_gate s now pkt l)
  unfolding item_step
  item_step-step_of s now pkt verdict l = refl

  -- A call of the handler is a step of the ledger, and changes the tables only if it is recorded.
  pub record IsStep (s now : ℕ) (pkt : ItemAction) (l : ItemLedger) (db : Tables) (h : Handled)
      : Type 0 where
    pub verdict : Option ItemUpdatePacket
    pub ledger_same : h.ledger ≡ (item_step s now pkt verdict l).0
    pub keeps : zone.Database.Items.Copies.Inv db → Keeps db h.tables
    pub tables_same : (item_step s now pkt verdict l).1 ≡ false → h.tables ≡ db

  answer_item-step_of :
      (has_database : Bool) (s now : ℕ) (pkt : ItemActionPacket) (db : Tables)
      (g : ItemLedger × Answer ItemUpdatePacket)
      → let h = answer_item tx fl pl max_per_level uuid level has_database s now pkt db g in
        (verdict : Option ItemUpdatePacket) × (h.ledger
          ≡ (step_of s pkt.head.action_id verdict g).0)
        × ((step_of s pkt.head.action_id verdict g).1 ≡ false → h.tables ≡ db)
        × (zone.Database.Items.Copies.Inv db → Keeps db h.tables)
  unfolding answer_item settle_item record_verdict
  answer_item-step_of has_database s now pkt db (l, echo p) =
      (none, refl, (λ h. refl), same-Keeps db)
  answer_item-step_of has_database s now pkt db (l, reject p) =
      (none, refl, (λ h. refl), same-Keeps db)
  answer_item-step_of has_database s now pkt db (l, reject_resync p) =
      (none, refl, (λ h. refl), same-Keeps db)
  answer_item-step_of has_database s now pkt db (l, pass) =
      let o = item_passed tx fl pl max_per_level uuid level has_database now pkt db in
      let sound = item_passed-Careful has_database now pkt db in
      elim (Bool-cases o.is_recorded) [
        | inl kept ↦ (some o.update, rw kept refl, (λ h. cc), sound.keeps)
        | inr lost ↦ (none, rw lost refl, (λ h. sound.careful lost), sound.keeps)
      ]

  pub handle_item_action-IsStep :
      (has_database : Bool) (s now : ℕ) (pkt : ItemActionPacket) (l : ItemLedger) (db : Tables)
      → IsStep s now pkt.head l db
          (handle_item_action tx fl pl max_per_level uuid level has_database s now pkt l db)
  unfolding handle_item_action
  handle_item_action-IsStep has_database s now pkt l db =
      let g = item_gate s now pkt.head l in
      let (verdict, ledger, tables, keeps) = answer_item-step_of has_database s now pkt db g in
      let same = item_step-step_of s now pkt.head verdict l in
      record {
        verdict = verdict;
        keeps = keeps;
        ledger_same = ledger ∙ sym (ap (λ (x : ItemLedger × Bool). x.0) same);
        tables_same = λ h. tables (sym (ap (λ (x : ItemLedger × Bool). x.1) same) ∙ h);
      }
