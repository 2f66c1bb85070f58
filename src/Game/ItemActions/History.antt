-- ===== src/Game/ItemActions/History.antt =====
-- zone-server/internal/game/item_ledger.go: item actions of one session in any order.
use Prim.Native.String.{String}
use mathlib.Core.Path.{subst}
use zone.Prelude.{
  ℕ, ◌≤◌, ◌≡◌, ◌⊎◌, ◌∙◌, ap, Bool, true, List, [], ◌∷◌, arith, contains, NoRepeats, comparable_nat,
  if◌then◌else◌, Bool-cases, inl, inr,
}
use zone.Database.Items.{Conditions, Tables}
use zone.Database.Items.Copies.{copies}
use zone.Database.Items.Steps.{Keeps, same-Keeps}
use zone.Game.Text.{Texts}
use zone.Game.Ledger.{ItemLedger, is_stale, new_item_ledger}
use zone.Game.Ledger.Gate.{item_step}
use zone.Game.Ledger.Gate.Once.{Request, Applied, after-Inv}
use zone.Game.ItemActions.{ItemActionPacket, Places, handle_item_action}
use zone.Game.ItemActions.Applied.{handle_item_action-IsStep}

-- The account, the level and the surroundings of a session at one of its actions.
pub record Setting : Type 0 where
  pub texts : Texts
  pub conditions : Conditions
  pub places : Places
  pub max_per_level : ℕ
  pub uuid : String
  pub level : String
  pub has_database : Bool
  pub now : ℕ

module _ (s : ℕ) where
  abbrev pub handle :
      Setting → ItemActionPacket → ItemLedger → Tables → zone.Game.ItemActions.Handled
  handle e pkt l db =
      handle_item_action e.texts e.conditions e.places e.max_per_level e.uuid e.level e.has_database
        s e.now pkt l db

  -- The tables may be changed by others between the actions. The list has the actions that changed
  -- them, the latest first.
  pub data Steps (max_per_s : ℕ) : ItemLedger → List ℕ → Type 0 where
    starts : Steps max_per_s (new_item_ledger max_per_s) []
    changes :
        (e : Setting) (pkt : ItemActionPacket) (l : ItemLedger) (db : Tables) (ids : List ℕ)
        → ¬ ((handle e pkt l db).tables ≡ db)
        → Steps max_per_s l ids
        → Steps max_per_s (handle e pkt l db).ledger (pkt.head.action_id ∷ ids)
    idles :
        (e : Setting) (pkt : ItemActionPacket) (l : ItemLedger) (db : Tables) (ids : List ℕ)
        → (handle e pkt l db).tables ≡ db
        → Steps max_per_s l ids
        → Steps max_per_s (handle e pkt l db).ledger ids

  record Fits (l : ItemLedger) (ids : List ℕ) : Type 0 where
    stale : (a : ℕ) → contains a ids ≡ true → is_stale s a l ≡ true
    once : NoRepeats ids

  handle-Fits :
      (e : Setting) (pkt : ItemActionPacket) (l : ItemLedger) (db : Tables) (ids : List ℕ)
      → Fits l ids
      → Fits (handle e pkt l db).ledger (pkt.head.action_id ∷ ids)
        ⊎ (Fits (handle e pkt l db).ledger ids × ((handle e pkt l db).tables ≡ db))
  handle-Fits e pkt l db ids v =
      let k =
        handle_item_action-IsStep e.texts e.conditions e.places e.max_per_level e.uuid e.level
          e.has_database s e.now pkt l db in
      let r : Request = record { now = e.now; packet = pkt.head; verdict = k.verdict } in
      let st : Applied = record { ledger = l; applied = ids } in
      let w = after-Inv s r st (record { stale = v.stale; once = v.once }) in
      elim (Bool-cases (item_step s e.now pkt.head k.verdict l).1) [
        | inl done ↦ inl (record {
          stale = λ a h. ap (is_stale s a) k.ledger_same ∙ w.stale a (rw done h);
          once = subst (λ b. NoRepeats (if b then pkt.head.action_id ∷ ids else ids)) done w.once;
        })
        | inr idle ↦ inr (
          record {
            stale = λ a h. ap (is_stale s a) k.ledger_same ∙ w.stale a (rw idle h);
            once = subst (λ b. NoRepeats (if b then pkt.head.action_id ∷ ids else ids)) idle w.once;
          },
          k.tables_same idle,
        )
      ]

  drop_first : (l : ItemLedger) (a : ℕ) (ids : List ℕ) → Fits l (a ∷ ids) → Fits l ids
  drop_first l a ids v = record {
    stale = λ b h. ground (arith, v.stale b);
    once = ground (arith, v.once);
  }

  Steps-Fits : (max_per_s : ℕ) (l : ItemLedger) (ids : List ℕ) → Steps max_per_s l ids → Fits l ids
  Steps-Fits max_per_s _ _ starts = record { stale = λ a h. cc; once = tt }
  Steps-Fits max_per_s _ _ (changes e pkt l db ids real before) =
      elim (handle-Fits e pkt l db ids (Steps-Fits max_per_s l ids before)) [
        | inl v ↦ v
        | inr (v, same) ↦ absurd (real same)
      ]
  Steps-Fits max_per_s _ _ (idles e pkt l db ids same before) =
      elim (handle-Fits e pkt l db ids (Steps-Fits max_per_s l ids before)) [
        | inl v ↦ drop_first _ pkt.head.action_id ids v
        | inr (v, same') ↦ v
      ]

  -- Whatever item actions of one session reach the handler, from a new ledger on, in whatever
  -- order, at whatever times, sent again however often, with the account, the level and the tables
  -- as they are at each, no action number changes the tables of inventories and world items twice.
  -- The session has no container, stash or trade actions.
  pub Steps-NoRepeats :
      (max_per_s : ℕ) (l : ItemLedger) (ids : List ℕ) → Steps max_per_s l ids → NoRepeats ids
  Steps-NoRepeats max_per_s l ids h = (Steps-Fits max_per_s l ids h).once

-- Actions of any sessions, one after the other.
unfoldable pub run_actions : List (ℕ × Setting × ItemActionPacket) → ItemLedger → Tables → Tables
run_actions [] l db = db
run_actions ((s, e, pkt) ∷ rest) l db =
    run_actions rest (handle s e pkt l db).ledger (handle s e pkt l db).tables

run_actions-Keeps :
    (actions : List (ℕ × Setting × ItemActionPacket)) (l : ItemLedger) (db : Tables)
    → zone.Database.Items.Copies.Inv db
    → Keeps db (run_actions actions l db)
unfolding run_actions
run_actions-Keeps [] l db v = same-Keeps db v
run_actions-Keeps ((s, e, pkt) ∷ rest) l db v =
    let k =
      (handle_item_action-IsStep e.texts e.conditions e.places e.max_per_level e.uuid e.level
          e.has_database s e.now pkt l db).keeps
        v in
    let later =
      run_actions-Keeps rest (handle s e pkt l db).ledger (handle s e pkt l db).tables k.valid in
    record {
      valid = later.valid;
      copies_le = λ section. omega (arith, k.copies_le section, later.copies_le section);
    }

-- On tables whose rows have different numbers, with every number from the next one on free, no item
-- actions that reach the handler, of whatever sessions and in whatever order, raise the number of
-- copies of a section in all inventories and in the world together.
pub copies-run_actions :
    (actions : List (ℕ × Setting × ItemActionPacket)) (l : ItemLedger) (db : Tables)
    (section : String)
    → zone.Database.Items.Copies.Inv db
    → copies section (run_actions actions l db) ≤ copies section db
copies-run_actions actions l db section v = (run_actions-Keeps actions l db v).copies_le section
