-- ===== src/Game/Ledger/Gate/Once.antt =====
-- No item action is applied twice; where a stash action lowers the floor.
use zone.Prelude.{
  ℕ, ◌≡◌, ◌⊎◌, true, false, Option, none, some, List, [], ◌∷◌, arith, contains, NoRepeats, leb,
  comparable_nat, if◌then◌else◌, Bool-cases, inl, inr,
}
use zone.Prelude.Map.{lookup-insert_self}
use zone.Limits.{allow_action_window}
use zone.Protocol.Packets.{ItemUpdatePacket}
use zone.Game.Ledger.{
  ItemLedger, state_of, lookup_item, is_stale, allow_action, new_state, new_item_ledger,
}
use zone.Game.Ledger.Floor.{is_stale-below, is_stale-record_self}
use zone.Game.Ledger.Gate.{ItemAction, echo, pass, item_gate, item_step, record_verdict}

is_stale-allow_action :
    (s now b : ℕ) (l : ItemLedger) → is_stale s b (allow_action s now l).0 ≡ is_stale s b l
unfolding is_stale allow_action new_state
is_stale-allow_action s now b l =
    let r = (allow_action_window l.max_per_s now (state_of s l).rate).0 in
    ground (arith, lookup-insert_self s (record (state_of s l) { rate = r }) l.sessions)

is_stale-item_gate :
    (s now b : ℕ) (pkt : ItemAction) (l : ItemLedger)
    → is_stale s b (item_gate s now pkt l).0 ≡ is_stale s b l
unfolding item_gate
is_stale-item_gate s now b pkt l = ground (arith, is_stale-allow_action s now b l)

item_gate-pass :
    (s now : ℕ) (pkt : ItemAction) (l : ItemLedger)
    → (item_gate s now pkt l).1 ≡ pass
    → is_stale s pkt.action_id l ≡ false
unfolding item_gate
item_gate-pass s now pkt l h = ground arith

-- An item action whose answer the cache holds is answered with it, and the ledger stays as it was.
pub item_gate-replay :
    (s now : ℕ) (pkt : ItemAction) (p : ItemUpdatePacket) (l : ItemLedger)
    → lookup_item s pkt.action_id l ≡ some p
    → (pkt.action ≡ 1) ⊎ (pkt.action ≡ 2) ⊎ (pkt.action ≡ 3)
    → item_gate s now pkt l ≡ (l, echo p)
unfolding item_gate
item_gate-replay s now pkt p l h known = ground arith

-- One call of the handler: its time, its packet and what the branches behind the gate answer.
pub record Request : Type 0 where
  pub now : ℕ
  pub packet : ItemAction
  pub verdict : Option ItemUpdatePacket

pub record Applied : Type 0 where
  pub ledger : ItemLedger
  pub applied : List ℕ

-- A run of the handler for one session, with the actions that were applied, the latest first.
unfoldable pub run : ℕ → List Request → Applied → Applied
run s [] st = st
run s (r ∷ rs) st =
    let (l, done) = item_step s r.now r.packet r.verdict st.ledger in
    run s rs (record {
      ledger = l;
      applied = if done then r.packet.action_id ∷ st.applied else st.applied;
    })

pub record Inv (s : ℕ) (st : Applied) : Type 0 where
  pub stale : (a : ℕ) → contains a st.applied ≡ true → is_stale s a st.ledger ≡ true
  pub once : NoRepeats st.applied

abbrev pub after : ℕ → Request → Applied → Applied
after s r st =
    let (l, done) = item_step s r.now r.packet r.verdict st.ledger in
    record { ledger = l; applied = if done then r.packet.action_id ∷ st.applied else st.applied }

item_step_kept :
    (s now a : ℕ) (pkt : ItemAction) (verdict : Option ItemUpdatePacket) (l : ItemLedger)
    → (item_step s now pkt verdict l).1 ≡ false
    → is_stale s a (item_step s now pkt verdict l).0 ≡ is_stale s a l
unfolding item_step record_verdict
item_step_kept s now a pkt none l h = ground (arith, is_stale-item_gate s now a pkt l)
item_step_kept s now a pkt (some p) l h = ground (arith, is_stale-item_gate s now a pkt l)

item_step_applied :
    (s now a : ℕ) (pkt : ItemAction) (verdict : Option ItemUpdatePacket) (l : ItemLedger)
    → (item_step s now pkt verdict l).1 ≡ true
    → (is_stale s pkt.action_id l ≡ false)
      × (is_stale s a (item_step s now pkt verdict l).0 ≡ leb a pkt.action_id)
unfolding item_step record_verdict
item_step_applied s now a pkt none l h = absurd (ground arith)
item_step_applied s now a pkt (some p) l h = ground (
  arith,
  item_gate-pass s now pkt l,
  is_stale-record_self s pkt.action_id a p (item_gate s now pkt l).0,
)

pub after-Inv : (s : ℕ) (r : Request) (st : Applied) → Inv s st → Inv s (after s r st)
after-Inv s r st v = elim (Bool-cases (item_step s r.now r.packet r.verdict st.ledger).1) [
  | inl done ↦ record {
    stale = λ a h. ground (
      arith,
      item_step_applied s r.now a r.packet r.verdict st.ledger done,
      is_stale-below s r.packet.action_id a st.ledger,
      v.stale a,
    );
    once = ground (
      arith,
      item_step_applied s r.now 0 r.packet r.verdict st.ledger done,
      v.stale r.packet.action_id,
      v.once,
    );
  }
  | inr rejected ↦ record {
    stale = λ a h.
        ground (arith, item_step_kept s r.now a r.packet r.verdict st.ledger rejected, v.stale a);
    once = ground (arith, v.once);
  }
]

run-Inv : (s : ℕ) (rs : List Request) (st : Applied) → Inv s st → Inv s (run s rs st)
unfolding run
run-Inv s [] st v = v
run-Inv s (r ∷ rs) st v = run-Inv s rs (after s r st) (after-Inv s r st v)

-- Item actions of one session that reach a new ledger, in whatever order, at whatever times, sent
-- again however often and answered in whatever way behind the gate: no action number is applied
-- twice. The run has no container, stash or trade actions.
pub run-NoRepeats :
    (s : ℕ) (rs : List Request) (max_per_s : ℕ)
    → NoRepeats (run s rs (record { ledger = new_item_ledger max_per_s; applied = [] })).applied
run-NoRepeats s rs max_per_s =
    (run-Inv s rs (record { ledger = new_item_ledger max_per_s; applied = [] })
      (record { stale = λ a h. cc; once = tt })).once
