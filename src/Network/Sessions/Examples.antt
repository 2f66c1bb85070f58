-- ===== src/Network/Sessions/Examples.antt =====
-- The table of zone-server/internal/network/session.go on a few sessions.
use zone.Prelude.{
  ◌≤◌, ◌≡◌, refl, true, false, some, List, [], ◌∷◌, arith, length, ◌==◌, comparable_nat,
  comparable_string, if◌then◌else◌,
}
use zone.Prelude.Map.{lookup, insert, delete}
use zone.Network.Sessions.{
  PlayerSession, Heap, SessionManager, new_session_manager, try_add_capped, evict_addr,
  evict_account, remove_session, evict_by, forget_all, enter,
}
use zone.Network.Sessions.Capped.{Inv}
use zone.Network.Sessions.Unique.{try_add_capped-Inv}
use zone.Network.Sessions.History.{Call, admits, removes, step, run, new-Inv}
use zone.Network.Sessions.Cap.{try_add_capped-refused}

abbrev ann : PlayerSession
ann = record { session_id = 1; account_id = "ann"; name = "Ann"; udp_addr = some "10.0.0.1:9" }

-- The same account from another address.
abbrev ann_again : PlayerSession
ann_again = record ann { session_id = 2; udp_addr = some "10.0.0.2:9" }

abbrev bob : PlayerSession
bob = record { session_id = 3; account_id = "bob"; name = "Bob"; udp_addr = some "10.0.0.3:9" }

abbrev heap : Heap
heap r = if r == 1 then ann else if r == 2 then ann_again else bob

abbrev table : SessionManager
table = (try_add_capped heap (some 1) 1 new_session_manager).manager

ann_enters : (try_add_capped heap (some 1) 1 new_session_manager).added ≡ true
unfolding try_add_capped evict_addr evict_account evict_by forget_all enter new_session_manager
    lookup insert
ann_enters = refl

table_lem :
    table ≡ record { sessions = (1, 1) ∷ []; by_addr = ("10.0.0.1:9", 1) ∷ []; all_cached = 1 ∷ [] }
unfolding try_add_capped evict_addr evict_account evict_by forget_all enter new_session_manager
    lookup insert
table_lem = refl

replaces_account : try_add_capped heap (some 2) 1 table ≡ record {
  manager = record {
    sessions = (2, 2) ∷ [];
    by_addr = ("10.0.0.2:9", 2) ∷ [];
    all_cached = 2 ∷ [];
  };
  evicted = 1 ∷ [];
  added = true;
}
unfolding try_add_capped evict_addr evict_account evict_by forget_all enter new_session_manager
    lookup insert delete
replaces_account = refl

table-Inv : Inv heap table
table-Inv = try_add_capped-Inv heap 1 1 new_session_manager (new-Inv heap) ann_enters

ann_enters_again : (try_add_capped heap (some 2) 1 table).added ≡ true
ann_enters_again = rw replaces_account refl

try_add_capped-Inv_example : Inv heap (try_add_capped heap (some 2) 1 table).manager
try_add_capped-Inv_example = try_add_capped-Inv heap 2 1 table table-Inv ann_enters_again

one_session : length table.sessions ≤ 1
one_session = rw table_lem (omega arith)

bob_waits : (try_add_capped heap (some 3) 1 table).added ≡ false
unfolding try_add_capped evict_addr evict_account evict_by forget_all enter new_session_manager
    lookup insert delete
bob_waits = refl

try_add_capped-refused_example :
    (try_add_capped heap (some 3) 1 table ≡ record { manager = table; evicted = []; added = false })
    × (length table.sessions ≡ 1)
try_add_capped-refused_example = try_add_capped-refused heap 3 1 table one_session bob_waits

-- Two admissions of one account, one too many, a removal.
abbrev calls : List Call
calls = admits 1 ∷ admits 2 ∷ admits 3 ∷ removes 2 ∷ admits 3 ∷ []

run-calls : (run heap 1 new_session_manager calls).sessions ≡ (3, 3) ∷ []
unfolding run step try_add_capped evict_addr evict_account evict_by forget_all enter remove_session
    new_session_manager lookup insert delete
run-calls = refl
