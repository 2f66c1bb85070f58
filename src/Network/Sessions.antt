-- ===== src/Network/Sessions.antt =====
-- zone-server/internal/network/session.go: the table of live sessions (`SessionManager`). A
-- `*PlayerSession` is a reference, a number, into a heap of sessions, so that the maps share
-- sessions as they do in the program; none of them holds nil. Of an address the table uses whether
-- it is nil and its text.
pub mod Evict
pub mod Capped
mod Account
pub mod Unique
pub mod Cap
pub mod History
mod Examples
use Prim.Native.String.{String}
use zone.Prelude.{
  ℕ, suc, ◌+◌, ◌≤◌, Bool, true, false, not, ◌&&◌, ◌||◌, Option, none, some, List, [], ◌∷◌, ◌++◌,
  map, length, leb, ltb, ◌==◌, comparable_nat, comparable_string, if◌then◌else◌,
}
use zone.Prelude.Map.{Map, lookup, insert, delete}

pub record PlayerSession : Type 0 where
  pub session_id : ℕ
  pub account_id : String
  pub name : String
  pub udp_addr : Option String

abbrev pub Heap : Type 0
Heap = ℕ → PlayerSession

pub record SessionManager : Type 0 where
  pub sessions : Map ℕ ℕ
  pub by_addr : Map String ℕ
  pub all_cached : List ℕ

unfoldable pub new_session_manager : SessionManager
new_session_manager = record { sessions = []; by_addr = []; all_cached = [] }

abbrev pub update_cache : SessionManager → SessionManager
update_cache sm = record sm { all_cached = map (λ e. e.1) sm.sessions }

-- `delete(sm.byAddr, sess.UDPAddr.String())` where the address is not nil.
abbrev pub forget_addr : Option String → Map String ℕ → Map String ℕ
forget_addr none m = m
forget_addr (some text) m = delete text m

abbrev pub enter_addr : Option String → ℕ → Map String ℕ → Map String ℕ
enter_addr none r m = m
enter_addr (some text) r m = insert text r m

-- The session that is stored under the number of `r` gives up its address.
abbrev pub forget_old : Heap → Option ℕ → Map String ℕ → Map String ℕ
forget_old h none m = m
forget_old h (some old) m = forget_addr (h old).udp_addr m

unfoldable pub add_session : Heap → ℕ → SessionManager → SessionManager
add_session h r sm = update_cache (record sm {
  sessions = insert (h r).session_id r sm.sessions;
  by_addr =
      enter_addr (h r).udp_addr r (forget_old h (lookup (h r).session_id sm.sessions) sm.by_addr);
})

-- A loop over the sessions that deletes those which pass a test and collects them.
unfoldable pub evict_by : (ℕ → ℕ → Bool) → Map ℕ ℕ → Map ℕ ℕ × List ℕ
evict_by p [] = ([], [])
evict_by p ((id, r) ∷ m) =
    let (kept, out) = evict_by p m in if p id r then (kept, r ∷ out) else ((id, r) ∷ kept, out)

unfoldable pub forget_all : Heap → List ℕ → Map String ℕ → Map String ℕ
forget_all h [] m = m
forget_all h (r ∷ rs) m = forget_all h rs (forget_addr (h r).udp_addr m)

abbrev pub has_text : String → Option String → Bool
has_text text none = false
has_text text (some t) = t == text

abbrev pub other_at : Heap → ℕ → String → ℕ → ℕ → Bool
other_at h own text id r = not (id == own) && has_text text (h r).udp_addr

-- The first loop: other sessions at the address of the new one, if the address is known.
unfoldable pub evict_addr : Heap → ℕ → SessionManager → Map ℕ ℕ × List ℕ
unfolding evict_by
evict_addr h s sm = elim (h s).udp_addr [
  | none ↦ (sm.sessions, [])
  | some text ↦ elim (lookup text sm.by_addr) [
    | none ↦ (sm.sessions, [])
    | some r ↦ evict_by (other_at h (h s).session_id text) sm.sessions
  ]
]

abbrev pub other_of : Heap → ℕ → String → ℕ → ℕ → Bool
other_of h own account id r = not (id == own) && (h r).account_id == account

-- The second loop: other sessions of the same account, if it has a name.
unfoldable pub evict_account : Heap → ℕ → Map ℕ ℕ → Map ℕ ℕ × List ℕ
unfolding evict_by
evict_account h s m =
    if (h s).account_id == ""
    then (m, [])
    else evict_by (other_of h (h s).session_id (h s).account_id) m

pub record Added : Type 0 where
  pub manager : SessionManager
  pub evicted : List ℕ
  pub added : Bool

-- The session that is replaced under the same number, unless it is the same session.
abbrev pub replaced : ℕ → Option ℕ → List ℕ
replaced s none = []
replaced s (some old) = if old == s then [] else old ∷ []

unfoldable pub enter : Heap → ℕ → List ℕ → SessionManager → Added
enter h s evicted sm =
    let old = replaced s (lookup (h s).session_id sm.sessions) in
    record {
      manager = update_cache (record sm {
        sessions = insert (h s).session_id s sm.sessions;
        by_addr = enter_addr (h s).udp_addr s (forget_all h old sm.by_addr);
      });
      evicted = evicted ++ old;
      added = true;
    }

abbrev pub is_new : Option ℕ → Bool
is_new none = true
is_new (some r) = false

-- `max` is 0 where the program's is not positive.
unfoldable pub try_add_capped : Heap → Option ℕ → ℕ → SessionManager → Added
unfolding evict_addr evict_account forget_all enter
try_add_capped h none max sm = record { manager = sm; evicted = []; added = false }
try_add_capped h (some s) max sm =
    let (left, at_addr) = evict_addr h s sm in
    let (rest, of_account) = evict_account h s left in
    let sm' = record sm { sessions = rest; by_addr = forget_all h of_account sm.by_addr } in
    if ltb 0 max && leb max (length rest) && is_new (lookup (h s).session_id rest)
    then record { manager = sm'; evicted = at_addr ++ of_account; added = false }
    else enter h s (at_addr ++ of_account) sm'

unfoldable pub remove_session : Heap → ℕ → SessionManager → SessionManager
remove_session h id sm = elim (lookup id sm.sessions) [
  | none ↦ sm
  | some r ↦ update_cache (record sm {
    sessions = delete id sm.sessions;
    by_addr = forget_addr (h r).udp_addr sm.by_addr;
  })
]

pub get_by_id : ℕ → SessionManager → Option ℕ
get_by_id id sm = lookup id sm.sessions

pub get_by_addr : String → SessionManager → Option ℕ
get_by_addr text sm = lookup text sm.by_addr

pub get_all : SessionManager → List ℕ
get_all sm = sm.all_cached

pub count : SessionManager → ℕ
count sm = length sm.sessions
