-- ===== src/Limits/Examples.antt =====
-- The sliding windows of zone-server on short logs.
use zone.Prelude.{ℕ, ◌+◌, ◌*◌, ◌≤◌, List, [], ◌∷◌, arith, count_if}
use zone.Limits.{second, allow_chat}
use zone.Limits.Rate.{run, between, start, allow_chat-spread}

-- Six messages in the first second and one after the window.
abbrev chats : List ℕ
chats = 1 ∷ 2 ∷ 3 ∷ 4 ∷ 5 ∷ 6 ∷ 5_000_000_001 ∷ []

allow_chat-spread_example :
    count_if (between 0 (0 + 5 * second)) (run allow_chat chats start).passed ≤ 5
allow_chat-spread_example = allow_chat-spread chats 0 (
  omega arith,
  (omega arith, (omega arith, (omega arith, (omega arith, (omega arith, (omega arith, tt)))))),
)

abbrev actions : List ℕ
actions = 10 ∷ 20 ∷ 30 ∷ []
