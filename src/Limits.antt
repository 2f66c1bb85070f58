-- ===== src/Limits.antt =====
-- The sliding windows of zone-server: `AllowChat` of internal/network/session.go and `AllowAction`
-- of internal/game/item_ledger.go keep the times of the calls they let through in the same way.
-- Times are counts of nanoseconds: `t.After(now.Add(-w))` is `now < t + w`.
pub mod Rate
mod Examples
use zone.Prelude.{
  ℕ, ◌+◌, ◌*◌, ◌/◌, Bool, true, false, List, [], ◌∷◌, ◌++◌, length, keep_if, leb, ltb,
  if◌then◌else◌,
}

abbrev pub fresh : ℕ → ℕ → ℕ → Bool
fresh window now t = ltb now (t + window)

-- Drops the times that lie a window back or more, and adds `now` if fewer than `limit` are left.
unfoldable pub admit : ℕ → ℕ → ℕ → List ℕ → List ℕ × Bool
admit window limit now stamps =
    let kept = keep_if (fresh window now) stamps in
    if leb limit (length kept) then (kept, false) else (kept ++ now ∷ [], true)

abbrev pub second : ℕ
second = 1_000_000_000

unfoldable pub allow_chat : ℕ → List ℕ → List ℕ × Bool
unfolding admit
allow_chat now stamps = admit (5 * second) 5 now stamps

-- The budget, which the program keeps as a float, is in thousandths of an action a second.
abbrev pub allowed_actions : ℕ → ℕ
allowed_actions max_per_s = let floor = max_per_s / 1000 in if ltb floor 1 then 1 else floor

unfoldable pub allow_action_window : ℕ → ℕ → List ℕ → List ℕ × Bool
unfolding admit
allow_action_window max_per_s now rate = admit second (allowed_actions max_per_s) now rate
