-- ===== src/Limits/Rate.antt =====
-- What the sliding windows of zone-server guarantee over a run of calls.
use zone.Prelude.{
  ℕ, ◌+◌, ◌*◌, ◌≤◌, ◌≡◌, refl, Bool, ◌&&◌, List, [], ◌∷◌, ◌++◌, arith, keep_if, count_if,
  count_if-le-length, leb, ltb, if◌then◌else◌,
}
use zone.Limits.{fresh, admit, allow_chat, allow_action_window, allowed_actions, second}

-- The stored times, and the times of all calls that were let through, the latest first.
pub record Log : Type 0 where
  pub stamps : List ℕ
  pub passed : List ℕ

unfoldable pub run : (ℕ → List ℕ → List ℕ × Bool) → List ℕ → Log → Log
run allow [] log = log
run allow (now ∷ times) log =
    let (stamps, passed) = allow now log.stamps in
    run allow times
      (record { stamps = stamps; passed = if passed then now ∷ log.passed else log.passed })

-- Times that do not go back, from `last` on.
abbrev pub Ordered : ℕ → List ℕ → Type 0
Ordered last [] = Unit {0}
Ordered last (t ∷ ts) = (last ≤ t) × Ordered t ts

abbrev pub between : ℕ → ℕ → ℕ → Bool
between a b t = ltb a t && leb t b

record Inv (window limit last : ℕ) (log : Log) : Type 0 where
  spread : (a : ℕ) → count_if (between a (a + window)) log.passed ≤ limit
  stored : (a : ℕ) → last ≤ a + window → count_if (ltb a) log.passed ≤ count_if (ltb a) log.stamps

count_if-keep_if :
    (window now a : ℕ) (xs : List ℕ)
    → now ≤ a + window
    → count_if (ltb a) (keep_if (fresh window now) xs) ≡ count_if (ltb a) xs
count_if-keep_if window now a [] h = refl
count_if-keep_if window now a (x ∷ xs) h = ground (arith, count_if-keep_if window now a xs h)

count_if-append_one :
    (p : ℕ → Bool) (xs : List ℕ) (x : ℕ)
    → count_if p (xs ++ x ∷ []) ≡ count_if p xs + (if p x then 1 else 0)
count_if-append_one p [] x = omega arith
count_if-append_one p (y ∷ xs) x = omega (arith, count_if-append_one p xs x)

between-le-above : (a b : ℕ) (xs : List ℕ) → count_if (between a b) xs ≤ count_if (ltb a) xs
between-le-above a b [] = omega arith
between-le-above a b (x ∷ xs) = ground (arith, between-le-above a b xs)

abbrev next : ℕ → ℕ → ℕ → Log → Log
next window limit now log =
    let (stamps, passed) = admit window limit now log.stamps in
    record { stamps = stamps; passed = if passed then now ∷ log.passed else log.passed }

admit-spread :
    (window limit last now : ℕ) (log : Log)
    → Inv window limit last log
    → last ≤ now
    → (a : ℕ) → count_if (between a (a + window)) (next window limit now log).passed ≤ limit
unfolding admit
admit-spread window limit last now log v h a =
    let kept = keep_if (fresh window now) log.stamps in
    ground (
      arith,
      v.spread a,
      v.stored a,
      between-le-above a (a + window) log.passed,
      count_if-keep_if window now a log.stamps,
      count_if-le-length (ltb a) kept,
    )

admit-stored :
    (window limit last now : ℕ) (log : Log)
    → Inv window limit last log
    → last ≤ now
    → (a : ℕ) → now ≤ a + window
    → count_if (ltb a) (next window limit now log).passed
      ≤ count_if (ltb a) (next window limit now log).stamps
unfolding admit
admit-stored window limit last now log v h a k =
    let kept = keep_if (fresh window now) log.stamps in
    ground (
      arith,
      v.stored a,
      count_if-keep_if window now a log.stamps k,
      count_if-append_one (ltb a) kept now,
    )

run-Inv :
    (window limit last : ℕ) (times : List ℕ) (log : Log)
    → Inv window limit last log
    → Ordered last times
    → (a : ℕ)
    → count_if (between a (a + window)) (run (admit window limit) times log).passed ≤ limit
unfolding run
run-Inv window limit last [] log v o a = v.spread a
run-Inv window limit last (now ∷ times) log v o a =
    run-Inv window limit now times (next window limit now log)
      (record {
        spread = admit-spread window limit last now log v o.0;
        stored = admit-stored window limit last now log v o.0;
      })
      o.1 a

abbrev pub start : Log
start = record { stamps = []; passed = [] }

run-admit-spread :
    (window limit : ℕ) (times : List ℕ) (a : ℕ)
    → Ordered 0 times
    → count_if (between a (a + window)) (run (admit window limit) times start).passed ≤ limit
run-admit-spread window limit times a o =
    run-Inv window limit 0 times start
      (record { spread = λ b. omega arith; stored = λ b h. omega arith }) o a

-- Whatever the times at which a session chats, if they do not run backwards, at most five of its
-- messages pass in any stretch of five seconds.
pub allow_chat-spread :
    (times : List ℕ) (a : ℕ)
    → Ordered 0 times
    → count_if (between a (a + 5 * second)) (run allow_chat times start).passed ≤ 5
unfolding allow_chat
allow_chat-spread times a o = run-admit-spread (5 * second) 5 times a o

-- Whatever the times of a session's item actions, if they do not run backwards, no more of them
-- pass in any stretch of a second than the budget allows.
pub allow_action-spread :
    (max_per_s : ℕ) (times : List ℕ) (a : ℕ)
    → Ordered 0 times
    → count_if (between a (a + second)) (run (allow_action_window max_per_s) times start).passed
      ≤ allowed_actions max_per_s
unfolding allow_action_window
allow_action-spread max_per_s times a o =
    run-admit-spread second (allowed_actions max_per_s) times a o
