-- ===== src/Game/Ledger/Cache.antt =====
-- The result caches of zone-server/internal/game/item_ledger.go.
use zone.Prelude.{
  ℕ, zero, suc, ◌+◌, ◌%◌, ◌≤◌, ◌<◌, ◌≡◌, ◌≢◌, ◌∙◌, refl, Option, none, some, List, [], ◌∷◌, arith,
  length, get_elem?, set, replicate, length-set, get_elem?-set_self, get_elem?-set_ne,
  length-replicate, ltb, ◌==◌, comparable_nat, if◌then◌else◌,
}

abbrev pub item_action_cache_size : ℕ
item_action_cache_size = 256

-- `slots` is the whole array; the first `len` of its entries are in use.
pub record Ring (P : Type 0) : Type 0 where
  pub slots : List (ℕ × P)
  pub pos : ℕ
  pub len : ℕ

module _ {P : Type 0} where
  unfoldable pub empty_ring : P → Ring P
  empty_ring zero_packet = record {
    slots = replicate item_action_cache_size (0, zero_packet);
    pos = 0;
    len = 0;
  }

  -- The loop of the lookups: the first of `n` slots that holds the action.
  unfoldable pub find : ℕ → ℕ → List (ℕ × P) → Option P
  find id zero xs = none
  find id (suc n) [] = none
  find id (suc n) ((k, p) ∷ xs) = if k == id then some p else find id n xs

  unfoldable pub push : ℕ → P → Ring P → Ring P
  push id p r = record {
    slots = set r.slots r.pos (id, p);
    pos = (r.pos + 1) % item_action_cache_size;
    len = if ltb r.len item_action_cache_size then r.len + 1 else r.len;
  }

  pub record Inv (r : Ring P) : Type 0 where
    pub whole : length r.slots ≡ 256
    pub inside : r.pos < 256
    pub used : r.len ≤ 256
    pub filling : r.len < 256 → r.pos ≡ r.len

  pub empty_ring-Inv : (p : P) → Inv (empty_ring p)
  unfolding empty_ring
  empty_ring-Inv p = record {
    whole = length-replicate {A = ℕ × P} 256 (0, p);
    inside = omega arith;
    used = omega arith;
    filling = λ h. refl;
  }

  pub push-Inv : (id : ℕ) (p : P) (r : Ring P) → Inv r → Inv (push id p r)
  unfolding push
  push-Inv id p r v = record {
    whole = length-set r.slots r.pos (id, p) ∙ v.whole;
    inside = omega arith;
    used = ground (arith, v.used);
    filling = ground (arith, v.filling, v.used, v.inside);
  }

  -- Slot `k` is the first that holds the action, and is in use.
  pub record At (k id : ℕ) (p : P) (r : Ring P) : Type 0 where
    pub within : k < r.len
    pub first : find id k r.slots ≡ none
    pub there : get_elem? r.slots k ≡ some (id, p)

  find_at :
      (id : ℕ) (p : P) (k n : ℕ) (xs : List (ℕ × P))
      → k < n
      → find id k xs ≡ none
      → get_elem? xs k ≡ some (id, p)
      → find id n xs ≡ some p
  unfolding find
  find_at id p k zero xs h f g = absurd (omega arith)
  find_at id p k (suc n) [] h f g = cc
  find_at id p zero (suc n) ((j, q) ∷ xs) h f g = ground arith
  find_at id p (suc k) (suc n) ((j, q) ∷ xs) h f g = ground (arith, find_at id p k n xs)

  pub At-find : (k id : ℕ) (p : P) (r : Ring P) → At k id p r → find id r.len r.slots ≡ some p
  At-find k id p r a = find_at id p k r.len r.slots a.within a.first a.there

  find_prefix : (id k n : ℕ) (xs : List (ℕ × P)) → k ≤ n → find id n xs ≡ none → find id k xs ≡ none
  unfolding find
  find_prefix id zero n xs h f = refl
  find_prefix id (suc k) zero xs h f = absurd (omega arith)
  find_prefix id (suc k) (suc n) [] h f = refl
  find_prefix id (suc k) (suc n) ((j, q) ∷ xs) h f = ground (arith, find_prefix id k n xs)

  find-set_later :
      (id k i : ℕ) (x : ℕ × P) (xs : List (ℕ × P)) → k ≤ i → find id k (set xs i x) ≡ find id k xs
  unfolding find
  find-set_later id zero i x xs h = refl
  find-set_later id (suc k) i x [] h = refl
  find-set_later id (suc k) zero x ((j, q) ∷ xs) h = absurd (omega arith)
  find-set_later id (suc k) (suc i) x ((j, q) ∷ xs) h = ground (arith, find-set_later id k i x xs)

  find-set_other :
      (id k i j : ℕ) (q : P) (xs : List (ℕ × P))
      → j ≢ id
      → find id k xs ≡ none
      → find id k (set xs i (j, q)) ≡ none
  unfolding find
  find-set_other id zero i j q xs h f = refl
  find-set_other id (suc k) i j q [] h f = refl
  find-set_other id (suc k) zero j q ((a, b) ∷ xs) h f = ground arith
  find-set_other id (suc k) (suc i) j q ((a, b) ∷ xs) h f =
      ground (arith, find-set_other id k i j q xs)

  -- An action that the cache does not know goes to the write position.
  pub push-At :
      (id : ℕ) (p : P) (r : Ring P)
      → Inv r
      → find id r.len r.slots ≡ none
      → At r.pos id p (push id p r)
  unfolding push
  push-At id p r v new = record {
    within = ground (arith, v.filling, v.used, v.inside);
    first =
        find-set_later id r.pos r.pos (id, p) r.slots (omega arith)
        ∙ find_prefix id r.pos r.len r.slots (ground (arith, v.filling, v.used, v.inside)) new;
    there = get_elem?-set_self r.slots r.pos (id, p) (omega arith);
  }

  -- It stays in its slot while other actions go elsewhere.
  pub push_keeps_At :
      (k id other : ℕ) (p q : P) (r : Ring P)
      → At k id p r
      → other ≢ id
      → r.pos ≢ k
      → At k id p (push other q r)
  unfolding push
  push_keeps_At k id other p q r a ne away = record {
    within = ground (arith, a.within);
    first = find-set_other id k r.pos other q r.slots ne a.first;
    there = get_elem?-set_ne r.slots r.pos k (other, q) away ∙ a.there;
  }

  unfoldable pub push_all : List (ℕ × P) → Ring P → Ring P
  push_all [] r = r
  push_all ((id, p) ∷ xs) r = push_all xs (push id p r)

  abbrev pub AllOther : ℕ → List (ℕ × P) → Type 0
  AllOther id [] = Unit {0}
  AllOther id ((k, p) ∷ xs) = (k ≢ id) × AllOther id xs

  push-pos : (id : ℕ) (p : P) (r : Ring P) → (push id p r).pos ≡ (r.pos + 1 + 0) % 256
  unfolding push
  push-pos id p r = omega arith

  -- `d` is how many writes there were since the one to slot `k`.
  push_all_keeps_At :
      (k d id : ℕ) (p : P) (xs : List (ℕ × P)) (r : Ring P)
      → At k id p r
      → k < 256
      → r.pos ≡ (k + 1 + d) % 256
      → AllOther id xs
      → d + length xs < 256
      → At k id p (push_all xs r)
  unfolding push_all push
  push_all_keeps_At k d id p [] r a small there others few = a
  push_all_keeps_At k d id p ((j, q) ∷ xs) r a small there others few =
      push_all_keeps_At k (d + 1) id p xs (push j q r)
        (push_keeps_At k id j p q r a others.0 (omega arith)) small (omega arith) others.1
        (omega arith)

  -- An action is found as long as fewer than 256 others have been recorded after it.
  pub push_all-find :
      (id : ℕ) (p : P) (xs : List (ℕ × P)) (r : Ring P)
      → Inv r
      → find id r.len r.slots ≡ none
      → AllOther id xs
      → length xs < 256
      → find id (push_all xs (push id p r)).len (push_all xs (push id p r)).slots ≡ some p
  push_all-find id p xs r v new others few = At-find r.pos id p (push_all xs (push id p r)) (
      push_all_keeps_At r.pos 0 id p xs (push id p r) (push-At id p r v new) v.inside
        (push-pos id p r) others (omega arith))
