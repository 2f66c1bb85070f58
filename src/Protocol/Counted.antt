-- ===== src/Protocol/Counted.antt =====
-- Payloads of zone-server/internal/protocol/packets.go that are a count and as many entries of a
-- fixed size, out of an array that has room for `max` of them.
use zone.Prelude.{
  ℕ, zero, suc, ◌-◌, ◌*◌, ◌%◌, ◌≤◌, ◌<◌, ◌≡◌, ◌∙◌, refl, ap, min, List, [], ◌∷◌, ◌++◌, arith,
  length, length-append, length-take, take, drop, length-drop, inl, inr, replicate,
}
use mathlib.Core.List.{append_assoc}
use zone.Protocol.Wire.{
  Result, ok, err, ReadError, ◌>>=◌, read_full, read_full-append, read_full_cases, byte_at,
}

-- The bytes of one entry.
pub record Codec (A : Type 0) : Type 1 where
  pub size : ℕ
  pub encode : A → List ℕ
  pub decode : List ℕ → A
  pub Fits : A → Type 0
  pub length-encode : (a : A) → Fits a → length (encode a) ≡ size
  pub decode-encode : (a : A) → Fits a → decode (encode a) ≡ a

count_fits : (count max : ℕ) → max < 256 → min count max % 256 ≡ min count max
count_fits count max h = omega arith

min-min : (count max : ℕ) → min (min count max) max ≡ min count max
min-min count max = omega arith

module _ {A : Type 0} (c : Codec A) where
  open c use {size, encode, decode, Fits, length-encode, decode-encode}

  abbrev pub AllFit : List A → Type 0
  AllFit [] = Unit {0}
  AllFit (a ∷ as') = Fits a × AllFit as'

  unfoldable pub put_entries : List A → List ℕ
  put_entries [] = []
  put_entries (a ∷ rest) = encode a ++ put_entries rest

  unfoldable pub get_entries : ℕ → List ℕ → Result (List A × List ℕ)
  get_entries zero xs = ok ([], xs)
  get_entries (suc n) xs = do
    (b, rest) ← read_full size xs
    (es, left) ← get_entries n rest
    ok (decode b ∷ es, left)

  unfoldable pub put_counted : ℕ → ℕ → List A → List ℕ
  put_counted max count entries = let n = min count max in n % 256 ∷ put_entries (take n entries)

  pub record Counted : Type 0 where
    pub count : ℕ
    pub entries : List A

  -- The slots that no entry was read into keep the value `zero_entry`.
  unfoldable pub get_counted : ℕ → A → List ℕ → Result (Counted × List ℕ)
  get_counted max zero_entry xs = do
    (b, rest) ← read_full 1 xs
    let count = byte_at 0 b
    let n = min count max
    (es, left) ← get_entries n rest
    ok (record { count = count; entries = es ++ replicate (max - n) zero_entry }, left)

  pub length-put_entries : (es : List A) → AllFit es → length (put_entries es) ≡ length es * size
  unfolding put_entries
  length-put_entries [] f = omega arith
  length-put_entries (a ∷ es) f = omega (
    arith,
    length-append (encode a) (put_entries es),
    length-encode a f.0,
    length-put_entries es f.1,
  )

  pub get_entries-put_entries :
      (es : List A) (rest : List ℕ)
      → AllFit es
      → get_entries (length es) (put_entries es ++ rest) ≡ ok (es, rest)
  unfolding put_entries get_entries
  get_entries-put_entries [] rest f = refl
  get_entries-put_entries (a ∷ es) rest f = rw (append_assoc (encode a) (put_entries es) rest) (
      rw (read_full-append size (encode a) (put_entries es ++ rest) (length-encode a f.0))
        (rw (get_entries-put_entries es rest f.1, decode-encode a f.0) refl))

  pub AllFit-replicate : (n : ℕ) (a : A) → Fits a → AllFit (replicate n a)
  AllFit-replicate zero a f = tt
  AllFit-replicate (suc n) a f = (f, AllFit-replicate n a f)

  pub AllFit-take : (n : ℕ) (es : List A) → AllFit es → AllFit (take n es)
  AllFit-take zero es f = tt
  AllFit-take (suc n) [] f = tt
  AllFit-take (suc n) (e ∷ es) f = (f.0, AllFit-take n es f.1)

  get_taken :
      (n : ℕ) (entries : List A) (rest : List ℕ)
      → n ≤ length entries
      → AllFit entries
      → get_entries n (put_entries (take n entries) ++ rest) ≡ ok (take n entries, rest)
  get_taken n entries rest h f =
      let e : n ≡ length (take n entries) = omega (arith, length-take n entries) in
      ap (λ k. get_entries k (put_entries (take n entries) ++ rest)) e
      ∙ get_entries-put_entries (take n entries) rest (AllFit-take n entries f)

  pub get_counted-put_counted :
      (max count : ℕ) (zero_entry : A) (entries : List A) (rest : List ℕ)
      → max < 256
      → length entries ≡ max
      → AllFit entries
      → get_counted max zero_entry (put_counted max count entries ++ rest)
        ≡ ok (
          record {
            count = min count max;
            entries = take (min count max) entries ++ replicate (max - min count max) zero_entry;
          },
          rest,
        )
  unfolding get_counted put_counted
  get_counted-put_counted max count zero_entry entries rest small whole f =
      let n = min count max in
      let es = take n entries in
      rw (read_full-append 1 (n % 256 ∷ []) (put_entries es ++ rest) refl) (
        rw (count_fits count max small)
          (rw (min-min count max) (rw (get_taken n entries rest (omega arith) f) refl)))

  -- An input too short for the entries that its count announces is an error.
  get_entries_short :
      (n : ℕ) (xs : List ℕ) → length xs < n * size → (e : ReadError) × (get_entries n xs ≡ err e)
  unfolding get_entries
  get_entries_short zero xs h = absurd (omega arith)
  get_entries_short (suc n) xs h = elim (read_full_cases size xs) [
    | inl (short, (e, failed)) ↦ (e, rw failed refl)
    | inr (enough, read) ↦
        let (e, failed) = get_entries_short n (drop size xs) (omega (arith, length-drop size xs)) in
        (e, rw read (rw failed refl))
  ]

  -- So is an input that is too short for its count.
  pub get_counted_short :
      (max count : ℕ) (zero_entry : A) (xs : List ℕ)
      → length xs < min count max * size
      → (e : ReadError) × (get_counted max zero_entry (count ∷ xs) ≡ err e)
  unfolding get_counted
  get_counted_short max count zero_entry xs h =
      let (e, failed) = get_entries_short (min count max) xs h in
      (e, rw (read_full-append 1 (count ∷ []) xs refl) (rw failed refl))
