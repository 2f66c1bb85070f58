-- ===== src/Game/Economy/Purses.antt =====
-- The rubles of the characters of zone-server/internal/game/economy.go as purses that nothing but
-- the postings of the calls that succeed changes.
use Prim.Native.String.{String}
use text.Mathlib.TextEquality.{eq_iff}
use zone.Prelude.{
  ℕ, ◌≡◌, ◌⊎◌, refl, ap, Bool, true, false, Option, none, some, arith, ◌==◌, comparable_string,
  if◌then◌else◌, inl, inr,
}
use zone.Prelude.Map.{lookup, insert, lookup-insert}
use zone.Prelude.Integers.{ℤ, pos, negsuc, ◌+ℤ◌, negate, is_negative, less, is_negative-pay}
use zone.Database.Items.{Tables, Removed, short, removed}
use zone.Game.Economy.{Character, Bank}

-- No character owes rubles.
unfoldable pub Solvent : Bank → Type 0
Solvent b =
    (uuid : String) (c : Character)
    → lookup uuid b.characters ≡ some c
    → is_negative c.rubles ≡ false

abbrev pub purse : String → Bank → Option ℤ
purse who b = elim (lookup who b.characters) [ none ↦ none | some c ↦ some c.rubles ]

-- An amount that is added to a purse.
abbrev pub post : String → ℤ → String → Option ℤ → Option ℤ
post uuid amount who o =
    if uuid == who then (elim o [ none ↦ none | some r ↦ some (r +ℤ amount) ]) else o

-- The step keeps the bank solvent and posts the amount to the purse, or changes no purse.
pub record Posts (b b' : Bank) (uuid : String) (amount : ℤ) (done : Bool) : Type 0 where
  pub solvent : Solvent b'
  pub purses :
      (who : String)
      → purse who b' ≡ (if done then post uuid amount who (purse who b) else purse who b)

pub idle-Posts : (b : Bank) (uuid : String) (amount : ℤ) → Solvent b → Posts b b uuid amount false
idle-Posts b uuid amount v = record { solvent = v; purses = λ who. refl }

pub purse-insert :
    (uuid who : String) (amount : ℤ) (c new : Character) (tables : Tables) (b : Bank)
    → lookup uuid b.characters ≡ some c
    → new.rubles ≡ c.rubles +ℤ amount
    → purse who (record { tables = tables; characters = insert uuid new b.characters })
      ≡ post uuid amount who (purse who b)
purse-insert uuid who amount c new tables b found sum =
    ground (arith, lookup-insert who uuid new b.characters, eq_iff uuid who)

pub paid-Posts :
    (uuid : String) (amount : ℤ) (c new : Character) (tables : Tables) (b : Bank)
    → Solvent b
    → lookup uuid b.characters ≡ some c
    → new.rubles ≡ c.rubles +ℤ amount
    → is_negative new.rubles ≡ false
    → Posts b
        (record { tables = tables; characters = insert uuid new b.characters })
        uuid
        amount
        true
unfolding Solvent
paid-Posts uuid amount c new tables b v found sum enough = record {
  solvent = λ who d h. ground (arith, lookup-insert who uuid new b.characters, v who d);
  purses = λ who. purse-insert uuid who amount c new tables b found sum;
}

pub add-zero : (a : ℤ) → a +ℤ pos 0 ≡ a
unfolding ◌+ℤ◌
add-zero (pos m) = ap pos (omega arith)
add-zero (negsuc m) = ground arith

pub Removed-cases :
    (r : Removed)
    → ((total : ℕ) × (r ≡ short total))
      ⊎ ((total : ℕ) × (condition : ℕ) × (r ≡ removed total condition))
Removed-cases (short total) = inl (total, refl)
Removed-cases (removed total condition) = inr (total, condition, refl)

pub is_negative-sum :
    (a b : ℤ) → is_negative a ≡ false → is_negative b ≡ false → is_negative (a +ℤ b) ≡ false
unfolding is_negative ◌+ℤ◌
is_negative-sum (pos m) (pos n) h g = refl
is_negative-sum (negsuc m) b h g = cc
is_negative-sum a (negsuc n) h g = cc

pub is_negative-pos : (a : ℤ) → is_negative a ≡ false → (n : ℕ) × (a ≡ pos n)
unfolding is_negative
is_negative-pos (pos n) h = (n, refl)
is_negative-pos (negsuc n) h = cc

pub is_negative-price : (p : ℤ) → less p (pos 1) ≡ false → is_negative p ≡ false
unfolding less is_negative
is_negative-price (pos n) h = refl
is_negative-price (negsuc n) h = cc

pub is_negative-paid :
    (a b : ℤ)
    → is_negative a ≡ false
    → less a b ≡ false
    → is_negative b ≡ false
    → is_negative (a +ℤ negate b) ≡ false
unfolding is_negative
is_negative-paid (pos m) b h g e = is_negative-pay m b g e
is_negative-paid (negsuc m) b h g e = cc
