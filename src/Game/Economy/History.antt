-- ===== src/Game/Economy/History.antt =====
-- The calls of zone-server/internal/game/economy.go in any order, against an account book.
use Prim.Native.String.{String}
use zone.Prelude.{
  ℕ, ◌≡◌, ◌∙◌, refl, ap, Bool, Option, List, [], ◌∷◌, comparable_string, if◌then◌else◌, Bool-cases,
  inl, inr,
}
use zone.Prelude.Integers.{ℤ, pos, negate}
use zone.Database.Items.{Conditions}
use zone.Game.Economy.{Bank, add_currency, set_tier, buy_item, sell_item, sell_items, buy_items}
use zone.Game.Economy.Purses.{Solvent, purse, post, Posts}
use zone.Game.Economy.Posts.{
  is_done, is_true, is_sold, add_currency-Posts, promoted-Posts, buy_item-Posts, sell_item-Posts,
  sell_items-Posts, buy_items-Posts,
}

-- The calls of the manager that change the characters.
pub data Trade : Type 0 where
  adds : ℕ → String → ℤ → Trade
  promotes : ℕ → String → ℤ → Trade
  buys_one sells_one : ℕ → String → String → ℤ → Trade
  sells : ℕ → String → String → ℕ → ℤ → Trade
  buys : ℕ → String → String → ℕ → ℕ → ℤ → Trade

-- What a call that succeeds posts.
unfoldable pub posting : Trade → String × ℤ
posting (adds now uuid amount) = (uuid, amount)
posting (promotes now uuid tier) = (uuid, pos 0)
posting (buys_one now uuid section price) = (uuid, negate price)
posting (sells_one now uuid section price) = (uuid, price)
posting (sells now uuid section count price) = (uuid, price)
posting (buys now uuid section count bucket price) = (uuid, negate price)

-- A sequence of postings on the purse of a character.
unfoldable pub settle : List (String × ℤ) → String → Option ℤ → Option ℤ
settle [] who o = o
settle ((uuid, amount) ∷ log) who o = settle log who (post uuid amount who o)

module _ (fl : Conditions) where
  unfoldable pub trade : Bank → Trade → Bank × Bool
  trade b (adds now uuid amount) =
      let (b', answer) = add_currency now uuid amount b in (b', is_done answer)
  trade b (promotes now uuid tier) =
      let (b', answer) = set_tier now uuid tier b in (b', is_done answer)
  trade b (buys_one now uuid section price) =
      let (b', answer) = buy_item fl now uuid section price b in (b', is_true answer)
  trade b (sells_one now uuid section price) =
      let (b', answer) = sell_item fl now uuid section price b in (b', is_true answer)
  trade b (sells now uuid section count price) =
      let (b', answer) = sell_items fl now uuid section count price b in (b', is_sold answer)
  trade b (buys now uuid section count bucket price) =
      let (b', answer) = buy_items fl now uuid section count bucket price b in (b', is_true answer)

  unfoldable pub run_trades : Bank → List Trade → Bank
  run_trades b [] = b
  run_trades b (t ∷ ts) = run_trades (trade b t).0 ts

  -- The postings of the calls that go through.
  unfoldable pub account_book : Bank → List Trade → List (String × ℤ)
  account_book b [] = []
  account_book b (t ∷ ts) =
      let rest = account_book (trade b t).0 ts in if (trade b t).1 then posting t ∷ rest else rest

  trade-Posts :
      (b : Bank) (t : Trade)
      → Solvent b
      → Posts b (trade b t).0 (posting t).0 (posting t).1 (trade b t).1
  unfolding trade posting
  trade-Posts b (adds now uuid amount) v = add_currency-Posts now uuid amount b v
  trade-Posts b (promotes now uuid tier) v = promoted-Posts now uuid tier b v
  trade-Posts b (buys_one now uuid section price) v = buy_item-Posts fl now uuid section price b v
  trade-Posts b (sells_one now uuid section price) v = sell_item-Posts fl now uuid section price b v
  trade-Posts b (sells now uuid section count price) v =
      sell_items-Posts fl now uuid section count price b v
  trade-Posts b (buys now uuid section count bucket price) v =
      buy_items-Posts fl now uuid section count bucket price b v

  -- If no character owes rubles, none does after any calls, whatever the amounts and prices.
  pub run_trades-Solvent : (b : Bank) (ts : List Trade) → Solvent b → Solvent (run_trades b ts)
  unfolding run_trades
  run_trades-Solvent b [] v = v
  run_trades-Solvent b (t ∷ ts) v = run_trades-Solvent (trade b t).0 ts (trade-Posts b t v).solvent

  -- While no character owes rubles, the rubles of a character after any calls are what an account
  -- book gives: to what it had, the amounts of the calls on it that reported success are added in
  -- their order, and nothing else.
  pub purse-run_trades :
      (b : Bank) (ts : List Trade) (who : String)
      → Solvent b
      → purse who (run_trades b ts) ≡ settle (account_book b ts) who (purse who b)
  unfolding run_trades account_book settle
  purse-run_trades b [] who v = refl
  purse-run_trades b (t ∷ ts) who v =
      let k = trade-Posts b t v in
      let rest = purse-run_trades (trade b t).0 ts who k.solvent in
      let after : Bool → Option ℤ =
        λ x. if x then post (posting t).0 (posting t).1 who (purse who b) else purse who b in
      let book = settle (account_book (trade b t).0 ts) who in
      elim (Bool-cases (trade b t).1) [
        | inl done ↦ rw done (rest ∙ ap book (k.purses who ∙ ap after done))
        | inr idle ↦ rw idle (rest ∙ ap book (k.purses who ∙ ap after idle))
      ]
