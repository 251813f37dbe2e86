-- ===== src/PaperOrders/Monad.antt =====
-- A method of the paper engine: its state and its exceptions. What was written before a raise stays
-- written.
use indian_algo_trading_plat.Common.{List}
use indian_algo_trading_plat.Common.Int.{ℤ}
use indian_algo_trading_plat.Common.Dict.{Dict}
use indian_algo_trading_plat.Types.{OrderSide, OrderStateEvent}
use indian_algo_trading_plat.OrderStateMachine.{OrderStateMachine, OsmError}
use indian_algo_trading_plat.OrderStore.{OrderStore}
use indian_algo_trading_plat.FeeModel.{FeeError}

-- An entry of `self.positions`.
pub record PaperPosition (P : Type 0) : Type 0 where
  pub side : OrderSide
  pub quantity : ℤ
  pub entry_price : P

-- The mutable objects that the engine shares with the router, its own positions, and the events that
-- it gave to the trade journal.
pub record Paper (P : Type 0) : Type 0 where
  pub osm : OrderStateMachine P
  pub store : OrderStore P
  pub positions : Dict (PaperPosition P)
  pub journal : List (OrderStateEvent P)

pub data PaperError : Type 0 where
  osm_error : OsmError → PaperError
  fee_error : FeeError → PaperError
  journal_error : PaperError

pub data Result (A : Type 0) : Type 0 where
  ok : A → Result A
  err : PaperError → Result A

abbrev pub Action : Type 0 → Type 0 → Type 0
Action P A = Paper P → Result A × Paper P

module _ {P : Type 0} where
  abbrev pub pure : {A : Type 0} → A → Action P A
  pure a s = (ok a, s)

  abbrev pub raise : {A : Type 0} → PaperError → Action P A
  raise e s = (err e, s)

  infixl 5 ◌>>=◌ ◌>>◌
  abbrev pub ◌>>=◌ : {A B : Type 0} → Action P A → (A → Action P B) → Action P B
  ◌>>=◌ m f s = let (r, s') = m s in elim r [ ok a ↦ f a s' | err e ↦ (err e, s') ]

  abbrev pub ◌>>◌ : {A B : Type 0} → Action P A → Action P B → Action P B
  m >> k = m >>= λ _. k

  abbrev pub modify : (Paper P → Paper P) → Action P (Unit {0})
  modify f s = (ok tt, f s)

  abbrev pub skip : Action P (Unit {0})
  skip s = (ok tt, s)

  -- `try: m except Exception: handler`
  abbrev pub try_except : {A : Type 0} → Action P A → Action P A → Action P A
  try_except m handler s = let (r, s') = m s in elim r [ ok a ↦ (ok a, s') | err e ↦ handler s' ]
