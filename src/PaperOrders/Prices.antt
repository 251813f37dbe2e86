-- ===== src/PaperOrders/Prices.antt =====
-- The fill price of a marketable LIMIT order (backend/execution/paper_order_manager.py).
use indian_algo_trading_plat.Common.{◌≡◌, true, if◌then◌else◌, arith}
use indian_algo_trading_plat.Common.Float.{Float, IsOrdered}
use indian_algo_trading_plat.Types.{OrderSide, is_buy}
use indian_algo_trading_plat.PaperConfig.{PaperExecutionConfig}
use indian_algo_trading_plat.PaperOrders.{limit_fill_price, market_fill_price}

module _ {P : Type 0} ⦃d : Float P⦄ (o : IsOrdered d) where
  -- A buyer's fill price is at most the limit, and any other's at least the limit, for every limit
  -- that is no NaN and whatever the slippage.
  pub limit_fill_price_bounded :
      (cfg : PaperExecutionConfig) (side : OrderSide) (limit ltp : P)
      → d.le limit limit ≡ true
      → (if is_buy side
          then d.le (limit_fill_price cfg side limit ltp) limit
          else d.le limit (limit_fill_price cfg side limit ltp))
        ≡ true
  unfolding limit_fill_price
  limit_fill_price_bounded cfg side limit ltp number =
      let slipped = market_fill_price cfg side ltp in
      ground (arith, o.le_of_lt slipped limit, o.le_of_lt limit slipped)
