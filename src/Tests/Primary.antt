-- ===== src/Tests/Primary.antt =====
-- Trades on the launchpad and the price of BNB at concrete inputs.
use go_fourmeme.Base.{◌≡◌, refl, []}
use go_fourmeme.World.{ok}
use go_fourmeme.Trade.Submit.Laws.{accepted}
use go_fourmeme.Trade.Primary.{primary_sell, sell}
use go_fourmeme.Trade.Primary.Laws.{primary_sell_idle, sell_sends_nothing}
use go_fourmeme.Tests.Setup.{target, friendly, start, token, info}

primary_sell_idle_example : primary_sell friendly target token info start ≡ (ok [], start)
primary_sell_idle_example = primary_sell_idle friendly target token info start (refl, refl, refl) tt

sell_sends_nothing_example :
    accepted friendly (sell friendly target token start).1.trace ≡ accepted friendly start.trace
sell_sends_nothing_example = sell_sends_nothing friendly target token start (refl, refl, refl) tt
