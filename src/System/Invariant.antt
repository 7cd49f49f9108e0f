-- ===== src/System/Invariant.antt =====
-- What every step of the system keeps: the active version is stored, and each gateway serves what it
-- shows.
use vial_gateway.Prelude.{ℕ}
use vial_gateway.Manager.{Manager}
use vial_gateway.Manager.Swap.{IsServing}
use vial_gateway.Store.{Store}
use vial_gateway.Text.{Text}
use vial_gateway.System.{World, Setting}

module _ {B W : Type 0} (g : Setting B W) where
  abbrev pub AllServing : World B → Type 0
  AllServing w = (i : ℕ) → IsServing g.host (w.gateways i)
