-- ===== src/State/Energy.antt =====
-- `EnergyCounters::integrate` of src/state.rs.
use shelly_multiplexer.Prelude.{if◌then◌else◌, unwrap_or}
use shelly_multiplexer.Double.{Double, le}
use shelly_multiplexer.State.{EmStatusIncoming, EnergyCounters}

module _ {W : Type 0} ⦃d : Double W⦄ where
  open d use {nat, neg, add, mul, div}

  unfoldable pub integrate : EnergyCounters W → EmStatusIncoming W → W → EnergyCounters W
  integrate c snap dt_seconds =
      let dt_h = div dt_seconds (nat 3600) in
      let total = unwrap_or snap.total_act_power (nat 0) in
      if le (nat 0) total
      then record c { consumed_wh = add c.consumed_wh (mul total dt_h) }
      else record c { returned_wh = add c.returned_wh (mul (neg total) dt_h) }
