-- ===== src/VirtualShelly/Methods.antt =====
-- `build_response` and `dispatch_method` of src/virtual_shelly.rs: the answer to a method, as far as the
-- pulse and the measurements enter it. What else an answer holds is constant, or says what the device is.
use shelly_multiplexer.Prelude.{
  ℕ, Option, none, some, List, [], ◌∷◌, String, if◌then◌else◌, contains, string_key, ◌==◌,
}
use shelly_multiplexer.Double.{Double}
use shelly_multiplexer.Config.Types.{IpAddr, ip_key}
use shelly_multiplexer.State.{AppState}
use shelly_multiplexer.VirtualShelly.{
  EmStatus, EmDataStatus, RpcError, EmReply, status, refused, method_not_found, em_get_status,
  emdata_status, handle_poll,
}

-- The answers: the two statuses on their own, the two answers that contain both of them, the answer of
-- a method into which neither enters, by the method, and an error.
pub data Response (W : Type 0) : Type 0 where
  em : EmStatus W → Response W
  emdata : EmDataStatus W → Response W
  shelly_status : EmStatus W → EmDataStatus W → Response W
  components : EmStatus W → EmDataStatus W → Response W
  device : String → Response W
  failed : RpcError W → Response W

abbrev pub device_methods : List String
device_methods =
    "em.getconfig" ∷ "emdata.getconfig" ∷ "shelly.getdeviceinfo" ∷ "shelly.getconfig"
    ∷ "shelly.reboot" ∷ "sys.getstatus" ∷ "sys.getconfig" ∷ "wifi.getstatus" ∷ "wifi.getconfig"
    ∷ "cloud.getstatus" ∷ "cloud.getconfig" ∷ "ws.getstatus" ∷ "ws.getconfig" ∷ "mqtt.getstatus"
    ∷ "mqtt.getconfig" ∷ "eth.getstatus" ∷ "eth.getconfig" ∷ "ble.getstatus" ∷ "ble.getconfig"
    ∷ "modbus.getstatus" ∷ "modbus.getconfig" ∷ "temperature.getstatus" ∷ "script.list"
    ∷ "script.getcode" ∷ []

module _ {W : Type 0} where
  -- `em_get_status(...)?` and what is made of the status.
  abbrev pub with_status : EmReply W → (EmStatus W → Response W) → Response W
  with_status (status st) f = f st
  with_status (refused e) f = failed e

module _ {W : Type 0} ⦃d : Double W⦄ where
  -- The method is in lower case.
  unfoldable pub dispatch_method : AppState W → W → W → String → ℕ → Response W
  dispatch_method s pulse_value_w grid_stale_s method now =
      let em_0 = em_get_status s pulse_value_w grid_stale_s now in
      let emdata_0 = emdata_status s in
      if method == "em.getstatus"
      then with_status em_0 (λ st. em st)
      else if method == "emdata.getstatus"
      then emdata emdata_0
      else if method == "shelly.getstatus"
      then with_status em_0 (λ st. shelly_status st emdata_0)
      else if method == "shelly.getcomponents"
      then with_status em_0 (λ st. components st emdata_0)
      else if contains device_methods method
      then device method
      else failed (method_not_found method)

  -- A poll from its arrival to its response: the state, and the response unless the poll is dropped.
  unfoldable pub answer_poll :
      AppState W → W → IpAddr → String → ℕ → AppState W × Option (Response W)
  unfolding dispatch_method
  answer_poll s grid_stale_s peer method now =
      let polled = handle_poll s peer now in
      (
        polled.0,
        elim polled.1 [
          | none ↦ none
          | some v ↦ some (dispatch_method polled.0 v grid_stale_s method now)
        ],
      )
