-- ===== src/DeviceResult.antt =====
-- server/device/device_result.h and device_result.c: result codes and their names.
use tcpremote_device_control.Base.{
  ◌≡◌, sym, ap, ◌∙◌, Bool, true, false, Option, none, some, equal_bytes, Bytes, codes, ℤ, pos,
  negsuc, eqb_ℤ, if◌then◌else◌, refl,
}

pub data DeviceResult : Type 0 where
  ok not_initialized gpio_setup_failed thread_failed invalid_value : DeviceResult
  plugin_load_failed symbol_load_failed device_failed cancelled : DeviceResult

-- The number behind each name of the enum.
unfoldable pub code_of : DeviceResult → ℤ
code_of ok = pos 0
code_of not_initialized = negsuc 0
code_of gpio_setup_failed = negsuc 1
code_of thread_failed = negsuc 2
code_of invalid_value = negsuc 3
code_of plugin_load_failed = negsuc 4
code_of symbol_load_failed = negsuc 5
code_of device_failed = negsuc 6
code_of cancelled = negsuc 7

-- result == DEVICE_RESULT_OK
abbrev pub is_ok : DeviceResult → Bool
is_ok ok = true
is_ok _ = false

unfoldable pub device_result_message : ℤ → Bytes
unfolding code_of
device_result_message result =
    if eqb_ℤ result (code_of ok)
    then codes "OK"
    else if eqb_ℤ result (code_of not_initialized)
    then codes "NOT_INITIALIZED"
    else if eqb_ℤ result (code_of gpio_setup_failed)
    then codes "GPIO_SETUP_FAILED"
    else if eqb_ℤ result (code_of thread_failed)
    then codes "THREAD_FAILED"
    else if eqb_ℤ result (code_of invalid_value)
    then codes "INVALID_VALUE"
    else if eqb_ℤ result (code_of plugin_load_failed)
    then codes "PLUGIN_LOAD_FAILED"
    else if eqb_ℤ result (code_of symbol_load_failed)
    then codes "SYMBOL_LOAD_FAILED"
    else if eqb_ℤ result (code_of device_failed)
    then codes "DEVICE_FAILED"
    else if eqb_ℤ result (code_of cancelled)
    then codes "CANCELLED"
    else codes "UNKNOWN"

-- The enum's constant with a given name, for the laws below.
of_message : Bytes → Option DeviceResult
of_message m =
    if equal_bytes m (codes "OK")
    then some ok
    else if equal_bytes m (codes "NOT_INITIALIZED")
    then some not_initialized
    else if equal_bytes m (codes "GPIO_SETUP_FAILED")
    then some gpio_setup_failed
    else if equal_bytes m (codes "THREAD_FAILED")
    then some thread_failed
    else if equal_bytes m (codes "INVALID_VALUE")
    then some invalid_value
    else if equal_bytes m (codes "PLUGIN_LOAD_FAILED")
    then some plugin_load_failed
    else if equal_bytes m (codes "SYMBOL_LOAD_FAILED")
    then some symbol_load_failed
    else if equal_bytes m (codes "DEVICE_FAILED")
    then some device_failed
    else if equal_bytes m (codes "CANCELLED")
    then some cancelled
    else none

of_message-message : (r : DeviceResult) → of_message (device_result_message (code_of r)) ≡ some r
unfolding of_message device_result_message equal_bytes
of_message-message ok = refl
of_message-message _ = refl

-- A client can tell the results apart: two results of the enum with one message are the same.
pub device_result_message-injective :
    (r s : DeviceResult)
    → device_result_message (code_of r) ≡ device_result_message (code_of s)
    → r ≡ s
device_result_message-injective r s e =
    let same : some r ≡ some s =
      sym (of_message-message r) ∙ ap of_message e ∙ of_message-message s in
    cc
