-- ===== src/Proto/Names.antt =====
-- `ch32mux_result_name` and `ch32mux_device_status_name` of userspace/src/proto.c.
pub mod Laws
use Prim.Native.String.{String}
use usbmux_tool.Base.{
  ℕ, List, [], ◌∷◌, Bool, ℤ, pos, negsuc, int_eq, ◌==◌, if◌then◌else◌, Code, Ret, ok, err, fault,
  err_arg, err_no_mem, err_proto, err_timeout, err_io, err_not_found, err_device_status,
  err_overflow,
}

-- `switch(key) { case a: return x; ... default: return otherwise; }`
pub switch : {K : Type 0} → (K → K → Bool) → K → List (K × String) → String → String
switch equal key [] otherwise = otherwise
switch equal key ((a, x) ∷ cases) otherwise =
    if equal key a then x else switch equal key cases otherwise

-- ch32mux_result_t
abbrev pub code_number : Code → ℤ
code_number err_arg = negsuc 0
code_number err_no_mem = negsuc 1
code_number err_proto = negsuc 2
code_number err_timeout = negsuc 3
code_number err_io = negsuc 4
code_number err_not_found = negsuc 5
code_number err_device_status = negsuc 6
code_number err_overflow = negsuc 7

abbrev pub result_cases : List (ℤ × String)
result_cases =
    (pos 0, "OK")
    ∷ (negsuc 0, "ERR_ARG")
    ∷ (negsuc 1, "ERR_NO_MEM")
    ∷ (negsuc 2, "ERR_PROTO")
    ∷ (negsuc 3, "ERR_TIMEOUT")
    ∷ (negsuc 4, "ERR_IO")
    ∷ (negsuc 5, "ERR_NOT_FOUND")
    ∷ (negsuc 6, "ERR_DEVICE_STATUS")
    ∷ (negsuc 7, "ERR_OVERFLOW")
    ∷ []

unfoldable pub result_name : ℤ → String
unfolding switch
result_name result = switch int_eq result result_cases "ERR_UNKNOWN"

-- ch32mux_device_status_t, with the names of the cases
abbrev pub device_status_cases : List (ℕ × String)
device_status_cases =
    (0x00, "OK")
    ∷ (0x01, "ERR_BAD_MAGIC")
    ∷ (0x02, "ERR_BAD_VERSION")
    ∷ (0x03, "ERR_BAD_LEN")
    ∷ (0x04, "ERR_BAD_HDR_CRC")
    ∷ (0x05, "ERR_BAD_PAYLOAD_CRC")
    ∷ (0x06, "ERR_UNSUPPORTED_CH")
    ∷ (0x07, "ERR_UNSUPPORTED_OPCODE")
    ∷ (0x08, "ERR_INVALID_PARAM")
    ∷ (0x09, "ERR_INVALID_STATE")
    ∷ (0x0a, "ERR_BUSY")
    ∷ (0x0b, "ERR_NO_RESOURCE")
    ∷ (0x0c, "ERR_TIMEOUT")
    ∷ (0x0d, "ERR_OVERFLOW")
    ∷ (0x10, "ERR_UART_MAP_INVALID")
    ∷ (0x11, "ERR_UART_NOT_OPEN")
    ∷ (0x20, "ERR_BLE_SLOT_INVALID")
    ∷ (0x21, "ERR_BLE_NOT_CONNECTED")
    ∷ (0x22, "ERR_BLE_DISC_NOT_READY")
    ∷ (0x23, "ERR_BLE_ATT")
    ∷ (0x30, "ERR_INTERNAL")
    ∷ []

unfoldable pub device_status_name : ℕ → String
unfolding switch
device_status_name status = switch ◌==◌ status device_status_cases "ERR_UNKNOWN_DEVICE_STATUS"
