-- ===== src/Rsp/Connection.antt =====
-- `Initialize`, `Connect` and `Terminate`: the calls on the socket and their results, -1 for an
-- error of `socket`, `connect` and `close`.
use ctap2_test_tool.Base.{Bool, false, if◌then◌else◌, int_eq, negsuc, not, pos, true, ℕ, ℤ, ◌||◌}

pub record SocketCalls : Type 0 where
  pub socket_result : ℤ
  pub inet_pton_result : ℤ
  pub connect_result : ℕ → ℤ
  pub close_result : ℤ

abbrev pub is_error : ℤ → Bool
is_error result = int_eq result (negsuc 0)

abbrev pub is_negative : ℤ → Bool
is_negative (pos n) = false
is_negative (negsuc n) = true

-- Whether it succeeded, and the new `socket_`.
unfoldable pub initialize_socket : SocketCalls → Bool × ℤ
initialize_socket calls = (not (is_error calls.socket_result), calls.socket_result)

unfoldable pub connect_socket : SocketCalls → ℤ → ℕ → Bool
connect_socket calls socket_fd port =
    if is_negative socket_fd
    then false
    else if is_negative calls.inet_pton_result || int_eq calls.inet_pton_result (pos 0)
    then false
    else not (is_error (calls.connect_result port))

unfoldable pub terminate_socket : SocketCalls → Bool
terminate_socket calls = not (is_error calls.close_result)
