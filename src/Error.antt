-- ===== src/Error.antt =====
-- libschnee/schnee/Error.h: the error code that every component returns.
use schneeflocke.Base.{Bool, true, false}

pub data Error : Type 0 where
  no_error no_perm not_found revision_not_found invalid_argument channel_error closed : Error
  eof connection_error connection_reset lift_error host_offline target_offline not_enough : Error
  too_much exists_already server_error time_out not_supported not_initialized try_again : Error
  invalid_uri bad_protocol old_protocol new_protocol could_not_connect_host auth_error
        sign_in_error :
      Error
  tls_error no_zero_conf zero_conf_error buffer_full multiple_errors loop bad_deserialization :
      Error
  read_error write_error wrong_state canceled other : Error

-- `if (e)` on an error code.
abbrev pub is_error : Error → Bool
is_error Error.no_error = false
is_error _ = true
