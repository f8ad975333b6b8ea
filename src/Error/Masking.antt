-- ===== src/Error/Masking.antt =====
-- What an error response of src/error.rs tells the client.
use kiro_gateway.Common.{◌≡◌, refl, sym, ◌∙◌, arith}
use kiro_gateway.Common.Text.{codes}
use kiro_gateway.Error.{
  AppError, config, storage, internal, error_status, safe_message, generic_error_response, Protocol,
  protocol_error_response,
}

safe_message-server :
    (e : AppError) → error_status e ≡ 500 → safe_message e ≡ codes "internal server error"
unfolding error_status safe_message
safe_message-server (config m) h = refl
safe_message-server (storage m) h = refl
safe_message-server (internal m) h = refl
safe_message-server _ h = absurd (omega arith)

same_protocol :
    (p : Protocol) (e e' : AppError)
    → error_status e ≡ error_status e'
    → safe_message e ≡ safe_message e'
    → protocol_error_response p e ≡ protocol_error_response p e'
unfolding protocol_error_response
same_protocol p e e' s m = cc

same_generic :
    (e e' : AppError)
    → error_status e ≡ error_status e'
    → safe_message e ≡ safe_message e'
    → generic_error_response e ≡ generic_error_response e'
unfolding generic_error_response
same_generic e e' s m = cc

-- Two errors that are reported with status 500 (configuration, storage and internal errors) give
-- the same response in every protocol and in the generic envelope: nothing of their messages
-- reaches the client.
pub server_errors_masked :
    (p : Protocol) (e e' : AppError)
    → error_status e ≡ 500
    → error_status e' ≡ 500
    → (protocol_error_response p e ≡ protocol_error_response p e')
      × (generic_error_response e ≡ generic_error_response e')
server_errors_masked p e e' h h' =
    let m : safe_message e ≡ safe_message e' =
      safe_message-server e h ∙ sym (safe_message-server e' h') in
    let s : error_status e ≡ error_status e' = h ∙ sym h' in
    (same_protocol p e e' s m, same_generic e e' s m)
