-- ===== src/Der/Errors.antt =====
-- What src/rfc3161.js throws, one constructor for each message.
use web_resource_ledger.Prelude.{ℕ}

pub data Thrown : Type 0 where
  length_too_large : ℕ → Thrown
  length_past_end indefinite_length : Thrown
  too_many_length_bytes : ℕ → Thrown
  length_bytes_past_end read_past_end value_past_end : Thrown
  child_not_found : ℕ → ℕ → Thrown
  -- A loop of the model ran out of fuel, which it never does.
  unfinished : Thrown
  bundle_hash_prefix bundle_hash_length : Thrown
  http_status : ℕ → Thrown
  response_too_large : ℕ → Thrown
  -- A block has another tag than the structure wants.
  response_not_sequence status_info_not_sequence status_not_integer : Thrown
  rejected_with_status : ℕ → Thrown
  token_not_sequence content_info_not_sequence content_info_context : Thrown
  signed_data_not_sequence encap_not_sequence e_content_context e_content_not_octets : Thrown
  tst_info_not_sequence imprint_not_sequence hashed_message_not_octets : Thrown
  gen_time_tag gen_time_not_utc missing_imprint missing_gen_time : Thrown
  nonce_mismatch imprint_mismatch : Thrown
