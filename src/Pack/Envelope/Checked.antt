-- ===== src/Pack/Envelope/Checked.antt =====
-- What the encoder's checks establish.
use knowtion.Base.{◌≤◌, ◌<◌, ◌≡◌, length, ok, arith}
use knowtion.Pack.Envelope.{PackInput, fields_of, check_input}

pub record IsChecked (input : PackInput) : Type 0 where
  pub workspace_id : length input.workspace_id ≡ 16
  pub device_id : length input.device_id ≡ 16
  pub prev_pack_hash : length (fields_of input).prev_pack_hash ≡ 32
  pub pack_salt : length (fields_of input).pack_salt ≡ 16
  pub device_signature : length (fields_of input).device_signature ≡ 64
  pub seq_pos : 1 ≤ input.seq
  pub seq_lt : input.seq < 18446744073709551616
  pub padding : (fields_of input).padding_len ≤ length input.payload
  pub payload : length input.payload < 4294967296

pub check_input-IsChecked : (input : PackInput) → check_input input ≡ ok tt → IsChecked input
unfolding check_input
check_input-IsChecked input h = ground arith
