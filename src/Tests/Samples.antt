-- ===== src/Tests/Samples.antt =====
-- Sample data for the tests: a toy cipher suite, a pack, a document that lists its imports, and a
-- runtime whose numbers are the natural numbers.
use knowtion.Base.{
  ℕ, ◌+◌, ◌*◌, ◌-◌, if◌then◌else◌, ◌≡◌, refl, true, false, none, some, List, [], ◌∷◌, ◌++◌, length,
  replicate, codes, Text, ◌==◌, list_eq, nat_eq, list_beq, ltb, leb, contains, ok, arith,
}
use knowtion.Runtime.{Runtime, HasZero}
use knowtion.Property.Dates.{compare_codepoints}
use knowtion.Property.Values.{PropertyType, PropertyDef}
use knowtion.Evaluate.Sorting.Order.{HasOrder}
use knowtion.Pack.Bytes.{Bytes}
use knowtion.Pack.Envelope.{Crypto, IsLawful, PackInput, check_input, encode_pack, all_zero}
use knowtion.Pack.Envelope.Encoded.{HasRoom, expected_header, finished}
use knowtion.Sync.Store.{Platform, StoreOptions, PackStore, World, PackCandidate, empty_result}

abbrev pub toy : Crypto
toy = record {
  hash = λ bytes. replicate 31 7 ++ (length bytes ∷ []);
  sign = λ message secret. replicate 64 9;
  verify = λ signature message key. signature == replicate 64 9;
  public_key = λ secret. secret;
}

pub toy-IsLawful : IsLawful toy
unfolding list_beq
toy-IsLawful = record {
  length-hash = λ bytes. refl;
  length-sign = λ message secret. refl;
  verify-sign = λ message secret. refl;
}

abbrev pub plain_input : PackInput
plain_input = record {
  workspace_id = replicate 16 1;
  device_id = replicate 16 2;
  seq = 1;
  payload = 5 ∷ 6 ∷ 7 ∷ [];
  is_shallow_snapshot = none;
  suite_id = none;
  key_epoch = none;
  padding_len = none;
  prev_pack_hash = none;
  pack_salt = none;
  device_signature = none;
  signing_secret_key = none;
}

abbrev pub signed_input : PackInput
signed_input = record plain_input {
  suite_id = some 1;
  key_epoch = some 3;
  signing_secret_key = some (replicate 32 4);
}

pub plain-HasRoom : HasRoom plain_input
unfolding contains
plain-HasRoom = record { suite_known = refl; suite_id = omega arith; key_epoch = omega arith }

pub signed-HasRoom : HasRoom signed_input
unfolding contains
signed-HasRoom = record { suite_known = refl; suite_id = omega arith; key_epoch = omega arith }

pub plain_encoded : encode_pack toy plain_input ≡ ok (finished toy plain_input)
unfolding encode_pack check_input all_zero
plain_encoded = refl

pub signed_encoded : encode_pack toy signed_input ≡ ok (finished toy signed_input)
unfolding encode_pack check_input all_zero
signed_encoded = refl

abbrev pub listing_doc : Platform
listing_doc = record {
  Doc = List Bytes;
  version = λ doc. (codes "7", length doc) ∷ [];
  peer_id = λ doc. codes "7";
  export_all = λ doc. 5 ∷ 6 ∷ 7 ∷ [];
  export_from = λ version doc. 8 ∷ [];
  import_update = λ bytes doc. (true, doc ++ bytes ∷ []);
  locale_compare = compare_codepoints;
}

abbrev pub plain_options : StoreOptions
plain_options = record {
  workspace_id = replicate 16 1;
  device_id = replicate 16 2;
  device_hex = codes "02";
  document_hex = codes "00";
  crypto = none;
}

abbrev pub new_store : PackStore
new_store = record {
  last_seq = 0;
  last_hash = replicate 32 0;
  last_pushed = none;
  published_counters = [];
  known = [];
  chain_tips = [];
  snapshot_anchors = [];
  applied_packs = [];
}

abbrev pub new_world : World (List Bytes)
new_world = record { store = new_store; doc = []; result = empty_result }

abbrev pub candidate_of : PackInput → PackCandidate
candidate_of input = record {
  path = codes "d/02/00/1.kpack";
  device_hex = codes "02";
  seq = input.seq;
  bytes = finished toy input;
  decoded = record { header = expected_header toy input; payload = input.payload };
  adopted = false;
}

abbrev digits : ℕ → Text → ℕ
digits n [] = n
digits n (c ∷ cs) = digits (n * 10 + (c - 48)) cs

-- Numbers are the natural numbers, every instant is on one day, and only one other day can be shown.
abbrev pub natural : Runtime
natural = record {
  Num = ℕ;
  zero_num = 0;
  of_nat = λ n. n;
  is_finite = λ n. true;
  is_safe_integer = λ n. true;
  num_eq = λ a b. a == b;
  num_lt = ltb;
  abs_le = leb;
  nfc_lower = λ text. text;
  number_of = digits 0;
  num_add = λ m n. m + n;
  num_subtract = λ m n. m - n;
  date_utc = λ y m d. y * 372 + m * 31 + d;
  iso_day = λ n. if n == 753676 then some (codes "2026-01-04") else none;
  day_formatter = λ zone. some (λ instant. some (codes "2026-01-01"));
}

pub natural-HasZero : HasZero natural
natural-HasZero = record { zero_finite = refl; zero_eq = refl }

pub natural-HasOrder : HasOrder natural
natural-HasOrder = record { num_lt_asym = λ a b h. ground arith }

abbrev pub tags : PropertyDef
tags = record {
  id = codes "t";
  name = codes "Tags";
  type = PropertyType.multi_select;
  options =
      record { id = codes "a"; name = codes "A" }
      ∷ record { id = codes "b"; name = codes "B" }
      ∷ [];
  database = none;
}

abbrev pub state : PropertyDef
state = record tags { id = codes "p"; name = codes "State"; type = PropertyType.select }
