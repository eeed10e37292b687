-- ===== src/Tests/Stores.antt =====
-- Pulls and pushes at concrete folders.
use knowtion.Base.{
  if◌then◌else◌, Outcome, Option, ℕ, suc, ◌≡◌, refl, Bool, true, false, is_some, inl, inr,
  Bool-cases, Option-cases, list_beq_iff, none, some, List, [], ◌∷◌, length, take, contains,
  list_beq, nat_eq, list_eq, ◌==◌, Text, codes, ok, err, arith,
}
use knowtion.Base.Dict.{lookup}
use knowtion.Pack.Bytes.{Bytes}
use knowtion.Pack.Envelope.{PackInput, check_input, encode_pack, all_zero, is_chain_root}
use knowtion.Pack.Envelope.Encoded.{expected_header, finished, length-finished}
use knowtion.Pack.Envelope.RoundTrip.{decode_pack-encode_pack, checked}
use knowtion.Sync.Paths.{pack_path, padded_seq, decimal}
use knowtion.Sync.Store.{PackStore, PackCandidate, World, has_new_operations}
use knowtion.Sync.Store.Pull.{
  breaks_chain, signature_problem, open_payload, settle, count, adopt_own, import_candidate,
  if_signed, merge_candidate, merge_candidates,
}
use knowtion.Sync.Store.Pull.Growth.{Grows}
use knowtion.Sync.Store.Gather.{pull}
use knowtion.Sync.Store.Gather.Growth.{pull-Grows}
use knowtion.Sync.Store.Pull.Twice.{skips, merge_candidates_again}
use knowtion.Sync.Store.Pull.Forged.{Untouched, merge_candidates_forged}
use knowtion.Sync.Store.Pull.Covered.{Passed, merge_candidates_covered}
use knowtion.Sync.Store.Push.{
  StoragePort, PushResult, pack_input, build_pack, payload_of, pushed, push, resolve_occupied_seq,
}
use knowtion.Sync.Store.Push.Chained.{
  NextLink, push_again, push-NextLink, next_path as chained_path,
}
use knowtion.Sync.Store.Push.Refused.{resolve_occupied_seq-torn}
use knowtion.Sync.Store.Push.Kept.{IsPort, Refused, push-keeps_packs}
use knowtion.Tests.Samples.{
  toy, toy-IsLawful, plain_input, signed_input, plain-HasRoom, plain_encoded, listing_doc,
  plain_options, new_store, new_world, candidate_of,
}

abbrev one_pack : List PackCandidate
one_pack = candidate_of plain_input ∷ []

abbrev merged : World (List Bytes)
merged = (merge_candidates toy plain_options listing_doc one_pack new_world).1

merged_once : merge_candidates toy plain_options listing_doc one_pack new_world ≡ (ok tt, merged)
unfolding merge_candidates merge_candidate if_signed import_candidate signature_problem open_payload
    settle count adopt_own breaks_chain contains lookup is_chain_root all_zero list_beq
merged_once = refl

merged_rejects : length merged.result.rejected ≡ length new_world.result.rejected
unfolding merge_candidates merge_candidate if_signed import_candidate signature_problem open_payload
    settle count adopt_own breaks_chain contains lookup is_chain_root all_zero list_beq
merged_rejects = refl

merge_candidates_again_example :
    merge_candidates toy plain_options listing_doc one_pack merged
    ≡ (ok tt, skips (length one_pack) merged)
merge_candidates_again_example =
    merge_candidates_again toy plain_options listing_doc one_pack new_world merged merged_once
      merged_rejects

-- The folder lists one pack and one file that cannot be read.
abbrev answers : Text → Outcome (Option Text) (Option Bytes)
answers path =
    if path == codes "d/02/00/1.kpack"
    then ok (some (finished toy plain_input))
    else err (some (codes "EBUSY"))

abbrev listed : List Text
listed = codes "d/02/00/1.kpack" ∷ codes "d/02/00/2.kpack" ∷ []

pull-Grows_example :
    Grows new_store (pull plain_options listing_doc answers toy (ok listed) new_store []).1.store
pull-Grows_example = pull-Grows toy plain_options listing_doc answers (ok listed) new_store []

abbrev signed_pack : List PackCandidate
signed_pack = candidate_of signed_input ∷ []

merge_candidates_forged_example :
    (v : World (List Bytes)) × ((merge_candidates toy plain_options listing_doc signed_pack
          new_world
        ≡ (ok tt, v))
      × Untouched toy plain_options listing_doc new_world v)
merge_candidates_forged_example =
    merge_candidates_forged toy plain_options listing_doc signed_pack new_world
      (((λ e. absurd (omega (arith, e))), tt), tt)

abbrev anchored : World (List Bytes)
anchored = record new_world { store = record new_store { snapshot_anchors = (codes "02", 4) ∷ [] } }

merge_candidates_covered_example :
    (v : World (List Bytes)) × ((merge_candidates toy plain_options listing_doc one_pack anchored
        ≡ (ok tt, v))
      × Passed toy plain_options listing_doc anchored v)
unfolding lookup list_beq
merge_candidates_covered_example =
    merge_candidates_covered toy plain_options listing_doc one_pack anchored (refl, tt)

-- A folder that counts its writes, empty or holding one file under every name.
abbrev empty_folder : StoragePort ℕ
empty_folder = record {
  put_if_absent = λ path bytes n. (ok true, suc n);
  get = λ path n. (ok none, n);
  delete = λ path n. (ok tt, suc n);
  put_own = λ path bytes n. (ok tt, suc n);
}

abbrev folder_with : Bytes → StoragePort ℕ
folder_with bytes = record empty_folder {
  put_if_absent = λ path pack n. (ok (n == 1), n);
  get = λ path n. (ok (some bytes), n);
}

abbrev edited : List Bytes
edited = (1 ∷ []) ∷ []

abbrev next_input : PackInput
next_input = pack_input toy plain_options new_store (5 ∷ 6 ∷ 7 ∷ [])

abbrev next_path : Text
next_path = pack_path (codes "02") (codes "00") 1

abbrev pushed_store : PackStore
pushed_store = pushed toy plain_options listing_doc new_store edited (finished toy next_input)

abbrev push_result : PushResult
push_result = record { path = next_path; seq = 1; bytes = length (finished toy next_input) }

plain_length : length (finished toy plain_input) ≡ 183
plain_length =
    length-finished toy toy-IsLawful plain_input
      (checked toy toy-IsLawful plain_input plain-HasRoom (finished toy plain_input) plain_encoded)

next_encoded : encode_pack toy next_input ≡ ok (finished toy next_input)
unfolding encode_pack check_input all_zero
next_encoded = refl

next_built :
    build_pack toy plain_options new_store
      (payload_of toy plain_options listing_doc new_store edited)
    ≡ ok (finished toy next_input)
unfolding build_pack payload_of
next_built = next_encoded

pushed_once :
    push toy plain_options listing_doc empty_folder new_store edited 0
    ≡ (ok (some push_result), (pushed_store, 2))
unfolding push has_new_operations lookup
pushed_once = rw next_built refl

push_again_example :
    push toy plain_options listing_doc empty_folder pushed_store edited 2
    ≡ (ok none, (pushed_store, 2))
unfolding lookup list_beq
push_again_example =
    push_again toy plain_options listing_doc empty_folder new_store pushed_store edited 0 2
      push_result (refl, tt) pushed_once

push-NextLink_example :
    NextLink toy plain_options listing_doc empty_folder new_store pushed_store edited 0 push_result
push-NextLink_example =
    push-NextLink toy plain_options listing_doc empty_folder toy-IsLawful new_store pushed_store
      edited 0 2 push_result refl pushed_once

-- A folder is what each path holds.
abbrev Files : Type 0
Files = Text → Option Bytes

abbrev file_port : StoragePort Files
file_port = record {
  put_if_absent = λ path bytes files.
      if is_some (files path)
      then (ok false, files)
      else (ok true, λ q. if q == path then some bytes else files q);
  get = λ path files. (ok (files path), files);
  delete = λ path files. (ok tt, λ q. if q == path then none else files q);
  put_own = λ path bytes files. (ok tt, λ q. if q == path then some bytes else files q);
}

occupied : ◌≡◌ {A = Outcome (Option Text) Bool} (ok false) (ok true) → ⊥
occupied h = cc

file_port-IsPort : IsPort file_port (λ files. files)
file_port-IsPort = record {
  put_if_absent_keeps = λ q p b bytes files h. kept q p b bytes files h;
  put_if_absent_created = λ p bytes files h. created p bytes files h;
  get_keeps = λ q p files. refl;
  get_found = λ p found files h. cc;
  delete_keeps = λ q p files apart. rw apart refl;
  put_own_keeps = λ q p bytes files apart. rw apart refl;
}
  where
    kept :
        (q p : Text) (b bytes : Bytes) (files : Files)
        → files q ≡ some b
        → (file_port.put_if_absent p bytes files).1 q ≡ some b
    kept q p b bytes files h = elim (Option-cases (files p)) [
      | inr (existing, e) ↦ rw e h
      | inl absent ↦ rw absent (elim (Bool-cases (q == p)) [
        | inl same ↦ let here : q ≡ p = (list_beq_iff q p).0 same in cc
        | inr apart ↦ rw apart h
      ])
    ]

    created :
        (p : Text) (bytes : Bytes) (files : Files)
        → (file_port.put_if_absent p bytes files).0 ≡ ok true
        → files p ≡ none
    created p bytes files h = elim (Option-cases (files p)) [
      | inl absent ↦ absent
      | inr (existing, e) ↦ absurd (occupied (rw e at h))
    ]

abbrev one_file : Files
one_file q = if q == next_path then some (finished toy plain_input) else none

push-keeps_packs_example :
    ((push toy plain_options listing_doc file_port new_store edited one_file).1.1 next_path
      ≡ some (finished toy plain_input))
    × (next_path ≡ chained_path toy plain_options listing_doc file_port new_store
        → Refused new_store
            (push toy plain_options listing_doc file_port new_store edited one_file))
unfolding list_beq pack_path padded_seq decimal
push-keeps_packs_example =
    push-keeps_packs toy plain_options listing_doc file_port (λ files. files) file_port-IsPort
      next_path (finished toy plain_input)
      (record { header = expected_header toy plain_input; payload = 5 ∷ 6 ∷ 7 ∷ [] }) new_store
      edited one_file refl refl
      (decode_pack-encode_pack toy toy-IsLawful plain_input plain-HasRoom (finished toy plain_input)
        plain_encoded)

resolve_occupied_seq-torn_example :
    resolve_occupied_seq
      (folder_with (take 100 (finished toy plain_input)))
      next_path
      (finished toy next_input)
      0
    ≡ (ok tt, 1)
resolve_occupied_seq-torn_example =
    resolve_occupied_seq-torn toy toy-IsLawful plain_input plain-HasRoom (finished toy plain_input)
      plain_encoded (folder_with (take 100 (finished toy plain_input))) 100 next_path
      (finished toy next_input) 0 0 1 1 (omega (arith, plain_length)) refl refl refl
