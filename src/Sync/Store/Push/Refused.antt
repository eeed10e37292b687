-- ===== src/Sync/Store/Push/Refused.antt =====
-- `push` and `resolveOccupiedSeq` where the next sequence number is taken.
use knowtion.Base.{ℕ, ◌<◌, ◌≡◌, refl, inl, inr, true, some, length, take, Text, ok, err}
use knowtion.Pack.Bytes.{Bytes}
use knowtion.Pack.Envelope.{
  Crypto, IsLawful, PackInput, PackRejectionCode, decode_pack, encode_pack,
}
use knowtion.Pack.Envelope.Encoded.{HasRoom}
use knowtion.Pack.Envelope.RoundTrip.{decode_pack_torn}
use knowtion.Sync.Store.Push.{StoragePort, is_structural, is_own_torn_pack, resolve_occupied_seq}

torn_of_structural :
    (existing : Bytes) (code : PackRejectionCode)
    → decode_pack existing ≡ err code
    → is_structural code ≡ true
    → is_own_torn_pack existing ≡ true
unfolding is_own_torn_pack
torn_of_structural existing code e h = rw (is_own_torn_pack, e) h

-- A strict prefix of any encoded pack is recognised as torn, so a pack that a crash cut short at
-- any byte is deleted and written again.
pub resolve_occupied_seq-torn :
    (c : Crypto) (law : IsLawful c) (input : PackInput) (room : HasRoom input) (bytes : Bytes)
    (encoded : encode_pack c input ≡ ok bytes) {S : Type 0} (port : StoragePort S) (k : ℕ)
    (path : Text) (pack : Bytes) (st st1 st2 st3 : S)
    → k < length bytes
    → port.get path st ≡ (ok (some (take k bytes)), st1)
    → port.delete path st1 ≡ (ok tt, st2)
    → port.put_if_absent path pack st2 ≡ (ok true, st3)
    → resolve_occupied_seq port path pack st ≡ (ok tt, st3)
unfolding resolve_occupied_seq is_structural
resolve_occupied_seq-torn c law input room bytes encoded port k path pack st st1 st2 st3 h got
      deleted put =
    let torn : is_own_torn_pack (take k bytes) ≡ true =
      elim (decode_pack_torn c law input room bytes encoded k h) [
        | inl short ↦ torn_of_structural (take k bytes) _ short refl
        | inr cut ↦ torn_of_structural (take k bytes) _ cut refl
      ] in
    rw (got, torn, deleted, put)
