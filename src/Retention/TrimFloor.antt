-- ===== src/Retention/TrimFloor.antt =====
-- `computeTrimFloor` of packages/sync/src/trim-floor.ts.
pub mod Safe
use knowtion.Base.{
  ℕ, zero, suc, ◌+◌, ◌≤◌, ◌<◌, ◌≡◌, refl, Bool, true, false, Option, none, some, List, [], ◌∷◌,
  Text, ltb, ◌==◌, list_eq, nat_eq, if◌then◌else◌, contains, arith, Option-cases, inl, inr,
}
use knowtion.Base.Dict.{Dict, lookup, insert, erase}

-- How far each peer's operations are merged, by peer.
abbrev pub Counters : Type 0
Counters = Dict Text ℕ

-- `counters.get(peer) ?? 0`
unfoldable pub counter_of : Counters → Text → ℕ
unfolding lookup
counter_of counters peer = count (lookup peer counters)
  where
    count : Option ℕ → ℕ
    count none = 0
    count (some n) = n

-- The map that a version is copied into.
unfoldable pub copied : Counters → Counters → Counters
copied into [] = into
copied into ((peer, n) ∷ rest) = copied (insert peer n into) rest

-- The minimum for each peer of the floor. A peer that the counters lack is pinned at zero.
unfoldable pub lowered_to : Counters → Counters → Counters
lowered_to counters [] = []
lowered_to counters ((peer, ours) ∷ floor) =
    (peer, (if ltb (counter_of counters peer) ours then counter_of counters peer else ours))
    ∷ lowered_to counters floor

-- `floor.delete(peer)` for each entry at zero.
unfoldable pub drop_zeros : Counters → Counters → Counters
drop_zeros [] floor = floor
drop_zeros ((peer, zero) ∷ entries) floor = drop_zeros entries (erase peer floor)
drop_zeros ((peer, suc n) ∷ entries) floor = drop_zeros entries floor

infixl 5 ◌>>=◌
abbrev pub ◌>>=◌ {ℓ κ} : {A : Type ℓ} {B : Type κ} → Option A → (A → Option B) → Option B
none >>= f = none
some a >>= f = f a

-- `decode_ack` is `decodeAck` with `toJSON`: the version in an acknowledgement, if it can be read.
module _ {Ack : Type 0} (decode_ack : Ack → Option Counters) (acks : Dict Text Ack) where
  -- What a device has merged, if it says so.
  unfoldable pub acknowledged : Text → Option Counters
  acknowledged device = do
    ack ← lookup device acks
    version ← decode_ack ack
    some (copied [] version)

  -- The loop over the devices after the first.
  unfoldable pub floor_over : List Text → Counters → Option Counters
  floor_over [] floor = some floor
  floor_over (device ∷ devices) floor = do
    counters ← acknowledged device
    floor_over devices (lowered_to counters floor)

  unfoldable pub nothing_if_empty : Counters → Option Counters
  nothing_if_empty [] = none
  nothing_if_empty (entry ∷ floor) = some (entry ∷ floor)

  unfoldable pub compute_trim_floor : List Text → Option Counters
  compute_trim_floor [] = none
  compute_trim_floor (device ∷ devices) = do
    counters ← acknowledged device
    floor ← floor_over devices counters
    nothing_if_empty (drop_zeros floor floor)
