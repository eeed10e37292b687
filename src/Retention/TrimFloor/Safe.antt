-- ===== src/Retention/TrimFloor/Safe.antt =====
-- The floor of packages/sync/src/trim-floor.ts against what the devices say.
use knowtion.Base.{
  ℕ, zero, suc, ◌≤◌, ◌≡◌, ◌≢◌, refl, true, Option, none, some, List, [], ◌∷◌, Text, ltb, ◌==◌,
  list_eq, nat_eq, list_beq_iff, if◌then◌else◌, contains, arith, Option-cases, Bool-cases, inl, inr,
  sym, subst,
}
use knowtion.Base.Dict.{Dict, lookup, erase, lookup-erase}
use knowtion.Retention.TrimFloor.{
  Counters, counter_of, lowered_to, drop_zeros, acknowledged, floor_over, nothing_if_empty,
  compute_trim_floor, ◌>>=◌,
}

-- The first list of counters is nowhere above the second; a peer that a list lacks counts as zero.
abbrev pub Below : Counters → Counters → Type 0
Below low high = (peer : Text) → counter_of low peer ≤ counter_of high peer

counter_of-cons :
    (peer k : Text) (n : ℕ) (d : Counters)
    → counter_of ((k, n) ∷ d) peer ≡ (if peer == k then n else counter_of d peer)
unfolding counter_of lookup
counter_of-cons peer k n d = ground arith

counter_of-nil : (peer : Text) → counter_of [] peer ≡ 0
unfolding counter_of lookup
counter_of-nil peer = refl

-- Lowering brings the floor below the counters and raises nothing.
counter_of-lowered_to :
    (counters floor : Counters) (peer : Text)
    → (counter_of (lowered_to counters floor) peer ≤ counter_of counters peer)
      × (counter_of (lowered_to counters floor) peer ≤ counter_of floor peer)
unfolding lowered_to
counter_of-lowered_to counters [] peer = rw (counter_of-nil peer) (omega arith, omega arith)
counter_of-lowered_to counters ((k, ours) ∷ floor) peer = ground (
  arith,
  counter_of-lowered_to counters floor peer,
  list_beq_iff peer k,
  counter_of-cons peer k ours floor,
  counter_of-cons peer k (if ltb (counter_of counters k) ours then counter_of counters k else ours)
      (lowered_to counters floor),
)

lookup-drop_zeros :
    (entries floor : Counters) (peer : Text) (n : ℕ)
    → lookup peer (drop_zeros entries floor) ≡ some n
    → lookup peer floor ≡ some n
unfolding drop_zeros
lookup-drop_zeros [] floor peer n h = h
lookup-drop_zeros ((k, suc m) ∷ entries) floor peer n h = lookup-drop_zeros entries floor peer n h
lookup-drop_zeros ((k, zero) ∷ entries) floor peer n h =
    let kept = lookup-drop_zeros entries (erase k floor) peer n h in
    ground (arith, lookup-erase peer k floor)

-- What stands at zero among the entries is dropped.
drop_zeros-zero :
    (entries floor : Counters) (peer : Text)
    → lookup peer entries ≡ some 0
    → lookup peer (drop_zeros entries floor) ≢ some 0
unfolding drop_zeros lookup
drop_zeros-zero [] floor peer e h = cc
drop_zeros-zero ((k, suc m) ∷ entries) floor peer e h =
    drop_zeros-zero entries floor peer (ground arith) h
drop_zeros-zero ((k, zero) ∷ entries) floor peer e h =
    let kept = lookup-drop_zeros entries (erase k floor) peer 0 h in
    drop_zeros-zero entries (erase k floor) peer (ground (arith, lookup-erase peer k floor)) h

drop_zeros-pos :
    (floor : Counters) (peer : Text) (n : ℕ) → lookup peer (drop_zeros floor floor) ≡ some n → 1 ≤ n
drop_zeros-pos floor peer zero h =
    absurd (drop_zeros-zero floor floor peer (lookup-drop_zeros floor floor peer 0 h) h)
drop_zeros-pos floor peer (suc n) h = omega arith

counter_of-drop_zeros : (floor : Counters) → Below (drop_zeros floor floor) floor
unfolding counter_of
counter_of-drop_zeros floor peer = elim (Option-cases (lookup peer (drop_zeros floor floor))) [
  | inl e ↦ rw e (omega arith)
  | inr (n, e) ↦ rw (e, lookup-drop_zeros floor floor peer n e) (omega arith)
]

some-injective : (a b : Counters) → some a ≡ some b → a ≡ b
some-injective a b h = cc

module _ {Ack : Type 0} (decode_ack : Ack → Option Counters) (acks : Dict Text Ack) where
  -- A device says how far it has merged, and the floor is nowhere above that.
  pub record Allows (floor : Counters) (device : Text) : Type 0 where
    pub counters : Counters
    pub said : acknowledged decode_ack acks device ≡ some counters
    pub below : Below floor counters

  Allows-lower :
      (low high : Counters) (device : Text)
      → Below low high
      → Allows high device
      → Allows low device
  Allows-lower low high device h a = record {
    counters = a.counters;
    said = a.said;
    below = λ peer. omega (arith, h peer, a.below peer);
  }

  -- The devices of a list allow the floor, which is below what the loop started from.
  abbrev AllowedBy : List Text → Counters → Counters → Type 0
  AllowedBy devices high floor =
      Below floor high × ((device : Text) → contains device devices ≡ true → Allows floor device)

  bind-some {ℓ κ} :
      {A : Type ℓ} {B : Type κ} (m : Option A) (f : A → Option B) {b : B}
      → (m >>= f) ≡ some b
      → (x : A) × (m ≡ some x) × (f x ≡ some b)
  bind-some none f h = cc
  bind-some (some x) f h = (x, refl, h)

  Allows-cons :
      (first : Text) (devices : List Text) (floor : Counters)
      → Allows floor first
      → ((device : Text) → contains device devices ≡ true → Allows floor device)
      → (device : Text) → contains device (first ∷ devices) ≡ true
      → Allows floor device
  unfolding contains
  Allows-cons first devices floor h k device e = elim (Bool-cases (device == first)) [
    | inl same ↦ subst (Allows floor) (sym ((list_beq_iff device first).0 same)) h
    | inr other ↦ k device (ground arith)
  ]

  floor_over-AllowedBy :
      (devices : List Text) (high floor : Counters)
      → floor_over decode_ack acks devices high ≡ some floor
      → AllowedBy devices high floor
  unfolding floor_over contains
  floor_over-AllowedBy [] high floor h =
      ((λ peer. rw (some-injective high floor h) (omega arith)), (λ device e. cc))
  floor_over-AllowedBy (first ∷ devices) high floor h =
      let (counters, said, rest) = bind-some (acknowledged decode_ack acks first) _ h in
      let lowered = counter_of-lowered_to counters high in
      let (below, allowed) = floor_over-AllowedBy devices (lowered_to counters high) floor rest in
      (
        (λ peer. omega (arith, below peer, (lowered peer).1)),
        Allows-cons first devices floor
            (record {
              counters = counters;
              said = said;
              below = λ peer. omega (arith, below peer, (lowered peer).0);
            })
            allowed,
      )

  nothing_if_empty-some :
      (floor found : Counters) → nothing_if_empty decode_ack acks floor ≡ some found → floor ≡ found
  unfolding nothing_if_empty
  nothing_if_empty-some [] found h = cc
  nothing_if_empty-some (entry ∷ floor) found h = some-injective _ _ h

  -- If there is a floor, every device of the list has a readable acknowledgement, the floor is nowhere
  -- above what that device has merged, and each of its counters is positive.
  pub compute_trim_floor-Allows :
      (devices : List Text) (floor : Counters)
      → compute_trim_floor decode_ack acks devices ≡ some floor
      → ((device : Text) → contains device devices ≡ true → Allows floor device)
        × ((peer : Text) (n : ℕ) → lookup peer floor ≡ some n → 1 ≤ n)
  unfolding compute_trim_floor
  compute_trim_floor-Allows [] floor h = cc
  compute_trim_floor-Allows (first ∷ devices) floor h =
      let (counters, said, rest) = bind-some (acknowledged decode_ack acks first) _ h in
      let (high, over, kept) = bind-some (floor_over decode_ack acks devices counters) _ rest in
      let dropped = nothing_if_empty-some (drop_zeros high high) floor kept in
      let (below, allowed) = floor_over-AllowedBy devices counters high over in
      subst
        (λ low.
          ((device : Text) → contains device (first ∷ devices) ≡ true → Allows low device)
          × ((peer : Text) (n : ℕ) → lookup peer low ≡ some n → 1 ≤ n))
        dropped
        (
          (λ device e.
              Allows-lower (drop_zeros high high) high device (counter_of-drop_zeros high) (
                Allows-cons first devices high
                  (record { counters = counters; said = said; below = below }) allowed device e)),
          drop_zeros-pos high,
        )
