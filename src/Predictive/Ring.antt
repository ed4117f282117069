-- ===== src/Predictive/Ring.antt =====
-- The ring of src/core/predictive_topology.hpp.
use emergence_os_bare_metal.Base.{
  ℕ, zero, suc, ◌+◌, ◌-◌, ◌%◌, ◌≤◌, ◌<◌, ◌≡◌, refl, ap, ap₂, ◌∙◌, arith, List, [], ◌∷◌, ◌++◌, Bool,
  true, false, Bool-cases, inl, inr, ltb, ◌==◌, if◌then◌else◌,
}
use emergence_os_bare_metal.Manifold.{Manifold, update}
use emergence_os_bare_metal.Predictive.{
  SpeculativeRecord, PredictiveEngine, guess_of, speculative_fetch, differs, verify_loop,
  verify_consensus,
}

pub record IsRing (e : PredictiveEngine) : Type 0 where
  pub head_in : e.head < 256
  pub tail_in : e.tail < 256

-- The records between tail and head.
abbrev pub waiting : PredictiveEngine → ℕ
waiting e = (e.head + 256 - e.tail) % 256

-- `n` records from index `i` on.
unfoldable pub records_from : (ℕ → SpeculativeRecord) → ℕ → ℕ → List SpeculativeRecord
records_from ring i zero = []
records_from ring i (suc n) = ring i ∷ records_from ring ((i + 1) % 256) n

abbrev pub queue : PredictiveEngine → List SpeculativeRecord
queue e = records_from e.spec_ring e.tail (waiting e)

-- Does every record hold of the manifold?
abbrev pub all_hold : Manifold → List SpeculativeRecord → Bool
all_hold m [] = true
all_hold m (r ∷ rs) = if differs m r then false else all_hold m rs

-- How many records at the front hold.
abbrev pub holding : Manifold → List SpeculativeRecord → ℕ
holding m [] = 0
holding m (r ∷ rs) = let later = holding m rs in if differs m r then 0 else suc later

verify_loop_lem :
    (fuel n : ℕ) (e : PredictiveEngine)
    → IsRing e
    → waiting e ≡ n
    → n ≤ fuel
    → ((verify_loop fuel e).tail ≡ (verify_loop fuel e).head)
      × IsRing (verify_loop fuel e)
      × ((verify_loop fuel e).rollbacks
          ≡ e.rollbacks
            + (if all_hold e.substrate (records_from e.spec_ring e.tail n) then 0 else 1))
      × ((verify_loop fuel e).head
          ≡ (e.tail + holding e.substrate (records_from e.spec_ring e.tail n)) % 256)
unfolding verify_loop records_from
verify_loop_lem zero zero e ok w h =
    (omega (arith, ok.head_in, ok.tail_in), ok, omega arith, omega (arith, ok.head_in, ok.tail_in))
verify_loop_lem zero (suc n) e ok w h = absurd (omega arith)
verify_loop_lem (suc fuel) zero e ok w h =
    let same : (e.tail == e.head) ≡ true = ground (arith, ok.head_in, ok.tail_in) in
    rw same (
      omega (arith, ok.head_in, ok.tail_in),
      ok,
      omega arith,
      omega (arith, ok.head_in, ok.tail_in),
    )
verify_loop_lem (suc fuel) (suc n) e ok w h =
    let more : (e.tail == e.head) ≡ false = ground (arith, ok.head_in, ok.tail_in) in
    let next : PredictiveEngine = record e { tail = (e.tail + 1) % 256 } in
    let ih =
      verify_loop_lem fuel n next (record { head_in = ok.head_in; tail_in = omega arith })
        (omega (arith, ok.head_in, ok.tail_in)) (omega arith) in
    elim (Bool-cases (differs e.substrate (e.spec_ring e.tail))) [
      | inl bad ↦
          rw (more, verify_loop, bad)
            (
              refl,
              record { head_in = ok.tail_in; tail_in = ok.tail_in },
              refl,
              omega (arith, ok.tail_in),
            )
      | inr good ↦ rw (more, verify_loop, good) (ih.0, ih.1, ih.2, ih.3 ∙ omega arith)
    ]

-- `verify_consensus` ends with an empty ring after at most 256 records. It sends one rollback if some
-- waiting record does not hold of the manifold and none otherwise, and the head is then at the first
-- such record: it and what waits behind it are dropped.
pub verify_consensus_lem :
    (e : PredictiveEngine)
    → IsRing e
    → ((verify_consensus e).tail ≡ (verify_consensus e).head)
      × IsRing (verify_consensus e)
      × ((verify_consensus e).rollbacks
          ≡ e.rollbacks + (if all_hold e.substrate (queue e) then 0 else 1))
      × ((verify_consensus e).head ≡ (e.tail + holding e.substrate (queue e)) % 256)
unfolding verify_consensus
verify_consensus_lem e ok = verify_loop_lem 256 (waiting e) e ok refl (omega arith)

-- An index far enough ahead is not among the records.
records_from-update :
    (ring : ℕ → SpeculativeRecord) (h i n : ℕ) (r : SpeculativeRecord)
    → i < 256
    → h < 256
    → n ≤ (h + 256 - i) % 256
    → records_from (update ring h r) i n ≡ records_from ring i n
unfolding records_from
records_from-update ring h i zero r p q far = refl
records_from-update ring h i (suc n) r p q far =
    let other : (h == i) ≡ false = ground arith in
    ap₂ ◌∷◌ (rw other refl)
      (records_from-update ring h ((i + 1) % 256) n r (omega arith) q (omega arith))

records_from-append :
    (ring : ℕ → SpeculativeRecord) (i n : ℕ)
    → i < 256
    → records_from ring i (suc n) ≡ records_from ring i n ++ ring ((i + n) % 256) ∷ []
unfolding records_from
records_from-append ring i zero p = ap (λ j. ring j ∷ []) (omega arith)
records_from-append ring i (suc n) p =
    ap (λ t. ring i ∷ t)
      (records_from-append ring ((i + 1) % 256) n (omega arith)
        ∙ ap (λ j. records_from ring ((i + 1) % 256) n ++ ring j ∷ []) (omega arith))

module _ (speculative_route : ℕ) (e : PredictiveEngine) (vaddr junk : ℕ) (ok : IsRing e) where
  abbrev after : PredictiveEngine
  after = (speculative_fetch speculative_route e vaddr junk).1

  abbrev added : SpeculativeRecord
  added = record { vaddr = vaddr; predicted = guess_of speculative_route junk vaddr }

  -- A guess joins the end of the waiting records, unless 255 wait already: then the ring counts as
  -- empty and all 256 are lost.
  pub queue-speculative_fetch :
      IsRing after × (queue after ≡ (if ltb (waiting e) 255 then queue e ++ added ∷ [] else []))
  unfolding speculative_fetch
  queue-speculative_fetch = (
    record { head_in = omega arith; tail_in = ok.tail_in },
    elim (Bool-cases (ltb (waiting e) 255)) [
      | inl room ↦
          let one_more : waiting after ≡ suc (waiting e) = ground (arith, ok.head_in, ok.tail_in) in
          let place : (e.tail + waiting e) % 256 ≡ e.head = omega (arith, ok.head_in, ok.tail_in) in
          let here : (e.head == e.head) ≡ true = ground arith in
          rw room (
            ap (records_from after.spec_ring e.tail) one_more
            ∙ records_from-append after.spec_ring e.tail (waiting e) ok.tail_in
            ∙ ap₂ (λ xs x. xs ++ x ∷ [])
                (records_from-update e.spec_ring e.head e.tail (waiting e) added ok.tail_in
                  ok.head_in (omega arith))
                (ap after.spec_ring place ∙ rw here refl))
      | inr full ↦
          let none_left : waiting after ≡ 0 = ground (arith, ok.head_in, ok.tail_in) in
          rw full (ap (records_from after.spec_ring e.tail) none_left ∙ unfold records_from in refl)
    ],
  )
