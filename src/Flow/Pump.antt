-- ===== src/Flow/Pump.antt =====
-- The rounds of `pumpLocked`: that they end with enough fuel, and where.
use ferricstore_go.Base.{
  ℕ, zero, suc, ◌+◌, ◌≤◌, ◌<◌, ◌≡◌, refl, ap, sym, subst, ◌∙◌, Option, none, Option-cases, Bool,
  true, false, List, [], ◌∷◌, ◌++◌, length, length-append, take, some, Bool-cases, ◌⊎◌, inl, inr,
  leb→le, leb, ◌==◌, ==_iff, if◌then◌else◌, arith,
}
use ferricstore_go.Base.Dict.{nat_eq, lookup, weight_at}
use ferricstore_go.Flow.Controller.{
  FlowError, LaneQueue, Controller, pump_stops, count_of, active_on, skip, grants, visit,
  pump_round, pump_loop, pump,
}
use ferricstore_go.Flow.Invariant.{Inv, same, count, one}
use ferricstore_go.Flow.Visit.{
  Pumped, Pumped-refl, Pumped-trans, rotated, rotated-Pumped, visit-Visited,
}

-- The first lanes of the list that a round visits are at their limit.
abbrev FirstFull : Controller → ℕ → Type 0
FirstFull c n = (l : ℕ) → 1 ≤ count l (take n c.ready) → c.lane_limit ≤ active_on c l

-- What the pump leaves: no credit on the connection, or none on any lane that has a waiter.
abbrev pub Exhausted : Controller → Type 0
Exhausted c =
    (c.connection_limit ≤ c.active_total)
    ⊎ ((l : ℕ) (q : LaneQueue) → lookup l c.queues ≡ some q → c.lane_limit ≤ active_on c l)

abbrev RoundEnds : Controller → ℕ → Controller × Bool → Type 0
RoundEnds c n (c', true) = Pumped c c' × (c'.queued_total + 1 ≡ c.queued_total)
RoundEnds c n (c', false) =
    Pumped c c'
    × (c'.queued_total ≡ c.queued_total)
    × (c'.queues ≡ c.queues)
    × (c'.active_by_lane ≡ c.active_by_lane)
    × ((c'.connection_limit ≤ c'.active_total) ⊎ FirstFull c n)

count-take_append :
    (l n : ℕ) (xs ys : List ℕ) → n ≤ length xs → count l (take n (xs ++ ys)) ≡ count l (take n xs)
count-take_append l zero xs ys le = refl
count-take_append l (suc n) [] ys le = absurd (omega arith)
count-take_append l (suc n) (x ∷ xs) ys le =
    omega (arith, count-take_append l n xs ys (omega arith))

round-after :
    (n : ℕ) (c : Controller) (lane : ℕ) (rest : List ℕ) (r : Controller × Bool)
    → Inv c
    → c.ready ≡ lane ∷ rest
    → n ≤ length rest
    → c.lane_limit ≤ active_on c lane
    → RoundEnds (rotated c lane rest) n r
    → RoundEnds c (suc n) r
round-after n c lane rest (c', true) h turn le full (p, one_less) =
    (Pumped-trans c (rotated c lane rest) c' (rotated-Pumped c lane rest h turn) p, one_less)
round-after n c lane rest (c', false) h turn le full (p, unchanged, queues, lanes, ends) = (
  Pumped-trans c (rotated c lane rest) c' (rotated-Pumped c lane rest h turn) p,
  unchanged,
  queues,
  lanes,
  (elim ends [ inl out ↦ inl out | inr fulls ↦ inr (all_full fulls) ]),
)
  where
    all_full : FirstFull (rotated c lane rest) n → FirstFull c (suc n)
    all_full fulls l there = elim (Bool-cases (l == lane)) [
      | inl e ↦ rw ((==_iff l lane).0 e) full
      | inr e ↦
          fulls l (rw (count-take_append l n rest (lane ∷ []) le) (later l e (rw turn at there)))
    ]
      where
        later :
            (l : ℕ)
            → (l == lane) ≡ false
            → 1 ≤ same l lane + count l (take n rest)
            → 1 ≤ count l (take n rest)
        later l e there = ground arith

round-step :
    (n : ℕ) (c : Controller)
    → Inv c
    → c.active_total < c.connection_limit
    → ((d : Controller) → Inv d → n ≤ length d.ready → RoundEnds d n (pump_round n d))
    → (xs : List ℕ) → c.ready ≡ xs
    → suc n ≤ length xs
    → RoundEnds c (suc n) (elim xs [
      | [] ↦ (c, false)
      | lane ∷ rest ↦ elim (visit c lane rest) [
        | skip c' ↦ pump_round n c'
        | grants c' ↦ (c', true)
      ]
    ])
round-step n c h free again [] turn le = absurd (omega arith)
round-step n c h free again (lane ∷ rest) turn le = elim (visit-Visited c lane rest h turn free) [
  | inl (e, full) ↦ rw e (
      round-after n c lane rest (pump_round n (rotated c lane rest)) h turn (omega arith) full (
        again (rotated c lane rest) (rotated-Pumped c lane rest h turn).inv
          (omega (arith, length-append rest (lane ∷ [])))))
  | inr (c', e, p, one_less) ↦ rw e (p, one_less)
]

round-ends : (n : ℕ) (c : Controller) → Inv c → n ≤ length c.ready → RoundEnds c n (pump_round n c)
unfolding pump_round
round-ends zero c h le = (Pumped-refl c h, refl, refl, refl, inr (λ l some_l. absurd (omega arith)))
round-ends (suc n) c h le = elim (Bool-cases (leb c.connection_limit c.active_total)) [
  | inl full ↦ rw full (Pumped-refl c h, refl, refl, refl, inl (leb→le _ _ full))
  | inr free ↦ rw free (round-step n c h (ground (arith, free)) (round-ends n) c.ready refl le)
]

take-all : (xs : List ℕ) → take (length xs) xs ≡ xs
take-all [] = refl
take-all (x ∷ xs) = ap (λ ys. x ∷ ys) (take-all xs)

loop-after :
    (fuel : ℕ) (c : Controller)
    → Inv c
    → c.closed ≡ none
    → c.queued_total < suc fuel
    → ((d : Controller)
        → Inv d
        → d.closed ≡ none
        → d.queued_total < fuel
        → Pumped d (pump_loop fuel d) × Exhausted (pump_loop fuel d))
    → (r : Controller × Bool) → RoundEnds c (length c.ready) r
    → Pumped c (if r.1 then pump_loop fuel r.0 else r.0)
      × Exhausted (if r.1 then pump_loop fuel r.0 else r.0)
loop-after fuel c h live lt again (c', true) (p, one_less) =
    let (more, ends) = again c' p.inv (p.closing ∙ live) (omega (arith, lt, one_less)) in
    (Pumped-trans c c' (pump_loop fuel c') p more, ends)
loop-after fuel c h live lt again (c', false) (p, unchanged, queues, lanes, ends) = (
  p,
  elim ends [
    | inl out ↦ inl out
    | inr fulls ↦
        inr (λ l q found. at_limit l (fulls l (rw (take-all c.ready) (in_ready l q found))))
  ],
)
  where
    in_ready : (l : ℕ) (q : LaneQueue) → lookup l c'.queues ≡ some q → 1 ≤ count l c.ready
    in_ready l q found = omega (arith, h.listed l, ap (weight_at one) (rw queues at found))

    at_limit : (l : ℕ) → c.lane_limit ≤ active_on c l → c'.lane_limit ≤ active_on c' l
    at_limit l le = omega (arith, le, p.lane, ap (λ m. count_of (lookup l m)) lanes)

count-empty : (l : ℕ) (xs : List ℕ) → (length xs == 0) ≡ true → count l xs ≡ 0
count-empty l [] empty = refl
count-empty l (x ∷ xs) empty = absurd (ground (arith, empty))

-- An open controller at which the loop stops has no credit, or no waiter.
stops-Exhausted : (c : Controller) → Inv c → c.closed ≡ none → pump_stops c ≡ true → Exhausted c
stops-Exhausted c h live stops = elim (Bool-cases (leb c.connection_limit c.active_total)) [
  | inl full ↦ inl (leb→le _ _ full)
  | inr free ↦ inr (λ l q found. absurd (
      omega (
        arith,
        h.listed l,
        ap (weight_at one) found,
        count-empty l c.ready (rw (live, free) at stops),
      )))
]

-- More fuel than waiters is enough.
pump_loop-ends :
    (fuel : ℕ) (c : Controller)
    → Inv c
    → c.closed ≡ none
    → c.queued_total < fuel
    → Pumped c (pump_loop fuel c) × Exhausted (pump_loop fuel c)
unfolding pump_loop
pump_loop-ends zero c h live lt = absurd (omega arith)
pump_loop-ends (suc fuel) c h live lt = elim (Bool-cases (pump_stops c)) [
  | inl stops ↦ rw stops (Pumped-refl c h, stops-Exhausted c h live stops)
  | inr goes_on ↦ rw goes_on (
      loop-after fuel c h live lt (pump_loop-ends fuel) (pump_round (length c.ready) c)
        (round-ends (length c.ready) c h (omega arith)))
]

pump_loop-closed :
    (fuel : ℕ) (c : Controller) (e : FlowError) → c.closed ≡ some e → pump_loop fuel c ≡ c
unfolding pump_loop
pump_loop-closed zero c e shut = refl
pump_loop-closed (suc fuel) c e shut = rw shut refl

-- What a pump leaves: of a closed controller, the controller itself.
abbrev pub Stops : Controller → Option FlowError → Controller → Type 0
Stops c none c' = Exhausted c'
Stops c (some e) c' = c' ≡ c

-- A pump of a well-formed controller keeps it well-formed and its limits as they are, moves requests from
-- the queues to the active ones without losing any, and takes no count over its limit. Of an open controller
-- it stops only when the connection has no credit left or every lane that has waiters is at its limit;
-- a closed one it leaves as it is.
pub pump-ends : (c : Controller) → Inv c → Pumped c (pump c) × Stops c c.closed (pump c)
unfolding pump
pump-ends c h = elim (Option-cases c.closed) [
  | inl live ↦
      let (p, ends) = pump_loop-ends (c.queued_total + 1) c h live (omega arith) in
      (p, subst (λ o. Stops c o (pump_loop (c.queued_total + 1) c)) (sym live) ends)
  | inr (e, shut) ↦
      let same = pump_loop-closed (c.queued_total + 1) c e shut in
      (
        subst (Pumped c) (sym same) (Pumped-refl c h),
        subst (λ o. Stops c o (pump_loop (c.queued_total + 1) c)) (sym shut) same,
      )
]
