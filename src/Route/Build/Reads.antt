-- ===== src/Route/Build/Reads.antt =====
-- What the reading of a range and the loop over its slots establish.
use ferricstore_go.Base.{
  ℕ, zero, suc, ◌+◌, ◌≡◌, ◌≤◌, ◌<◌, refl, sym, ap, subst, ◌∙◌, List, Bool, true, false, ◌&&◌, ◌||◌,
  Option, none, some, Result, ok, err, >>=-eq_ok, ok_injective, ltb, leb, ◌==◌, ==_iff,
  if◌then◌else◌, Bool-cases, Option-cases, inl, inr, arith,
}
use ferricstore_go.Base.Int.{ℤ, pos, negsuc}
use ferricstore_go.Base.Dict.{nat_eq, lookup, insert, lookup-insert}
use ferricstore_go.Route.Slot.{route_slot_count}
use ferricstore_go.Route.Plan.{Route}
use ferricstore_go.Route.Build.{
  BuildError, overlapping, invalid_range, leader_unknown, Endpoint, RangeFields, Segment,
  segment_of, read_range, required, claim_slots, bytes_key, max_uint32,
}

abbrev pub in_run : ℕ → ℕ → ℕ → Bool
in_run first n s = leb first s && ltb s (first + n)

-- The slots of a run get the route, and had none before; the others stay as they were.
pub claim_slots-claims :
    (n first : ℕ) (r : Route Endpoint) (m m' : List (ℕ × Route Endpoint))
    → claim_slots n first r m ≡ ok m'
    → (s : ℕ)
    → (lookup s m' ≡ (if in_run first n s then some (record r { slot = s }) else lookup s m))
      × (in_run first n s ≡ true → lookup s m ≡ none)
unfolding claim_slots
claim_slots-claims zero first r m m' h s =
    let same : m ≡ m' = ok_injective h in
    let out : in_run first 0 s ≡ false = ground arith in
    (rw (out, same) refl, λ inside. absurd (let no : true ≡ false = sym inside ∙ out in cc))
claim_slots-claims (suc n) first r m m' h s = elim (Option-cases (lookup first m)) [
  | inr (taken, there) ↦
      absurd (let no : err (overlapping first) ≡ ok m' = rw (claim_slots, there) at h in cc)
  | inl unused ↦
      let m1 : List (ℕ × Route Endpoint) = insert first (record r { slot = first }) m in
      let rest : claim_slots n (first + 1) r m1 ≡ ok m' = rw (claim_slots, unused) at h in
      let (now, before) = claim_slots-claims n (first + 1) r m1 m' rest s in
      elim (Bool-cases (first == s)) [
        | inl same ↦
            let at_s : first ≡ s = (==_iff first s).0 same in
            let out : in_run (first + 1) n s ≡ false = ground (arith, at_s) in
            let inside : in_run first (suc n) s ≡ true = ground (arith, at_s) in
            (
              rw inside (
                  rw (out, lookup-insert first s (record r { slot = first }) m, same) at now
                  ∙ ap (λ x. some (record r { slot = x })) at_s),
              λ _. ap (λ x. lookup x m) (sym at_s) ∙ unused,
            )
        | inr other ↦
            let same_run : in_run first (suc n) s ≡ in_run (first + 1) n s =
              ground (arith, other) in
            (
              rw same_run (rw (lookup-insert first s (record r { slot = first }) m, other) at now),
              λ inside.
                  (rw (lookup-insert first s (record r { slot = first }) m, other) at
                    (before (sym same_run ∙ inside))),
            )
      ]
]

-- What a range that was read says.
pub record Reads (shard_count : ℕ) (f : RangeFields) (s : Segment) (e : Endpoint) : Type 0 where
  pub first : f.first_slot ≡ some (pos s.first)
  pub last : f.last_slot ≡ some (pos s.last)
  pub shard : f.shard ≡ some (pos s.shard)
  pub lane : f.lane_id ≡ some (pos s.lane)
  pub endpoint : f.endpoint ≡ some e
  pub ordered : s.first ≤ s.last
  pub last_lt : s.last < route_slot_count
  pub shard_lt : s.shard < shard_count
  pub lane_lo : 1 ≤ s.lane

required-some :
    {A : Type 0} (o : Option A) (why : BuildError) (a : A) → required o why ≡ ok a → o ≡ some a
required-some none why a h = cc
required-some (some b) why a h = cc

-- The numbers of a segment that passed the test.
abbrev Passed : ℕ → ℤ → ℤ → ℤ → ℤ → Segment → Type 0
Passed shard_count a b c d s =
    (a ≡ pos s.first)
    × ((b ≡ pos s.last)
        × ((c ≡ pos s.shard)
            × ((d ≡ pos s.lane)
                × ((s.first ≤ s.last)
                    × ((s.last < route_slot_count) × ((s.shard < shard_count) × (1 ≤ s.lane)))))))

segment_of-Passed :
    (shard_count : ℕ) (a b c d : ℤ) (s : Segment)
    → segment_of shard_count a b c d ≡ ok s
    → Passed shard_count a b c d s
unfolding segment_of
segment_of-Passed shard_count (pos a) (pos b) (pos c) (pos d) s h =
    elim (Bool-cases
      (ltb b a || leb route_slot_count b || (leb shard_count c || (d == 0 || leb max_uint32 d)))) [
        | inl bad ↦ absurd (let no : err invalid_range ≡ ok s = rw bad at h in cc)
        | inr good ↦
            let now : record { first = a; last = b; shard = c; lane = d } ≡ s =
              ok_injective (rw good at h) in
            subst (Passed shard_count (pos a) (pos b) (pos c) (pos d)) now (
              refl,
              (
                refl,
                (
                  refl,
                  (
                    refl,
                    (
                      ground (arith, good),
                      (ground (arith, good), (ground (arith, good), ground (arith, good))),
                    ),
                  ),
                ),
              ),
            )
      ]
  where
    ok_injective : {x y : Segment} → ◌≡◌ {A = Result BuildError Segment} (ok x) (ok y) → x ≡ y
    ok_injective k = cc
segment_of-Passed shard_count (negsuc a) b c d s h = cc
segment_of-Passed shard_count (pos a) (negsuc b) c d s h = cc
segment_of-Passed shard_count (pos a) (pos b) (negsuc c) d s h = cc
segment_of-Passed shard_count (pos a) (pos b) (pos c) (negsuc d) s h = cc

pub read_range-Reads :
    (shard_count : ℕ) (f : RangeFields) (s : Segment) (e : Endpoint)
    → read_range shard_count f ≡ ok (s, e)
    → Reads shard_count f s e
unfolding read_range
read_range-Reads shard_count f s e h = elim (Bool-cases f.no_leader) [
  | inl unknown ↦
      absurd (let no : err leader_unknown ≡ ok (s, e) = simp (read_range, unknown) at h in cc)
  | inr known ↦
      let (a, ha, h1) = >>=-eq_ok _ _ (simp (read_range, known) at h) in
      let (b, hb, h2) = >>=-eq_ok _ _ h1 in
      let (c, hc, h3) = >>=-eq_ok _ _ h2 in
      let (d, hd, h4) = >>=-eq_ok _ _ h3 in
      let (e', he, h5) = >>=-eq_ok _ _ h4 in
      let (s', hs, h6) = >>=-eq_ok _ _ h5 in
      let both : ◌≡◌ {A = Segment × Endpoint} (s', e') (s, e) = ok_injective h6 in
      let same_s : s' ≡ s = ap (λ x. x.0) both in
      let same_e : e' ≡ e = ap (λ x. x.1) both in
      let (pa, (pb, (pc, (pd, (o, (l, (n, k))))))) =
        subst (Passed shard_count a b c d) same_s (segment_of-Passed shard_count a b c d s' hs) in
      record {
        first = required-some f.first_slot _ a ha ∙ ap some pa;
        last = required-some f.last_slot _ b hb ∙ ap some pb;
        shard = required-some f.shard _ c hc ∙ ap some pc;
        lane = required-some f.lane_id _ d hd ∙ ap some pd;
        endpoint = required-some f.endpoint _ e' he ∙ ap some same_e;
        ordered = o;
        last_lt = l;
        shard_lt = n;
        lane_lo = k;
      }
]

-- A run of slots that are all free is claimed.
pub claim_slots-free :
    (n first : ℕ) (r : Route Endpoint) (m : List (ℕ × Route Endpoint))
    → ((s : ℕ) → first ≤ s → s < first + n → lookup s m ≡ none)
    → (m' : List (ℕ × Route Endpoint)) × (claim_slots n first r m ≡ ok m')
unfolding claim_slots
claim_slots-free zero first r m free = (m, refl)
claim_slots-free (suc n) first r m free =
    let rest : (m' : List (ℕ × Route Endpoint)) × (claim_slots n (first + 1) r
            (insert first (record r { slot = first }) m)
          ≡ ok m') =
      claim_slots-free n (first + 1) r (insert first (record r { slot = first }) m) (λ s lo hi.
        let other : (first == s) ≡ false = ground arith in
        rw (lookup-insert first s (record r { slot = first }) m, other)
          (free s (omega arith) (omega arith))) in
    (rest.0, rw (claim_slots, free first (omega arith) (omega arith)) rest.1)
