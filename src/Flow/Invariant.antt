-- ===== src/Flow/Invariant.antt =====
-- What holds of the controller between two critical sections.
use ferricstore_go.Base.{
  ℕ, ◌+◌, ◌-◌, ◌≤◌, ◌≡◌, ◌≢◌, refl, ap, sym, ◌∙◌, true, List, [], ◌∷◌, ◌++◌, length, Option, none,
  some, Bool-cases, inl, inr, ◌==◌, ==_iff, if◌then◌else◌, arith,
}
use ferricstore_go.Base.Dict.{
  nat_eq, lookup, insert, delete, Unique, insert-Unique, delete-Unique, delete-insert,
  lookup-insert, lookup-delete, lookup-insert_self, total, weight_at, total-insert, total-delete,
  AllValues, AllValues-insert, AllValues-delete, AllValues-lookup,
}
use ferricstore_go.Flow.Controller.{
  Outcome, LaneQueue, Controller, new_controller, count_of, active_on, activate, remove_from,
}

-- How often a number occurs.
abbrev pub same : ℕ → ℕ → ℕ
same x y = if x == y then 1 else 0

abbrev pub count : ℕ → List ℕ → ℕ
count x [] = 0
count x (y ∷ ys) = same x y + count x ys

pub same_self : (x : ℕ) → same x x ≡ 1
same_self x = ground arith

pub same-eq : (x y : ℕ) → x ≡ y → same x y ≡ 1
same-eq x y h = ground arith

pub count-snoc : (x y : ℕ) (ys : List ℕ) → count x (ys ++ (y ∷ [])) ≡ count x ys + same x y
count-snoc x y [] = omega arith
count-snoc x y (z ∷ ys) = omega (arith, count-snoc x y ys)

pub count-remove_from :
    (x y : ℕ) (ys : List ℕ) → 1 ≤ count y ys → count x (remove_from y ys) + same x y ≡ count x ys
count-remove_from x y [] h = absurd (omega arith)
count-remove_from x y (z ∷ ys) h = ground (arith, count-remove_from x y ys)

abbrev pub id : ℕ → ℕ
id n = n

abbrev pub waiting_of : LaneQueue → ℕ
waiting_of q = q.waiting

abbrev pub one : {A : Type 0} → A → ℕ
one a = 1

-- A queue counts its waiters, has one at least, and its lane is in the ready list.
abbrev pub IsQueue : LaneQueue → Type 0
IsQueue q = (q.waiting ≡ length q.waiters) × (1 ≤ q.waiting) × (q.ready ≡ true)

-- A waiter stands in one queue, or is settled, but not both; new numbers are free.
abbrev pub places : Controller → ℕ → ℕ
places c w = total (λ q. count w q.waiters) c.queues + weight_at one (lookup w c.settled)

pub record Inv (c : Controller) : Type 0 where
  pub unique_active : Unique c.active_by_lane
  pub unique_queues : Unique c.queues
  pub active : c.active_total ≡ total id c.active_by_lane
  pub queued : c.queued_total ≡ total waiting_of c.queues
  pub counted : AllValues IsQueue c.queues
  pub once : (w : ℕ) → places c w ≤ 1
  pub fresh : (w : ℕ) → c.next_waiter ≤ w → places c w ≡ 0
  -- Each lane with a queue is in the ready list once, and no other lane is.
  pub listed : (l : ℕ) → count l c.ready ≡ weight_at one (lookup l c.queues)

pub new_controller-Inv :
    (connection lane queue : Option ℕ) (max_queued : ℕ)
    → Inv (new_controller connection lane queue max_queued)
unfolding new_controller lookup
new_controller-Inv connection lane queue max_queued = record {
  unique_active = tt;
  unique_queues = tt;
  active = refl;
  queued = refl;
  counted = tt;
  once = λ w. omega arith;
  fresh = λ w h. refl;
  listed = λ l. refl;
}

pub count_of-weight : (o : Option ℕ) → weight_at id o ≡ count_of o
count_of-weight none = refl
count_of-weight (some n) = refl

pub activate-Inv : (c : Controller) (lane : ℕ) → Inv c → Inv (activate c lane)
unfolding activate
activate-Inv c lane h = record {
  unique_active = insert-Unique lane (active_on c lane + 1) c.active_by_lane h.unique_active;
  unique_queues = h.unique_queues;
  active = omega (
    arith,
    h.active,
    total-insert id lane (active_on c lane + 1) c.active_by_lane,
    count_of-weight (lookup lane c.active_by_lane),
  );
  queued = h.queued;
  counted = h.counted;
  once = h.once;
  fresh = h.fresh;
  listed = h.listed;
}

-- One waiter leaves a queue and is settled.
module _ (c : Controller) (lane w : ℕ) (q : LaneQueue) (o : Outcome) (ws ready' : List ℕ)
    (h : Inv c) (found : lookup lane c.queues ≡ some q)
    (takes : (x : ℕ) → count x ws + same x w ≡ count x q.waiters)
    (shorter : length ws + 1 ≡ length q.waiters) where
  abbrev less : LaneQueue
  less = record q { waiters = ws; waiting = q.waiting - 1 }

  abbrev pub left : Controller
  left = record c {
    queues = insert lane less c.queues;
    queued_total = c.queued_total - 1;
    ready = ready';
    settled = insert w o c.settled;
  }

  abbrev pub emptied : Controller
  emptied = record c {
    queues = delete lane (insert lane less c.queues);
    queued_total = c.queued_total - 1;
    ready = ready';
    settled = insert w o c.settled;
  }

  is_queue : IsQueue q
  is_queue = AllValues-lookup IsQueue lane q c.queues h.counted found

  taken :
      (x : ℕ)
      → total (λ q. count x q.waiters) (insert lane less c.queues) + same x w
        ≡ total (λ q. count x q.waiters) c.queues
  taken x = omega (
    arith,
    total-insert (λ (r : LaneQueue). count x r.waiters) lane less c.queues,
    ap (weight_at (λ (r : LaneQueue). count x r.waiters)) found,
    takes x,
  )

  unsettled : weight_at one (lookup w c.settled) ≡ 0
  unsettled = omega (arith, h.once w, taken w, same_self w)

  settles :
      (x : ℕ)
      → weight_at one (lookup x (insert w o c.settled))
        ≡ weight_at one (lookup x c.settled) + same x w
  settles x = elim (Bool-cases (w == x)) [
    | inl e ↦
        let at_w : w ≡ x = (==_iff w x).0 e in
        rw (lookup-insert w x o c.settled, e)
          (omega (arith, rw at_w at unsettled, same-eq x w (sym at_w)))
    | inr e ↦ rw (lookup-insert w x o c.settled, e) (ground arith)
  ]

  -- The waiter's number moves from the queues to the settled ones.
  left-places : (x : ℕ) → places left x ≡ places c x
  left-places x = omega (arith, taken x, settles x)

  left-queued : c.queued_total - 1 ≡ total waiting_of (insert lane less c.queues)
  left-queued = omega (
    arith,
    h.queued,
    total-insert waiting_of lane less c.queues,
    ap (weight_at waiting_of) found,
    is_queue,
  )

  pub left-Inv : q.waiting - 1 ≢ 0 → ((x : ℕ) → count x ready' ≡ count x c.ready) → Inv left
  left-Inv more moved = record {
    unique_active = h.unique_active;
    unique_queues = insert-Unique lane less c.queues h.unique_queues;
    active = h.active;
    queued = left-queued;
    counted =
        AllValues-insert IsQueue lane less c.queues
          (omega (arith, is_queue, shorter), omega (arith, more), is_queue.2) h.counted;
    once = λ x. omega (arith, left-places x, h.once x);
    fresh = λ x le. left-places x ∙ h.fresh x le;
    listed = λ l. moved l ∙ h.listed l ∙ still l;
  }
    where
      still :
          (l : ℕ)
          → weight_at one (lookup l c.queues) ≡ weight_at one (lookup l (insert lane less c.queues))
      still l = elim (Bool-cases (lane == l)) [
        | inl e ↦
            let at_l : lane ≡ l = (==_iff lane l).0 e in
            rw (lookup-insert lane l less c.queues, e) (ap (weight_at one) (rw at_l at found))
        | inr e ↦ rw (lookup-insert lane l less c.queues, e)
      ]

  pub emptied-Inv :
      q.waiting - 1 ≡ 0 → ((x : ℕ) → count x ready' + same x lane ≡ count x c.ready) → Inv emptied
  emptied-Inv last gone = record {
    unique_active = h.unique_active;
    unique_queues = delete-Unique lane (insert lane less c.queues) still_unique;
    active = h.active;
    queued = omega (arith, left-queued, out waiting_of, last);
    counted =
        rw (delete-insert lane less c.queues) (AllValues-delete IsQueue lane c.queues h.counted);
    once = λ x. omega (arith, without x, left-places x, h.once x);
    fresh = λ x le. omega (arith, without x, left-places x, h.fresh x le);
    listed = λ l. rw (delete-insert lane less c.queues) (unlisted l);
  }
    where
      unlisted : (l : ℕ) → count l ready' ≡ weight_at one (lookup l (delete lane c.queues))
      unlisted l = elim (Bool-cases (lane == l)) [
        | inl e ↦
            let at_l : lane ≡ l = (==_iff lane l).0 e in
            rw (lookup-delete lane l c.queues, e)
              (omega (
                arith,
                gone l,
                h.listed l,
                ap (weight_at one) (rw at_l at found),
                same-eq l lane (sym at_l),
              ))
        | inr e ↦ rw (lookup-delete lane l c.queues, e) (ground (arith, gone l, h.listed l))
      ]

      still_unique : Unique (insert lane less c.queues)
      still_unique = insert-Unique lane less c.queues h.unique_queues

      out :
          (f : LaneQueue → ℕ)
          → total f (delete lane (insert lane less c.queues)) + f less
            ≡ total f (insert lane less c.queues)
      out f =
          rw (lookup-insert_self lane less c.queues) at
            (total-delete f lane (insert lane less c.queues) still_unique)

      without : (x : ℕ) → places emptied x ≤ places left x
      without x = omega (arith, out (λ q. count x q.waiters))
