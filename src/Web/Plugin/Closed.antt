-- ===== src/Web/Plugin/Closed.antt =====
-- Histories of plugin registrations and of the close that ends them, of pkg/bear/plugin.go.
use gin_bear.Base.{
  ℕ, ◌+◌, ◌-◌, ◌≤◌, ◌<◌, ◌≡◌, refl, subst, Bool, true, false, Bool-cases, Option, none, some, inl,
  inr, ltb, lt→ltb, ltb→lt, if◌then◌else◌, arith,
}
use gin_bear.Web.Plugin.Barrier.{
  Barrier, new_barrier, begin, end, Closing, closed_before, commits, waits_for_transition,
  waits_for_change, drain, start_close, give_up,
}

-- The barrier, the registrations that run, the call that drains them with the channel that it waits
-- on, and whether a close has made its commit.
pub record World : Type 0 where
  pub barrier : Barrier
  pub running : ℕ
  pub waiting : Option ℕ
  pub committed : Bool

abbrev pub first_world : World
first_world = record { barrier = new_barrier; running = 0; waiting = none; committed = false }

abbrev closing_of : Closing → Option ℕ → Option ℕ
closing_of (waits_for_change n) before = some n
closing_of commits before = none
closing_of _ before = before

abbrev committed_of : Closing → Bool → Bool
committed_of commits before = true
committed_of _ before = before

-- A close that has moved on.
abbrev pub moved_on : World → Barrier × Closing → World
moved_on w (b, c) = record w {
  barrier = b;
  waiting = closing_of c w.waiting;
  committed = committed_of c w.committed;
}

-- One step of any caller.
pub data Moves : World → World → Type 0 where
  begins :
      {w : World}
      → (begin w.barrier).1 ≡ true
      → Moves w (record w { barrier = (begin w.barrier).0; running = w.running + 1 })
  is_refused :
      {w : World}
      → (begin w.barrier).1 ≡ false
      → Moves w (record w { barrier = (begin w.barrier).0 })
  ends :
      {w : World}
      → 0 < w.running
      → Moves w (record w { barrier = end w.barrier; running = w.running - 1 })
  closes : {w : World} → Moves w (moved_on w (start_close w.barrier))
  wakes :
      {w : World} (n : ℕ)
      → w.waiting ≡ some n
      → n < w.barrier.changed
      → Moves w (moved_on w (drain w.barrier))
  gives_up :
      {w : World} (n : ℕ)
      → w.waiting ≡ some n
      → Moves w (record w { barrier = give_up w.barrier; waiting = none })

pub data Reaches : World → Type 0 where
  at_first : Reaches first_world
  after : {w w' : World} → Reaches w → Moves w w' → Reaches w'

-- What a draining call needs: it holds the barrier blocked, and its channel is the current one only while
-- a registration runs.
abbrev Draining : World → Option ℕ → Type 0
Draining w none = w.barrier.transition ≡ false
Draining w (some n) =
    (w.barrier.transition ≡ true)
    × ((w.barrier.blocked ≡ true)
        × ((n ≤ w.barrier.changed) × (n ≡ w.barrier.changed → 0 < w.running)))

pub record Kept (w : World) : Type 0 where
  pub counts : w.barrier.registrations ≡ w.running
  pub draining : Draining w w.waiting
  pub closed :
      w.committed ≡ true → (w.running ≡ 0) × ((w.barrier.blocked ≡ true) × (w.waiting ≡ none))

abbrev begun : Barrier → Bool → Barrier × Bool
begun b blocked =
    if blocked then (b, false) else (record b { registrations = b.registrations + 1 }, true)

begins-Kept :
    (w : World)
    → (begin w.barrier).1 ≡ true
    → Kept w
    → Kept (record w { barrier = (begin w.barrier).0; running = w.running + 1 })
unfolding begin
begins-Kept w h k = go w.barrier.blocked refl h
  where
    kept :
        (o : Option ℕ)
        → Draining w o
        → w.barrier.blocked ≡ false
        → Draining
            (record w {
              barrier = record w.barrier { registrations = w.barrier.registrations + 1 };
              running = w.running + 1;
            })
            o
    kept none d is_open = d
    kept (some n) (t, (blocked, rest)) is_open = absurd (cc)

    go :
        (b : Bool)
        → w.barrier.blocked ≡ b
        → (begun w.barrier b).1 ≡ true
        → Kept (record w { barrier = (begun w.barrier b).0; running = w.running + 1 })
    go true blocked h' = absurd (cc)
    go false is_open h' =
        let counts = k.counts in
        record {
          counts = omega (arith, counts);
          draining = kept _ k.draining is_open;
          closed = λ c. let (none_left, (blocked, none_waits)) = k.closed c in absurd (cc);
        }

refused-Kept :
    (w : World)
    → (begin w.barrier).1 ≡ false
    → Kept w
    → Kept (record w { barrier = (begin w.barrier).0 })
unfolding begin
refused-Kept w h k = go w.barrier.blocked h
  where
    go :
        (b : Bool)
        → (begun w.barrier b).1 ≡ false
        → Kept (record w { barrier = (begun w.barrier b).0 })
    go true h' = k
    go false h' = absurd (cc)

ends-Kept :
    (w : World)
    → 0 < w.running
    → Kept w
    → Kept (record w { barrier = end w.barrier; running = w.running - 1 })
unfolding end
ends-Kept w h k =
    let counts = k.counts in
    rw (lt→ltb 0 w.barrier.registrations (omega (arith, counts, h))) (record {
      counts = omega (arith, counts, h);
      draining = kept _ k.draining;
      closed = λ c. let (none_left, rest) = k.closed c in absurd (omega (arith, none_left, h));
    })
  where
    kept :
        (o : Option ℕ)
        → Draining w o
        → Draining
            (record w {
              barrier = record w.barrier {
                registrations = w.barrier.registrations - 1;
                changed = w.barrier.changed + 1;
              };
              running = w.running - 1;
            })
            o
    kept none d = d
    kept (some n) (t, (blocked, (older, wakes_))) =
        (t, (blocked, (omega (arith, older), λ same. absurd (omega (arith, older, same)))))

-- With the barrier held by this call, the loop commits or waits on the current channel.
drain-Kept :
    (w : World)
    → w.barrier.registrations ≡ w.running
    → w.barrier.blocked ≡ true
    → w.barrier.transition ≡ true
    → w.committed ≡ false
    → Kept (moved_on w (drain w.barrier))
unfolding drain
drain-Kept w counts blocked transition fresh = go _ refl
  where
    go :
        (b : Bool)
        → ltb 0 w.barrier.registrations ≡ b
        → Kept (
            moved_on w (
              if b
              then (w.barrier, waits_for_change w.barrier.changed)
              else (record w.barrier { transition = false }, commits)))
    go true some_run =
        let running = ltb→lt 0 w.barrier.registrations some_run in
        record {
          counts = counts;
          draining = (transition, (blocked, (omega arith, λ same. omega (arith, counts, running))));
          closed = λ c. absurd (cc);
        }
    go false none_runs = record {
      counts = counts;
      draining = refl;
      closed = λ c. (ground (arith, counts, none_runs), (blocked, refl));
    }

closes-Kept : (w : World) → Kept w → Kept (moved_on w (start_close w.barrier))
unfolding start_close
closes-Kept w k = go _ refl
  where
    transition_kept :
        (b : Bool)
        → Kept (
            moved_on w
              (if b then (w.barrier, waits_for_transition) else (w.barrier, closed_before)))
    transition_kept true = k
    transition_kept false = k

    not_yet : w.barrier.blocked ≡ false → w.committed ≡ false
    not_yet is_open = elim (Bool-cases w.committed) [
      | inl is_committed ↦
          absurd (let (none_left, (blocked, none_waits)) = k.closed is_committed in cc)
      | inr other ↦ other
    ]

    go :
        (b : Bool)
        → w.barrier.blocked ≡ b
        → Kept (
            moved_on w (
              if b
              then (if w.barrier.transition
                  then (w.barrier, waits_for_transition)
                  else (w.barrier, closed_before))
              else drain (record w.barrier { blocked = true; transition = true })))
    go true blocked = transition_kept w.barrier.transition
    go false is_open =
        drain-Kept (record w { barrier = record w.barrier { blocked = true; transition = true } })
          k.counts refl refl (not_yet is_open)

waiting_fresh : (w : World) (n : ℕ) → Kept w → w.waiting ≡ some n → w.committed ≡ false
waiting_fresh w n k waits = elim (Bool-cases w.committed) [
  | inl is_committed ↦ absurd (let (none_left, (blocked, none_waits)) = k.closed is_committed in cc)
  | inr other ↦ other
]

wakes-Kept : (w : World) (n : ℕ) → Kept w → w.waiting ≡ some n → Kept (moved_on w (drain w.barrier))
wakes-Kept w n k waits =
    let (transition, (blocked, rest)) = subst (λ o. Draining w o) waits k.draining in
    drain-Kept w k.counts blocked transition (waiting_fresh w n k waits)

gives_up-Kept :
    (w : World) (n : ℕ)
    → Kept w
    → w.waiting ≡ some n
    → Kept (record w { barrier = give_up w.barrier; waiting = none })
unfolding give_up
gives_up-Kept w n k waits =
    let fresh = waiting_fresh w n k waits in
    record { counts = k.counts; draining = refl; closed = λ c. absurd (cc) }

-- Over every interleaving of registrations and closes the barrier counts the registrations that run. A
-- call that waits for them holds the barrier blocked, and the channel that it waits on is closed once
-- none runs any more, so that it wakes. After a close has made its commit no registration runs, and the
-- barrier stays blocked, so that none begins.
pub Reaches-Kept : {w : World} → Reaches w → Kept w
Reaches-Kept at_first = record { counts = refl; draining = refl; closed = λ c. absurd (cc) }
Reaches-Kept (after r (begins {w} h)) = begins-Kept w h (Reaches-Kept r)
Reaches-Kept (after r (is_refused {w} h)) = refused-Kept w h (Reaches-Kept r)
Reaches-Kept (after r (ends {w} h)) = ends-Kept w h (Reaches-Kept r)
Reaches-Kept (after r (closes {w})) = closes-Kept w (Reaches-Kept r)
Reaches-Kept (after r (wakes {w} n waits woken)) = wakes-Kept w n (Reaches-Kept r) waits
Reaches-Kept (after r (gives_up {w} n waits)) = gives_up-Kept w n (Reaches-Kept r) waits
