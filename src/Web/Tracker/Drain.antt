-- ===== src/Web/Tracker/Drain.antt =====
-- The histories of pkg/bear/handler_tracker.go: handlers that begin and end, and the shutdown.
use gin_bear.Base.{
  ℕ, ◌+◌, ◌-◌, ◌<◌, ◌≡◌, refl, sym, ap, subst, ◌∙◌, Bool, true, false, Bool-cases, inl, inr, Option,
  some, ◌∷◌, any, eqb, eqb_iff, if◌then◌else◌, arith,
}
use gin_bear.Web.Tracker.{Tracker, new_tracker, is_done, begin, close_idle, end, stop_accepting}

-- The trackers that a server reaches, with the number of its handlers that run. A handler that may
-- run ends once.
pub data Reaches : Tracker → ℕ → Type 0 where
  fresh : Reaches new_tracker 0
  begins :
      {t t' : Tracker} {running : ℕ}
      → Reaches t running
      → begin t ≡ (t', true)
      → Reaches t' (running + 1)
  ends :
      {t t' : Tracker} {running : ℕ}
      → Reaches t (running + 1)
      → end t ≡ some t'
      → Reaches t' running
  stops : {t : Tracker} {running : ℕ} → Reaches t running → Reaches (stop_accepting t) running

-- All channels before the current one are closed, none after it is, and the current one is closed
-- when no handler runs.
pub record Fits (t : Tracker) (running : ℕ) : Type 0 where
  pub counted : t.active ≡ running
  pub current : is_done t.idle t.done ≡ eqb t.active 0
  pub later : (n : ℕ) → t.idle < n → is_done n t.done ≡ false
  pub earlier : (n : ℕ) → n < t.idle → is_done n t.done ≡ true

next_not_zero : (n : ℕ) → eqb (n + 1) 0 ≡ false
next_not_zero n = ground arith

-- A handler begins on a fresh channel if it is the only one, and on the current one otherwise.
begun-Fits :
    (t : Tracker) (running : ℕ) (first : Bool)
    → eqb t.active 0 ≡ first
    → Fits t running
    → Fits
        (record t { active = t.active + 1; idle = if first then t.idle + 1 else t.idle })
        (running + 1)
begun-Fits t running true e f = record {
  counted = omega (arith, f.counted);
  current = f.later (t.idle + 1) (omega arith) ∙ sym (next_not_zero t.active);
  later = λ n h. f.later n (omega arith);
  earlier = λ n h. elim (Bool-cases (eqb n t.idle)) [
    | inl same ↦ rw ((eqb_iff n t.idle).0 same) (f.current ∙ e)
    | inr other ↦ f.earlier n (ground arith)
  ];
}
begun-Fits t running false e f = record {
  counted = omega (arith, f.counted);
  current = f.current ∙ e ∙ sym (next_not_zero t.active);
  later = f.later;
  earlier = f.earlier;
}

begin-Fits :
    (t : Tracker) (running : ℕ) {t' : Tracker}
    → Fits t running
    → begin t ≡ (t', true)
    → Fits t' (running + 1)
unfolding begin
begin-Fits t running {t'} f h = go t.closed h
  where
    begun : Tracker
    begun = record t { active = t.active + 1; idle = if eqb t.active 0 then t.idle + 1 else t.idle }

    go :
        (b : Bool)
        → ◌≡◌ {A = Tracker × Bool} (if b then (t, false) else (begun, true)) (t', true)
        → Fits t' (running + 1)
    go true h = absurd (cc)
    go false h = subst (λ x. Fits x (running + 1)) (ap (λ p. p.0) h) (begun-Fits t running _ refl f)

other_than : (n m : ℕ) → (n ≡ m → ⊥) → eqb n m ≡ false
other_than n m h = ground arith

fresh-Fits : Fits new_tracker 0
unfolding is_done
fresh-Fits = record {
  counted = refl;
  current = refl;
  later = λ n h. rw (other_than n 0 (λ same. omega arith)) refl;
  earlier = λ n h. absurd (omega arith);
}

-- The last handler to end closes the current channel, which is open.
left-Fits :
    (t : Tracker) (running : ℕ) (last : Bool)
    → eqb (t.active - 1) 0 ≡ last
    → Fits t (running + 1)
    → (t' : Tracker) × (◌≡◌ {A = Option Tracker}
        (if last
          then close_idle (record t { active = t.active - 1 })
          else some (record t { active = t.active - 1 }))
        (some t'))
      × Fits t' running
unfolding close_idle is_done
left-Fits t running true e f =
    let still_open : any (eqb t.idle) t.done ≡ false = f.current ∙ ground (arith, f.counted) in
    (
      record t { active = t.active - 1; done = t.idle ∷ t.done },
      rw still_open refl,
      record {
        counted = omega (arith, f.counted);
        current = rw ((eqb_iff t.idle t.idle).1 refl) (sym e);
        later = λ n h. rw (other_than n t.idle (λ same. omega arith)) (f.later n h);
        earlier = λ n h. rw (other_than n t.idle (λ same. omega arith)) (f.earlier n h);
      },
    )
left-Fits t running false e f = (
  record t { active = t.active - 1 },
  refl,
  record {
    counted = omega (arith, f.counted);
    current = f.current ∙ ground (arith, f.counted, e);
    later = f.later;
    earlier = f.earlier;
  },
)

end-Fits :
    (t : Tracker) (running : ℕ)
    → Fits t (running + 1)
    → (t' : Tracker) × (end t ≡ some t') × Fits t' running
unfolding end
end-Fits t running f =
    let some_active : eqb t.active 0 ≡ false = ground (arith, f.counted) in
    rw some_active (left-Fits t running _ refl f)

stopped-Fits : (t : Tracker) (running : ℕ) → Fits t running → Fits (stop_accepting t) running
unfolding stop_accepting
stopped-Fits t running f = record {
  counted = f.counted;
  current = f.current;
  later = f.later;
  earlier = f.earlier;
}

Fits-of_Reaches : {t : Tracker} {running : ℕ} → Reaches t running → Fits t running
Fits-of_Reaches fresh = fresh-Fits
Fits-of_Reaches (begins {t} {running} reach e) = begin-Fits t running (Fits-of_Reaches reach) e
Fits-of_Reaches (ends {t} {t'} {running} reach e) =
    let (left, same, f) = end-Fits t running (Fits-of_Reaches reach) in
    subst (λ x. Fits x running) (cc) f
Fits-of_Reaches (stops {t} {running} reach) = stopped-Fits t running (Fits-of_Reaches reach)

-- While a handler runs, one can end: `end` does not panic, and leaves a tracker that fits.
abbrev pub CanEnd : Tracker → ℕ → Type 0
CanEnd t running =
    (left : ℕ) → running ≡ left + 1 → (t' : Tracker) × (end t ≡ some t') × Fits t' left

-- Whatever handlers begin and end, and whenever the server stops accepting, the tracker counts the
-- handlers that run, and its channels tell a shutdown when they have ended: the current channel is
-- closed exactly when none runs, and every earlier one is closed. While a handler runs, its `end`
-- never closes a closed channel, which would panic. Every handler that began ends at most once.
pub Reaches-Fits :
    {t : Tracker} {running : ℕ} → Reaches t running → Fits t running × CanEnd t running
Reaches-Fits {t} reach = (
  Fits-of_Reaches reach,
  λ left some_left. end-Fits t left (subst (Fits t) some_left (Fits-of_Reaches reach)),
)
