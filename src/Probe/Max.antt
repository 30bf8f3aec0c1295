-- ===== src/Probe/Max.antt =====
-- mac/Probe/main.c: callbacks that run at once leave the greatest number of touches in `g_max_touches`.
use touchpad.Base.{
  ℕ, zero, suc, ◌≤◌, ◌≡◌, ◌∙◌, ap, sym, refl, subst, ◌⊎◌, inl, inr, Bool, not, ◌&&◌, ltb, ◌==◌,
  arith, List, [], ◌∷◌, All, Bool-cases,
}
use touchpad.Probe.Counters.{
  Updater, called, comparing, returned, advance, Maximum, advance_at, run_updates,
}

abbrev pub candidate_of : Updater → ℕ
candidate_of (called c) = c
candidate_of (comparing c current) = c
candidate_of (returned c) = c

abbrev pub candidates : List Updater → List ℕ
candidates [] = []
candidates (u ∷ us) = candidate_of u ∷ candidates us

abbrev pub Among : ℕ → List ℕ → Type 0
Among v [] = ⊥
Among v (c ∷ cs) = (v ≡ c) ⊎ Among v cs

-- A call has loaded a value that was there before, and behind its end the shared value is not below its own.
abbrev pub IsSound : ℕ → Updater → Type 0
IsSound value (called c) = Unit
IsSound value (comparing c current) = current ≤ value
IsSound value (returned c) = c ≤ value

IsSound-le : (u : Updater) (v w : ℕ) → v ≤ w → IsSound v u → IsSound w u
IsSound-le (called c) v w le h = tt
IsSound-le (comparing c current) v w le h = omega (arith, h)
IsSound-le (returned c) v w le h = omega (arith, h)

All-IsSound-le : (us : List Updater) (v w : ℕ) → v ≤ w → All (IsSound v) us → All (IsSound w) us
All-IsSound-le [] v w le h = tt
All-IsSound-le (u ∷ us) v w le h = (IsSound-le u v w le h.0, All-IsSound-le us v w le h.1)

-- A step of one call.
record Stepped (value : ℕ) (u : Updater) (r : Updater × ℕ) : Type 0 where
  le : value ≤ r.1
  sound : IsSound r.1 r.0
  candidate : candidate_of r.0 ≡ candidate_of u
  from : (r.1 ≡ value) ⊎ (r.1 ≡ candidate_of u)

advance-Stepped :
    (spurious : Bool) (u : Updater) (value : ℕ)
    → IsSound value u
    → Stepped value u (advance spurious u value)
unfolding advance
advance-Stepped spurious (called c) value h = record {
  le = omega arith;
  sound = omega arith;
  candidate = refl;
  from = inl refl;
}
advance-Stepped spurious (returned c) value h = record {
  le = omega arith;
  sound = h;
  candidate = refl;
  from = inl refl;
}
advance-Stepped spurious (comparing c current) value h = elim (Bool-cases (not (ltb current c))) [
  | inl done ↦ rw done (record {
    le = omega arith;
    sound = ground (arith, done, h);
    candidate = refl;
    from = inl refl;
  })
  | inr below ↦ elim (Bool-cases (not spurious && value == current)) [
    | inl swapped ↦
        rw (below, swapped)
          (record {
            le = ground (arith, below, swapped);
            sound = omega arith;
            candidate = refl;
            from = inr refl;
          })
    | inr failed ↦
        rw (below, failed)
          (record { le = omega arith; sound = omega arith; candidate = refl; from = inl refl })
  ]
]

-- And of the call at an index, among the others.
record Moved (value : ℕ) (us : List Updater) (r : List Updater × ℕ) : Type 0 where
  le : value ≤ r.1
  sound : All (IsSound r.1) r.0
  same : candidates r.0 ≡ candidates us
  from : (r.1 ≡ value) ⊎ Among r.1 (candidates us)

advance_at-Moved :
    (spurious : Bool) (i : ℕ) (us : List Updater) (value : ℕ)
    → All (IsSound value) us
    → Moved value us (advance_at spurious i us value)
unfolding advance_at
advance_at-Moved spurious i [] value h = record {
  le = omega arith;
  sound = tt;
  same = refl;
  from = inl refl;
}
advance_at-Moved spurious zero (u ∷ us) value h =
    let s = advance-Stepped spurious u value h.0 in
    record {
      le = s.le;
      sound = (s.sound, All-IsSound-le us value _ s.le h.1);
      same = ap (λ (c : ℕ). c ∷ candidates us) s.candidate;
      from = elim s.from [ inl e ↦ inl e | inr e ↦ inr (inl e) ];
    }
advance_at-Moved spurious (suc i) (u ∷ us) value h =
    let m = advance_at-Moved spurious i us value h.1 in
    record {
      le = m.le;
      sound = (IsSound-le u value _ m.le h.0, m.sound);
      same = ap (λ (cs : List ℕ). candidate_of u ∷ cs) m.same;
      from = elim m.from [ inl e ↦ inl e | inr e ↦ inr (inr e) ];
    }

-- The shared value is the old one or one of the numbers, it is at least the old one, and it is at least the
-- number of every call that has returned.
pub record IsMaximum (before after : Maximum) : Type 0 where
  pub le : before.value ≤ after.value
  pub returned : All (IsSound after.value) after.updaters
  pub same : candidates after.updaters ≡ candidates before.updaters
  pub from : (after.value ≡ before.value) ⊎ Among after.value (candidates before.updaters)

-- However any number of calls of `update_max_touches` interleave, and whichever of their weak exchanges fail for
-- no reason: the shared maximum never falls, it is the value before them or the number of one of them, and it
-- is at least the number of every call that has returned, so that none is lost. What a call that has loaded
-- the value holds is not above it, which is so of calls that have not begun.
pub run_updates-IsMaximum :
    (schedule : List (ℕ × Bool)) (m : Maximum)
    → All (IsSound m.value) m.updaters
    → IsMaximum m (run_updates schedule m)
unfolding run_updates
run_updates-IsMaximum [] m h = record {
  le = omega arith;
  returned = h;
  same = refl;
  from = inl refl;
}
run_updates-IsMaximum ((i, spurious) ∷ schedule) m h =
    let s = advance_at-Moved spurious i m.updaters m.value h in
    let next : Maximum = record {
      value = (advance_at spurious i m.updaters m.value).1;
      updaters = (advance_at spurious i m.updaters m.value).0;
    } in
    let r = run_updates-IsMaximum schedule next s.sound in
    record {
      le = omega (arith, s.le, r.le);
      returned = r.returned;
      same = r.same ∙ s.same;
      from = elim r.from [
        | inr among ↦ inr (subst (Among (run_updates schedule next).value) s.same among)
        | inl kept ↦ elim s.from [
          | inl e ↦ inl (kept ∙ e)
          | inr among ↦ inr (subst (λ (v : ℕ). Among v (candidates m.updaters)) (sym kept) among)
        ]
      ];
    }
