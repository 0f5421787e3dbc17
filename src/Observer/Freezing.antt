-- ===== src/Observer/Freezing.antt =====
-- What the hook reports, and what freezes it.
use bezel_custom.Prelude.{
  ℕ, ◌≡◌, refl, Bool, true, false, not, Option, none, some, List, [], ◌∷◌, ◌&&◌, Bool-cases, inl,
  inr, ap, sym, subst, ◌∙◌,
}
use bezel_custom.Observer.{
  Entry, Options, Hook, begin, in_view, frozen, observes, set_entries, reset, Event, sets_ref,
  notifies, step, run, is_at,
}

module _ (options : Options) where
  -- The hook reports what its last entry tells, or the initial value if it has none.
  abbrev pub IsCurrent : Hook → Type 0
  IsCurrent h =
      h.is_intersecting ≡ elim h.entry [ none ↦ options.initial | some e ↦ in_view options e ]

  set_entries-IsCurrent :
      (es : List Entry) (h : Hook) → IsCurrent h → IsCurrent (set_entries options es h)
  unfolding set_entries
  set_entries-IsCurrent [] h c = c
  set_entries-IsCurrent (e ∷ es) h c =
      set_entries-IsCurrent es
        (record h {
          is_intersecting = in_view options e;
          entry = some e;
          calls = (in_view options e, e) ∷ h.calls;
        })
        refl

  reset-IsCurrent :
      (x : Option ℕ) (entry : Option Entry) (h : Hook)
      → IsCurrent h
      → IsCurrent (reset options x entry h)
  unfolding reset
  reset-IsCurrent (some x) entry h c = c
  reset-IsCurrent none none h c = c
  reset-IsCurrent none (some e) h c =
      elim (Bool-cases (
        not options.freeze
        && not (e.is_intersecting && options.freeze)
        && not (is_at h.prev e.element))) [
          | inl again ↦ rw (reset, frozen, again) refl
          | inr kept ↦ rw (reset, frozen, kept) c
        ]

  step-IsCurrent : (e : Event) (h : Hook) → IsCurrent h → IsCurrent (step options e h)
  unfolding step
  step-IsCurrent (sets_ref x) h c = reset-IsCurrent x h.entry (record h { element = x }) c
  step-IsCurrent (notifies es) h c = elim (Bool-cases (observes options h.element h.entry)) [
    | inl seen ↦
        rw (step, seen)
          (reset-IsCurrent (set_entries options es h).element (set_entries options es h).entry
            (set_entries options es h) (set_entries-IsCurrent es h c))
    | inr unseen ↦ rw (step, unseen) c
  ]

  run_from-IsCurrent : (es : List Event) (h : Hook) → IsCurrent h → IsCurrent (run options es h)
  unfolding run
  run_from-IsCurrent [] h c = c
  run_from-IsCurrent (e ∷ es) h c = run_from-IsCurrent es (step options e h) (step-IsCurrent e h c)

  -- Whatever elements are set and whatever entries arrive, the hook reports what its last entry
  -- tells, that it intersects and meets a threshold, or the initial value if it has none.
  pub run-IsCurrent : (es : List Event) → IsCurrent (run options es (begin options))
  unfolding begin
  run-IsCurrent es = run_from-IsCurrent es (begin options) refl

  -- What the page reads of a hook, and its calls.
  abbrev pub shows : Hook → Bool × Option Entry × List (Bool × Entry)
  shows h = (h.is_intersecting, h.entry, h.calls)

  reset-freezing :
      (x : Option ℕ) (entry : Option Entry) (h : Hook)
      → options.freeze ≡ true
      → reset options x entry h ≡ h
  unfolding reset
  reset-freezing (some x) entry h f = refl
  reset-freezing none none h f = refl
  reset-freezing none (some e) h f = rw (reset, f) refl

  observes-frozen :
      (x : Option ℕ) (entry : Option Entry)
      → frozen options entry ≡ true
      → observes options x entry ≡ false
  unfolding observes
  observes-frozen none entry e = refl
  observes-frozen (some x) entry e = rw e refl

  observes-open :
      (x : ℕ) (entry : Option Entry)
      → frozen options entry ≡ false
      → observes options (some x) entry ≡ true
  unfolding observes
  observes-open x entry e = rw e refl

  frozen-hit :
      (e : Entry)
      → options.freeze ≡ true
      → e.is_intersecting ≡ true
      → frozen options (some e) ≡ true
  unfolding frozen
  frozen-hit e f hit = rw (f, hit) refl

  step-frozen :
      (e : Event) (h : Hook)
      → options.freeze ≡ true
      → frozen options h.entry ≡ true
      → shows (step options e h) ≡ shows h
  unfolding step
  step-frozen (sets_ref x) h f e = ap shows (reset-freezing x h.entry (record h { element = x }) f)
  step-frozen (notifies es) h f e = rw (step, observes-frozen h.element h.entry e) refl

  run-frozen :
      (es : List Event) (h : Hook)
      → options.freeze ≡ true
      → frozen options h.entry ≡ true
      → shows (run options es h) ≡ shows h
  unfolding run
  run-frozen [] h f e = refl
  run-frozen (x ∷ es) h f e =
      let same = step-frozen x h f e in
      run-frozen es (step options x h) f
        (subst (λ o. frozen options o ≡ true) (sym (ap (λ s. s.1) same)) e)
      ∙ same

  -- With freezing, one entry that intersects, at a hook with an element that is not frozen yet,
  -- settles what is reported: nothing that follows changes the value, the entry or the calls, also
  -- if the entry meets no threshold.
  pub freezes_at :
      (es : List Event) (x : ℕ) (e : Entry) (h : Hook)
      → options.freeze ≡ true
      → e.is_intersecting ≡ true
      → h.element ≡ some x
      → frozen options h.entry ≡ false
      → shows (run options es (step options (notifies (e ∷ [])) h))
        ≡ (in_view options e, some e, (in_view options e, e) ∷ h.calls)
  unfolding step set_entries
  freezes_at es x e h f hit at open_yet =
      let seen : Hook = set_entries options (e ∷ []) h in
      let watching : observes options h.element h.entry ≡ true =
        rw at (observes-open x h.entry open_yet) in
      let after : step options (notifies (e ∷ [])) h ≡ seen =
        rw (step, watching) (reset-freezing h.element (some e) seen f) in
      rw after (run-frozen es seen f (frozen-hit e f hit))
