-- ===== src/AddSystem/Tokens.antt =====
-- The tokens of the systems that internal/site/src/components/add-system.tsx adds: each system has its
-- own as long as the dialog opens only when no submission is under way.
use bezel_custom.Prelude.{
  ℕ, zero, suc, ◌<◌, ◌≡◌, ◌≢◌, refl, sym, ◌∙◌, String, Bool, true, false, Option, none, some, List,
  [], ◌∷◌, arith, str_eq, eq_iff, Bool-cases, inl, inr, subst,
}
use bezel_custom.AddSystem.{
  State, Event, Stage, Draft, Answer, Outcome, opens, closes, submits, answers, creating,
  registering, accepted, refused, goes_on, fails, succeeds, resolve, settle, answered, pick,
  refresh_token, submit, handle, handle_all,
}

abbrev token_of : Stage → String
token_of (creating d token) = token
token_of (registering id d token) = token

-- Whatever the answer, a submission goes on with its token, fails, or stores it.
abbrev IsKept : String → Outcome → Type 0
IsKept token (goes_on stage) = token_of stage ≡ token
IsKept token fails = Unit
IsKept token (succeeds id d t) = t ≡ token

resolve-IsKept : (stage : Stage) (a : Answer) → IsKept (token_of stage) (resolve stage a)
unfolding resolve
resolve-IsKept (creating d token) (accepted id) = refl
resolve-IsKept (registering id d token) (accepted record_id) = refl
resolve-IsKept (creating d token) refused = tt
resolve-IsKept (registering id d token) refused = tt

-- The dialog is closed while a submission is under way.
is_shut : (stage : Stage) (shown : Bool) → (shown ≡ true → stage ∷ [] ≡ []) → shown ≡ false
is_shut stage true shut = let never = shut refl in cc
is_shut stage false shut = refl

-- No stored token stands twice.
abbrev pub IsFreshIn : String → List (String × String) → Type 0
IsFreshIn token [] = Unit
IsFreshIn token (f ∷ fs) = (token ≢ f.1) × IsFreshIn token fs

abbrev pub AreDistinct : List (String × String) → Type 0
AreDistinct [] = Unit
AreDistinct (f ∷ fs) = IsFreshIn f.1 fs × AreDistinct fs

module _ (generate : ℕ → String) where
  -- The tokens were generated one before the other, all before the k-th.
  abbrev IsBelow : ℕ → List (String × String) → Type 0
  IsBelow k [] = Unit
  IsBelow k (f ∷ fs) = (j : ℕ) × ((j < k) × ((f.1 ≡ generate j) × IsBelow j fs))

  abbrev AtMostOne : String → List Stage → Type 0
  AtMostOne token [] = Unit
  AtMostOne token (stage ∷ []) = token_of stage ≡ token
  AtMostOne token (stage ∷ other ∷ others) = ⊥

  -- The token of the next system is the k-th, no stored token is, and at most one submission is under
  -- way, with this token and a closed dialog.
  abbrev IsTracked :
      ℕ → Option String → Bool → String → List Stage → List (String × String) → Type 0
  IsTracked made none shown token waiting prints =
      IsBelow made prints × ((waiting ≡ []) × (shown ≡ false))
  IsTracked made (some t) shown token waiting prints =
      (k : ℕ) × ((k < made)
        × ((t ≡ generate k)
            × (IsBelow k prints
                × ((token ≡ t) × (AtMostOne t waiting × (shown ≡ true → waiting ≡ []))))))

  abbrev IsSound : State → Type 0
  IsSound s = IsTracked s.generated s.next_token s.is_open s.token s.waiting s.fingerprints

  -- The dialog opens only when no submission is under way.
  abbrev pub OpensIdle : List Event → State → Type 0
  OpensIdle [] s = Unit
  OpensIdle (opens ∷ es) s = (s.waiting ≡ []) × OpensIdle es (handle generate opens s)
  OpensIdle (closes ∷ es) s = OpensIdle es (handle generate closes s)
  OpensIdle (submits d ∷ es) s = OpensIdle es (handle generate (submits d) s)
  OpensIdle (answers n a ∷ es) s = OpensIdle es (handle generate (answers n a) s)

  opened-IsSound :
      (s : State) (next : Option String)
      → ((k : ℕ) → generate k ≢ "")
      → s.next_token ≡ next
      → s.waiting ≡ []
      → IsTracked s.generated next s.is_open s.token s.waiting s.fingerprints
      → IsSound (handle generate opens s)
  unfolding handle refresh_token
  opened-IsSound s none full e idle (below, (empty, shut)) =
      rw e (s.generated, (omega arith, (refl, (below, (refl, (rw idle tt, λ now. idle))))))
  opened-IsSound s (some t) full e idle (k, (made, (same, (below, (shown, (one, shut)))))) =
      elim (Bool-cases (str_eq t "")) [
        | inl missing ↦ absurd (full k (sym same ∙ (eq_iff t "").0 missing))
        | inr there ↦ rw (e, there) (k, (made, (same, (below, (refl, (one, λ now. idle))))))
      ]

  closed-IsSound :
      (s : State) (next : Option String)
      → s.next_token ≡ next
      → IsTracked s.generated next s.is_open s.token s.waiting s.fingerprints
      → IsSound (handle generate closes s)
  unfolding handle
  closed-IsSound s none e (below, (empty, shut)) = rw e (below, (empty, refl))
  closed-IsSound s (some t) e (k, (made, (same, (below, (shown, (one, shut)))))) =
      rw e (k, (made, (same, (below, (shown, (one, λ never. cc))))))

  submitted-IsSound :
      (s : State) (d : Draft) (next : Option String)
      → s.next_token ≡ next
      → IsTracked s.generated next s.is_open s.token s.waiting s.fingerprints
      → IsSound (handle generate (submits d) s)
  unfolding handle submit
  submitted-IsSound s d none e (below, (empty, shut)) = rw (shut, e) (below, (empty, refl))
  submitted-IsSound s d (some t) e (k, (made, (same, (below, (shown, (one, shut)))))) =
      elim (Bool-cases s.is_open) [
        | inl now ↦
            rw (now, e) (k, (made, (same, (below, (shown, (rw (shut now) shown, λ never. cc))))))
        | inr closed ↦ rw (closed, e) (k, (made, (same, (below, (shown, (one, λ never. cc))))))
      ]

  settled-IsSound :
      (s : State) (t : String) (outcome : Outcome)
      → s.next_token ≡ some t
      → IsTracked s.generated (some t) s.is_open s.token [] s.fingerprints
      → s.is_open ≡ false
      → IsKept t outcome
      → IsSound (settle outcome [] s)
  unfolding settle
  settled-IsSound s t (goes_on stage) e (k, (made, (same, (below, (shown, (one, shut)))))) closed
        h =
      rw (e, closed) (k, (made, (same, (below, (shown, (h, λ now. cc))))))
  settled-IsSound s t fails e tracked closed h = rw e tracked
  settled-IsSound s t (succeeds id d token) e (k, (made, (same, (below, (shown, (one, shut))))))
        closed h =
      rw closed ((k, (made, (h ∙ same, below))), (refl, refl))

  answered-IsSound :
      (s : State) (n : ℕ) (a : Answer) (next : Option String) (waiting : List Stage)
      → s.next_token ≡ next
      → s.waiting ≡ waiting
      → IsTracked s.generated next s.is_open s.token waiting s.fingerprints
      → IsSound (answered (pick n waiting) a s)
  unfolding answered pick
  answered-IsSound s n a none waiting e w (below, (empty, shut)) =
      rw (empty, e, w, empty) (below, (refl, shut))
  answered-IsSound s n a (some t) [] e w tracked = rw (e, w) tracked
  answered-IsSound s zero a (some t) (stage ∷ []) e w
        (k, (made, (same, (below, (shown, (one, shut)))))) =
      settled-IsSound s t (resolve stage a) e
        (k, (made, (same, (below, (shown, (tt, λ now. refl)))))) (is_shut stage s.is_open shut)
        (subst (λ x. IsKept x (resolve stage a)) one (resolve-IsKept stage a))
  answered-IsSound s (suc n) a (some t) (stage ∷ []) e w tracked = rw (e, w) tracked
  answered-IsSound s n a (some t) (stage ∷ other ∷ others) e w
        (k, (made, (same, (below, (shown, (one, shut)))))) =
      absurd one

  handle_all-IsSound :
      (es : List Event) (s : State)
      → ((k : ℕ) → generate k ≢ "")
      → OpensIdle es s
      → IsSound s
      → IsSound (handle_all generate es s)
  unfolding handle_all handle submit
  handle_all-IsSound [] s full idle sound = sound
  handle_all-IsSound (opens ∷ es) s full idle sound =
      handle_all-IsSound es (handle generate opens s) full idle.1
        (opened-IsSound s s.next_token full refl idle.0 sound)
  handle_all-IsSound (closes ∷ es) s full idle sound =
      handle_all-IsSound es (handle generate closes s) full idle
        (closed-IsSound s s.next_token refl sound)
  handle_all-IsSound (submits d ∷ es) s full idle sound =
      handle_all-IsSound es (handle generate (submits d) s) full idle
        (submitted-IsSound s d s.next_token refl sound)
  handle_all-IsSound (answers n a ∷ es) s full idle sound =
      handle_all-IsSound es (handle generate (answers n a) s) full idle
        (answered-IsSound s n a s.next_token s.waiting refl refl sound)

  below-IsFreshIn :
      (k n : ℕ) (prints : List (String × String))
      → ((i j : ℕ) → generate i ≡ generate j → i ≡ j)
      → ¬ (n < k)
      → IsBelow k prints
      → IsFreshIn (generate n) prints
  below-IsFreshIn k n [] inj later below = tt
  below-IsFreshIn k n (f ∷ fs) inj later (j, (less, (same, below))) = (
    λ equal. later (subst (λ i. i < k) (sym (inj n j (equal ∙ same))) less),
    below-IsFreshIn j n fs inj (λ before. later (omega arith)) below,
  )

  below-AreDistinct :
      (k : ℕ) (prints : List (String × String))
      → ((i j : ℕ) → generate i ≡ generate j → i ≡ j)
      → IsBelow k prints
      → AreDistinct prints
  below-AreDistinct k [] inj below = tt
  below-AreDistinct k (f ∷ fs) inj (j, (less, (same, below))) =
      (rw same (below-IsFreshIn j j fs inj (omega arith) below), below-AreDistinct j fs inj below)

  sound-AreDistinct :
      (s : State) (next : Option String)
      → ((i j : ℕ) → generate i ≡ generate j → i ≡ j)
      → s.next_token ≡ next
      → IsTracked s.generated next s.is_open s.token s.waiting s.fingerprints
      → AreDistinct s.fingerprints
  sound-AreDistinct s none inj e (below, more) =
      below-AreDistinct s.generated s.fingerprints inj below
  sound-AreDistinct s (some t) inj e (k, (made, (same, (below, more)))) =
      below-AreDistinct k s.fingerprints inj below

  -- If the browser generates each token once and never an empty one, the dialog is closed with no
  -- token and no submission at first, no fingerprint is stored, and the dialog opens only when no
  -- submission is under way, then no two fingerprints that are stored have the same token.
  pub handle_all-AreDistinct :
      (es : List Event) (s : State)
      → ((k : ℕ) → generate k ≢ "")
      → ((i j : ℕ) → generate i ≡ generate j → i ≡ j)
      → s.next_token ≡ none
      → s.is_open ≡ false
      → s.waiting ≡ []
      → s.fingerprints ≡ []
      → OpensIdle es s
      → AreDistinct (handle_all generate es s).fingerprints
  handle_all-AreDistinct es s full inj unset closed idle blank opened =
      sound-AreDistinct (handle_all generate es s) (handle_all generate es s).next_token inj refl
        (handle_all-IsSound es s full opened (rw (unset, blank) (tt, (idle, closed))))
