-- ===== src/Settings/Turns.antt =====
-- Both kinds of links are saved at once: saveQuickLinks and saveExternalLinks of
-- internal/site/src/lib/api.ts in turns, where each one waits for the answers to its two requests. All
-- requests succeed.
use bezel_custom.Prelude.{
  ◌≡◌, ◌⊎◌, inl, inr, refl, Bool, true, false, Option, none, some, List, [], ◌∷◌, ◌||◌, subst,
}
use bezel_custom.QuickLinks.{QuickLink}
use bezel_custom.Settings.{
  UserSettings, ExternalLink, World, fetch, save_quick_links, save_external_links,
  begin_quick_links, end_quick_links, begin_external_links, end_external_links, write_quick_links,
  write_external_links,
}

-- A save is not called yet, waits for the answer to its first request, has it, or is through.
pub data Progress : Type 0 where
  uncalled asking : Progress
  answered : Option UserSettings → Progress
  through : Progress

pub record Session : Type 0 where
  pub world : World
  pub quick : Progress
  pub external : Progress

pub data Turn : Type 0 where
  quick_turn external_turn : Turn

-- The world and the progress after a turn of a save; the server answers the first request with its
-- row, and the second request writes it.
abbrev pub quick_step : List QuickLink → Progress → World → World × Progress
quick_step a uncalled w = (begin_quick_links a w, asking)
quick_step a asking w = (w, answered (fetch true w))
quick_step a (answered o) w = (end_quick_links true a o w, through)
quick_step a through w = (w, through)

abbrev pub external_step : List ExternalLink → Progress → World → World × Progress
external_step b uncalled w = (begin_external_links b w, asking)
external_step b asking w = (w, answered (fetch true w))
external_step b (answered o) w = (end_external_links true b o w, through)
external_step b through w = (w, through)

module _ (a : List QuickLink) (b : List ExternalLink) where
  unfoldable pub take_turn : Turn → Session → Session
  take_turn quick_turn s = record s {
    world = (quick_step a s.quick s.world).0;
    quick = (quick_step a s.quick s.world).1;
  }
  take_turn external_turn s = record s {
    world = (external_step b s.external s.world).0;
    external = (external_step b s.external s.world).1;
  }

  unfoldable pub take_turns : List Turn → Session → Session
  unfolding take_turn
  take_turns [] s = s
  take_turns (t ∷ ts) s = take_turns ts (take_turn t s)

  abbrev pub uncalled_at : World → Session
  uncalled_at w = record { world = w; quick = uncalled; external = uncalled }

  -- All turns of one save before those of the other are the two saves in sequence.
  turns_in_sequence :
      (w : World)
      → (take_turns
          (quick_turn ∷ quick_turn ∷ quick_turn ∷ external_turn ∷ external_turn ∷ external_turn
            ∷ [])
          (uncalled_at w)).world
        ≡ save_external_links true true b (save_quick_links true true a w)
  unfolding take_turns take_turn save_quick_links save_external_links
  turns_in_sequence w = refl

  abbrev is_through : Progress → Bool
  is_through uncalled = false
  is_through asking = false
  is_through (answered o) = false
  is_through through = true

  -- Until one save is through, a row is the one that both fetch.
  abbrev IsRow : UserSettings → Bool → Option UserSettings → Type 0
  IsRow s ended row = (ended ≡ true) ⊎ (row ≡ some s)

  -- What a save has shown and fetched.
  abbrev Holds : {A : Type 0} → UserSettings → List A → Bool → Progress → List A → Type 0
  Holds s links ended uncalled shown = Unit
  Holds s links ended asking shown = shown ≡ links
  Holds s links ended (answered o) shown = (shown ≡ links) × IsRow s ended o
  Holds s links ended through shown = Unit

  abbrev ended : Progress → Progress → Bool
  ended p q = is_through p || is_through q

  abbrev IsTracked : UserSettings → World → Progress → Progress → Type 0
  IsTracked s w p q =
      Holds s a (ended p q) p w.quick_links
      × (Holds s b (ended p q) q w.external_links × IsRow s (ended p q) w.row)

  Holds-ended :
      {A : Type 0} (s : UserSettings) (links : List A) (e : Bool) (p : Progress) (shown : List A)
      → Holds s links e p shown
      → Holds s links true p shown
  Holds-ended s links e uncalled shown h = tt
  Holds-ended s links e asking shown h = h
  Holds-ended s links e (answered o) shown h = (h.0, inl refl)
  Holds-ended s links e through shown h = tt

  end-external_links :
      (o : Option UserSettings) (w : World)
      → (end_quick_links true a o w).external_links ≡ w.external_links
  unfolding end_quick_links write_quick_links
  end-external_links none w = refl
  end-external_links (some s) w = refl

  end-quick_links :
      (o : Option UserSettings) (w : World)
      → (end_external_links true b o w).quick_links ≡ w.quick_links
  unfolding end_external_links write_external_links
  end-quick_links none w = refl
  end-quick_links (some s) w = refl

  ended_right : (p : Progress) → (is_through p || true) ≡ true
  ended_right uncalled = refl
  ended_right asking = refl
  ended_right (answered o) = refl
  ended_right through = refl

  quick-IsTracked :
      (s : UserSettings) (w : World) (p q : Progress)
      → IsTracked s w p q
      → IsTracked s (quick_step a p w).0 (quick_step a p w).1 q
  unfolding begin_quick_links
  quick-IsTracked s w uncalled q h = (refl, h.1)
  quick-IsTracked s w asking q h = ((h.0, h.1.1), h.1)
  quick-IsTracked s w (answered o) q h = (
    tt,
    (
      rw (end-external_links o w) (Holds-ended s b (is_through q) q w.external_links h.1.0),
      inl refl,
    ),
  )
  quick-IsTracked s w through q h = h

  external-IsTracked :
      (s : UserSettings) (w : World) (p q : Progress)
      → IsTracked s w p q
      → IsTracked s (external_step b q w).0 p (external_step b q w).1
  unfolding begin_external_links
  external-IsTracked s w p uncalled h = (h.0, (refl, h.1.1))
  external-IsTracked s w p asking h = (h.0, ((h.1.0, h.1.1), h.1.1))
  external-IsTracked s w p (answered o) h =
      rw (end-quick_links o w, ended_right p)
        (Holds-ended s a (is_through p || false) p w.quick_links h.0, (tt, inl refl))
  external-IsTracked s w p through h = h

  take_turns-IsTracked :
      (s : UserSettings) (ts : List Turn) (x : Session)
      → IsTracked s x.world x.quick x.external
      → IsTracked s (take_turns ts x).world (take_turns ts x).quick (take_turns ts x).external
  unfolding take_turns take_turn
  take_turns-IsTracked s [] x h = h
  take_turns-IsTracked s (quick_turn ∷ ts) x h =
      take_turns-IsTracked s ts (take_turn quick_turn x)
        (quick-IsTracked s x.world x.quick x.external h)
  take_turns-IsTracked s (external_turn ∷ ts) x h =
      take_turns-IsTracked s ts (take_turn external_turn x)
        (external-IsTracked s x.world x.quick x.external h)

  -- Both saves have fetched the row and neither has written it.
  both_fetched :
      (s : UserSettings) (w : World) (o o' : Option UserSettings)
      → IsTracked s w (answered o) (answered o')
      → ((o ≡ some s) × (o' ≡ some s)) × ((w.quick_links ≡ a) × (w.external_links ≡ b))
  both_fetched s w o o' ((shown, inr e), ((shown', inr e'), row)) = ((e, e'), (shown, shown'))
  both_fetched s w o o' ((shown, inl never), more) = cc
  both_fetched s w o o' ((shown, inr e), ((shown', inl never), row)) = cc

  last_turns :
      (s : UserSettings) (x : Session) (o o' : Option UserSettings)
      → x.quick ≡ answered o
      → x.external ≡ answered o'
      → IsTracked s x.world (answered o) (answered o')
      → ((take_turns (quick_turn ∷ external_turn ∷ []) x).world.quick_links ≡ a)
        × (((take_turns (quick_turn ∷ external_turn ∷ []) x).world.external_links ≡ b)
            × ((take_turns (quick_turn ∷ external_turn ∷ []) x).world.row
                ≡ some (record s { external_links = some b })))
  unfolding take_turns take_turn end_quick_links end_external_links write_quick_links
      write_external_links
  last_turns s x o o' e e' h =
      let ((f, f'), (shown, shown')) = both_fetched s x.world o o' h in
      rw (e, e', f, f') (shown, (shown', refl))

  other_turns :
      (s : UserSettings) (x : Session) (o o' : Option UserSettings)
      → x.quick ≡ answered o
      → x.external ≡ answered o'
      → IsTracked s x.world (answered o) (answered o')
      → (take_turns (external_turn ∷ quick_turn ∷ []) x).world.row
        ≡ some (record s { quick_links = some a })
  unfolding take_turns take_turn end_quick_links end_external_links write_quick_links
      write_external_links
  other_turns s x o o' e e' h =
      let ((f, f'), (shown, shown')) = both_fetched s x.world o o' h in rw (e', e, f) refl

  -- If the server has a row, and after some turns of the two functions that save links both have
  -- the answer to their first request and neither has sent its second one, then once both are
  -- through the page shows both kinds of links, but the row is the one from before with only the
  -- links of the function that wrote last.
  pub saves_at_once_lose :
      (s : UserSettings) (w : World) (ts : List Turn) (o o' : Option UserSettings)
      → w.row ≡ some s
      → (take_turns ts (uncalled_at w)).quick ≡ answered o
      → (take_turns ts (uncalled_at w)).external ≡ answered o'
      → let before = take_turns ts (uncalled_at w) in
        let after = (take_turns (quick_turn ∷ external_turn ∷ []) before).world in
        (after.quick_links ≡ a)
        × ((after.external_links ≡ b)
            × ((after.row ≡ some (record s { external_links = some b }))
                × ((take_turns (external_turn ∷ quick_turn ∷ []) before).world.row
                    ≡ some (record s { quick_links = some a }))))
  saves_at_once_lose s w ts o o' e f f' =
      let before : Session = take_turns ts (uncalled_at w) in
      let tracked : IsTracked s before.world (answered o) (answered o') =
        subst (λ q. IsTracked s before.world (answered o) q) f'
          (subst (λ p. IsTracked s before.world p before.external) f
            (take_turns-IsTracked s ts (uncalled_at w) (tt, (tt, inr e)))) in
      let (shown, (shown', row)) = last_turns s before o o' f f' tracked in
      (shown, (shown', (row, other_turns s before o o' f f' tracked)))
