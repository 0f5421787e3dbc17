-- ===== src/SystemsTable/Menu.antt =====
-- The menu of a system: which items it has, what they send and what is shown of the answers.
use bezel_custom.Prelude.{
  ℕ, ◌≡◌, ◌≢◌, inl, inr, refl, String, Bool, true, false, not, Option, none, some, List, [], ◌∷◌,
  ◌++◌, arith, ◌==◌, ◌||◌, ◌&&◌, if◌then◌else◌, Bool-cases, All, All-append, ◌<◌,
}
use bezel_custom.Systems.{SystemStatus, up, down, pending, paused}
use bezel_custom.SystemsTable.{Row, is_up, is_paused, or_zero}

pub data Item : Type 0 where
  edit pause resume copy_name copy_host update_agent apply_all apply_security reboot remove : Item

abbrev pub when : Bool → Item → List Item
when test item = if test then item ∷ [] else []

-- The items that are not hidden, in their order: those below the copying ones, and all.
pub agent_items : Bool → Row → List Item
unfolding is_up
agent_items is_read_only system =
    let runs : Bool = not (is_read_only || not (is_up system.status)) in
    when runs update_agent
    ++ (when (runs && not (or_zero system.pu == 0)) apply_all
        ++ (when (runs && not (or_zero system.pus == 0)) apply_security
            ++ (when runs reboot ++ when (not is_read_only) remove)))

unfoldable pub items : Bool → Row → List Item
unfolding agent_items is_paused
items is_read_only system =
    when (not is_read_only) edit
    ++ (when (not is_read_only) (if is_paused system.status then resume else pause)
        ++ (copy_name ∷ copy_host ∷ agent_items is_read_only system))

-- The status that pausing and resuming writes.
pub toggled : SystemStatus → SystemStatus
unfolding is_paused
toggled status = if is_paused status then pending else paused

pub data Request : Type 0 where
  set_status : String → SystemStatus → Request
  -- of the agent of a system: its own update, of packages (security updates only), a reboot
  agent_update agent_reboot : String → Request
  apply_updates : String → Bool → Request
  delete_system : String → Request

-- Copying and the dialog that edits send nothing; a reboot and a removal are asked for in a dialog
-- first.
pub request : Item → Row → Option Request
unfolding toggled
request pause system = some (set_status system.id (toggled system.status))
request resume system = some (set_status system.id (toggled system.status))
request update_agent system = some (agent_update system.id)
request apply_all system = some (apply_updates system.id false)
request apply_security system = some (apply_updates system.id true)
request reboot system = some (agent_reboot system.id)
request remove system = some (delete_system system.id)
request _ system = none

pub data Toast : Type 0 where
  pushing_update : String → Toast
  agent_updating agent_up_to_date : Option String → Toast
  updates_started security_started : String → ℕ → Toast
  rebooting : String → Toast
  agent_update_failed update_failed reboot_failed : Option String → Toast

-- What the agent's update answers.
pub data Answer : Type 0 where
  accepted : Bool → Option String → Answer
  refused : Option String → Answer

-- The toasts when an item is chosen, and when its request is answered.
pub first_toast : Item → Row → Option Toast
first_toast update_agent system = some (pushing_update system.name)
first_toast _ system = none

pub answer_toast : Item → Row → Answer → Option Toast
answer_toast update_agent system (accepted updated message) =
    some (if updated then agent_updating message else agent_up_to_date message)
answer_toast update_agent system (refused message) = some (agent_update_failed message)
answer_toast apply_all system (accepted updated message) =
    some (updates_started system.name (or_zero system.pu))
answer_toast apply_all system (refused message) = some (update_failed message)
answer_toast apply_security system (accepted updated message) =
    some (security_started system.name (or_zero system.pus))
answer_toast apply_security system (refused message) = some (update_failed message)
answer_toast reboot system (accepted updated message) = some (rebooting system.name)
answer_toast reboot system (refused message) = some (reboot_failed message)
answer_toast _ system answer = none

-- What a request needs of the user and of the system.
abbrev pub Allowed : Bool → Row → Option Request → Type 0
Allowed is_read_only system none = Unit
Allowed is_read_only system (some (set_status id status)) = is_read_only ≡ false
Allowed is_read_only system (some (agent_update id)) = (is_read_only ≡ false) × (system.status ≡ up)
Allowed is_read_only system (some (agent_reboot id)) = (is_read_only ≡ false) × (system.status ≡ up)
Allowed is_read_only system (some (apply_updates id security)) =
    (is_read_only ≡ false)
    × (system.status ≡ up)
    × (0 < or_zero (if security then system.pus else system.pu))
Allowed is_read_only system (some (delete_system id)) = is_read_only ≡ false

is_up_lem : (status : SystemStatus) → is_up status ≡ true → status ≡ up
unfolding is_up
is_up_lem up e = refl
is_up_lem down e = cc
is_up_lem pending e = cc
is_up_lem paused e = cc

module _ (is_read_only : Bool) (system : Row) where
  abbrev Fits : Item → Type 0
  Fits item = Allowed is_read_only system (request item system)

  when-Fits : (test : Bool) (item : Item) → (test ≡ true → Fits item) → All Fits (when test item)
  when-Fits false item h = tt
  when-Fits true item h = (h refl, tt)

  writes_lem : not is_read_only ≡ true → is_read_only ≡ false
  writes_lem e = ground (arith, e)

  runs_lem :
      not (is_read_only || not (is_up system.status)) ≡ true
      → (is_read_only ≡ false) × (system.status ≡ up)
  runs_lem e = (ground (arith, e), is_up_lem system.status (ground (arith, e)))

  counted :
      (count : Option ℕ)
      → (not (is_read_only || not (is_up system.status)) && not (or_zero count == 0)) ≡ true
      → (is_read_only ≡ false) × (system.status ≡ up) × (0 < or_zero count)
  counted count e =
      let (writes, is_running) = runs_lem (ground (arith, e)) in
      (writes, is_running, ground (arith, e))

  toggle-Fits : is_read_only ≡ false → Fits (if is_paused system.status then resume else pause)
  unfolding request
  toggle-Fits e = elim (Bool-cases (is_paused system.status)) [
    | inl stopped ↦ rw stopped e
    | inr going ↦ rw going e
  ]

  agent_items-Fits : All Fits (agent_items is_read_only system)
  unfolding agent_items request
  agent_items-Fits =
      let runs : Bool = not (is_read_only || not (is_up system.status)) in
      let ends : List Item = when runs reboot ++ when (not is_read_only) remove in
      let security : List Item = when (runs && not (or_zero system.pus == 0)) apply_security in
      let updates : List Item = when (runs && not (or_zero system.pu == 0)) apply_all in
      All-append Fits (when runs update_agent) (updates ++ (security ++ ends))
        (when-Fits runs update_agent runs_lem)
        (All-append Fits updates (security ++ ends)
          (when-Fits (runs && not (or_zero system.pu == 0)) apply_all (counted system.pu))
          (All-append Fits security ends
            (when-Fits (runs && not (or_zero system.pus == 0)) apply_security (counted system.pus))
            (All-append Fits (when runs reboot) (when (not is_read_only) remove)
              (when-Fits runs reboot runs_lem) (when-Fits (not is_read_only) remove writes_lem))))

-- Of the items in a system's menu, none sends a request for a user who only reads; those that ask
-- the agent for something are there only for a system that is up, and those that apply updates
-- only if there are such updates.
pub items-Allowed :
    (is_read_only : Bool) (system : Row)
    → All (λ item. Allowed is_read_only system (request item system)) (items is_read_only system)
unfolding items request
items-Allowed is_read_only system =
    let F : Item → Type 0 = Fits is_read_only system in
    let toggle : Item = if is_paused system.status then resume else pause in
    let rest : List Item = copy_name ∷ copy_host ∷ agent_items is_read_only system in
    All-append F (when (not is_read_only) edit) (when (not is_read_only) toggle ++ rest)
      (when-Fits is_read_only system (not is_read_only) edit (λ e. tt))
      (All-append F (when (not is_read_only) toggle) rest
        (when-Fits is_read_only system (not is_read_only) toggle
          (λ e. toggle-Fits is_read_only system (writes_lem is_read_only system e)))
        (tt, (tt, agent_items-Fits is_read_only system)))

-- x
pub toggled_lem :
    (status : SystemStatus)
    → (is_paused (toggled status) ≡ not (is_paused status)) × (toggled status ≢ up)
unfolding toggled is_paused
toggled_lem up = (refl, λ e. cc)
toggled_lem down = (refl, λ e. cc)
toggled_lem pending = (refl, λ e. cc)
toggled_lem paused = (refl, λ e. cc)
