-- ===== src/Tables/Filters.antt =====
-- The texts that the filters of the containers, the services and the disks table search, and when a
-- row matches.
use Prim.Native.String
use bezel_custom.Prelude.{ℕ, ◌≡◌, String, Bool, Option, List, [], ◌∷◌, ◌&&◌, given, get_elem?}
use bezel_custom.Dict.{Dict, get}
use bezel_custom.Search.{split_spaces, every_term}
use bezel_custom.Search.Terms.{every_term-append, split_spaces-append}
use bezel_custom.Disks.{Disk}

-- The fields that are searched: of a container, and of a service of systemd.
pub record Container : Type 0 where
  pub id : Option String
  pub name : Option String
  pub system : String
  pub status : Option String
  pub health : ℕ
  pub image : Option String

pub record Service : Type 0 where
  pub name : Option String
  pub system : String
  pub state : ℕ
  pub sub : Option String

pub container_health_labels : List String
container_health_labels = "None" ∷ "Starting" ∷ "Healthy" ∷ "Unhealthy" ∷ []

pub service_status_labels : List String
service_status_labels =
    "Active" ∷ "Inactive" ∷ "Failed" ∷ "Activating" ∷ "Deactivating" ∷ "Reloading" ∷ []

abbrev pub or_empty : Option String → String
or_empty text = given text ""

-- A template of texts with a space between each two.
abbrev pub spaced : String → List String → String
spaced first [] = first
spaced first (x ∷ xs) = String.◌++◌ first (String.◌++◌ " " (spaced x xs))

-- `$allSystemsById.get()[id]?.name ?? ""`, by the names of systems
pub system_name : Dict String → String → String
unfolding get
system_name systems id = or_empty (get systems id)

pub container_text : Dict String → Container → String
unfolding system_name container_health_labels
container_text systems c = spaced (system_name systems c.system) (
    or_empty c.id
    ∷ or_empty c.name
    ∷ or_empty (get_elem? container_health_labels c.health)
    ∷ or_empty c.status
    ∷ or_empty c.image
    ∷ [])

pub service_text : Dict String → Service → String
unfolding system_name service_status_labels
service_text systems s =
    spaced (system_name systems s.system)
      (or_empty s.name ∷ or_empty (get_elem? service_status_labels s.state) ∷ or_empty s.sub ∷ [])

pub disk_text : Dict String → Disk → String
unfolding system_name
disk_text systems d =
    spaced (system_name systems d.system) (d.name ∷ d.model ∷ d.state ∷ d.disk_type ∷ [])

-- `toLowerCase`
module _ (lower : String → String) where
  pub global_filter : String → String → Bool
  global_filter filter text = every_term (split_spaces (lower filter)) (lower text)

  pub filter_container : Dict String → Container → String → Bool
  unfolding container_text global_filter
  filter_container systems c filter = global_filter filter (container_text systems c)

  pub filter_service : Dict String → Service → String → Bool
  unfolding service_text global_filter
  filter_service systems s filter = global_filter filter (service_text systems s)

  pub filter_disk : Dict String → Disk → String → Bool
  unfolding disk_text global_filter
  filter_disk systems d filter = global_filter filter (disk_text systems d)

  -- Filter texts with a space between them match what both match.
  global_filter-and :
      (f g text : String)
      → lower (String.◌++◌ f (String.◌++◌ " " g))
        ≡ String.◌++◌ (lower f) (String.◌++◌ " " (lower g))
      → global_filter (String.◌++◌ f (String.◌++◌ " " g)) text
        ≡ (global_filter f text && global_filter g text)
  unfolding global_filter
  global_filter-and f g text e =
      rw (e, split_spaces-append (lower f) (lower g))
        (every_term-append (split_spaces (lower f)) (split_spaces (lower g)) (lower text))

  -- In the tables of containers, services and disks, two filter texts with a space between them
  -- match a row exactly if both match it. The lower case of the joined text is the lower cases
  -- joined.
  pub filters-and :
      (systems : Dict String) (c : Container) (s : Service) (d : Disk) (f g : String)
      → lower (String.◌++◌ f (String.◌++◌ " " g))
        ≡ String.◌++◌ (lower f) (String.◌++◌ " " (lower g))
      → (filter_container systems c (String.◌++◌ f (String.◌++◌ " " g))
          ≡ (filter_container systems c f && filter_container systems c g))
        × (filter_service systems s (String.◌++◌ f (String.◌++◌ " " g))
            ≡ (filter_service systems s f && filter_service systems s g))
        × (filter_disk systems d (String.◌++◌ f (String.◌++◌ " " g))
            ≡ (filter_disk systems d f && filter_disk systems d g))
  unfolding filter_container filter_service filter_disk
  filters-and systems c s d f g e = (
    global_filter-and f g (container_text systems c) e,
    global_filter-and f g (service_text systems s) e,
    global_filter-and f g (disk_text systems d) e,
  )
