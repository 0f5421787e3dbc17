-- ===== src/Router/Tests.antt =====
-- Paths below the path of a proxy.
use bezel_custom.Prelude.{◌≡◌, refl}
use bezel_custom.Router.{prepend_base_path}

below_proxy : prepend_base_path "/monitor/" "/system/:id" ≡ "/monitor/system/:id"
unfolding prepend_base_path
below_proxy = refl

-- Three slashes in a row become two.
three_slashes : prepend_base_path "/monitor//" "/smart" ≡ "/monitor//smart"
unfolding prepend_base_path
three_slashes = refl
