-- ===== src/Fingerprints/Tests.antt =====
-- Fingerprints at concrete inputs.
use bezel_custom.Prelude.{String, List, [], ◌∷◌}
use bezel_custom.Fingerprints.{FingerprintRecord}

abbrev print : String → String → FingerprintRecord
print system token = record {
  id = token;
  system = system;
  system_name = system;
  token = token;
  fingerprint = "";
}

abbrev prints : List FingerprintRecord
prints = print "a" "t1" ∷ print "b" "t2" ∷ print "a" "t3" ∷ []
